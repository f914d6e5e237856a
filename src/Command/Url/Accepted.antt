-- ===== src/Command/Url/Accepted.antt =====
-- cmd/go-xpra/main.go: what is known of the target of an accepted URL.
use go_xpra.Prelude.{
  ℕ, ◌≤◌, ◌<◌, ◌≡◌, ◌≢◌, ◌⊎◌, ◌++◌, All, ap, refl, subst, inl, inr, false, not, ◌&&◌, ◌||◌, [], ◌∷◌,
  none, some, if◌then◌else◌, arith, Bool-cases, Option-cases,
}
use go_xpra.Prelude.Bytes.{Bytes, codes, bytes_eq}
use go_xpra.Prelude.Result.{ok, err, if-ok}
use go_xpra.Rencode.Decimal.{parse_nat, append_nat, parse_digits, is_digit}
use go_xpra.Rencode.Decimal.Laws.{parse_nat-digits}
use go_xpra.Command.Shell.{one_of}
use go_xpra.Command.Target.{Transport, Target}
use go_xpra.Command.Ssh.{has_prefix, is_empty}
use go_xpra.Command.Url.{
  Url, UrlError, validate_socket_path, is_ssh, default_port, parse_port, port_of, ends_in_colon,
  has_control, trim_slash, display_of,
}

-- The decimal digits of a port.
abbrev pub IsPort : Bytes → Type 0
IsPort port = (p : ℕ) × (parse_nat port ≡ some p) × (1 ≤ p) × (p ≤ 65535)

-- No byte of the text is this one.
abbrev pub Without : ℕ → Bytes → Type 0
Without b text = All (λ c. c ≢ b) text

-- One segment of a path without control characters: those of ASCII, and those that two bytes encode.
abbrev pub IsSegment : Bytes → Type 0
IsSegment display =
    Without 47 display
    × All (λ c. (32 ≤ c) × (c ≢ 127)) display
    × ((front back : Bytes) (d : ℕ)
        → display ≡ front ++ (0xc2 ∷ d ∷ back)
        → (d < 0x80) ⊎ (0x9f < d))

-- An absolute path without NUL, other than `/`.
abbrev pub IsSocketPath : Bytes → Type 0
IsSocketPath path = ((c : ℕ) × (rest : Bytes) × (path ≡ 47 ∷ c ∷ rest)) × Without 0 path

-- A name that is not empty and does not begin with a dash.
abbrev pub IsHost : Bytes → Type 0
IsHost name = (c : ℕ) × (rest : Bytes) × (name ≡ c ∷ rest) × (c ≢ 45)

abbrev pub IsTargetOf : Transport → Target → Type 0
IsTargetOf Transport.socket t = IsSocketPath t.address
IsTargetOf Transport.ssh t = IsPort t.port × IsHost t.server_name × IsSegment t.display
IsTargetOf transport t = IsPort t.port × (t.server_name ≢ []) × (t.display ≡ [])

default_port-IsPort : (transport : Transport) → IsPort (default_port transport)
unfolding parse_nat parse_digits is_digit
default_port-IsPort Transport.tcp = (14500, refl, omega arith, omega arith)
default_port-IsPort Transport.ssl = (14500, refl, omega arith, omega arith)
default_port-IsPort Transport.ssh = (22, refl, omega arith, omega arith)
default_port-IsPort Transport.ws = (80, refl, omega arith, omega arith)
default_port-IsPort Transport.wss = (443, refl, omega arith, omega arith)
default_port-IsPort Transport.socket = (14500, refl, omega arith, omega arith)

pub parse_port_bounds : (s : Bytes) (n : ℕ) → parse_port s ≡ some n → (1 ≤ n) × (n ≤ 65535)
unfolding parse_port
parse_port_bounds s n e = ground arith

pub number-IsPort : (number : ℕ) → (1 ≤ number) × (number ≤ 65535) → IsPort (append_nat [] number)
unfolding append_nat
number-IsPort number (l, u) = (number, parse_nat-digits number, l, u)

pub port_of-IsPort :
    (transport : Transport) (u : Url) (port : Bytes) → port_of transport u ≡ ok port → IsPort port
unfolding port_of
port_of-IsPort transport u port e = elim (Bool-cases (is_empty u.port)) [
  | inl absent ↦
      let chosen : (if ends_in_colon u.host
            then err UrlError.port_empty
            else ok (default_port transport))
          ≡ ok port =
        rw (absent, port_of) at e in
      let (unused, same) = if-ok (ends_in_colon u.host) _ _ chosen in
      let equal : default_port transport ≡ port = cc in
      subst IsPort equal (default_port-IsPort transport)
  | inr given ↦ elim (Option-cases (parse_port u.port)) [
    | inl bad ↦
        let clash : err UrlError.port_range ≡ ok port = rw (given, bad, port_of) at e in absurd cc
    | inr (number, good) ↦
        let written : ok (append_nat [] number) ≡ ok port = rw (given, good, port_of) at e in
        let equal : append_nat [] number ≡ port = cc in
        subst IsPort equal (number-IsPort number (parse_port_bounds u.port number good))
  ]
]

one_of-Without : (b : ℕ) (text : Bytes) → one_of b text ≡ false → Without b text
unfolding one_of
one_of-Without b [] e = tt
one_of-Without b (c ∷ text) e = ground (arith, one_of-Without b text)

has_control-tail :
    (c : ℕ) (text : Bytes) → has_control (c ∷ text) ≡ false → has_control text ≡ false
unfolding has_control
has_control-tail c [] e = refl
has_control-tail c (d ∷ text) e = ground arith

has_control-ascii : (text : Bytes) → has_control text ≡ false → All (λ c. (32 ≤ c) × (c ≢ 127)) text
unfolding has_control
has_control-ascii [] e = tt
has_control-ascii (c ∷ []) e = ground arith
has_control-ascii (c ∷ d ∷ text) e =
    (ground arith, has_control-ascii (d ∷ text) (has_control-tail c (d ∷ text) e))

has_control-pair :
    (front back : Bytes) (d : ℕ)
    → has_control (front ++ (0xc2 ∷ d ∷ back)) ≡ false
    → (d < 0x80) ⊎ (0x9f < d)
unfolding has_control
has_control-pair [] back d e = ground arith
has_control-pair (c ∷ front) back d e =
    has_control-pair front back d (has_control-tail c (front ++ (0xc2 ∷ d ∷ back)) e)

pub segment_lem : (d : Bytes) → one_of 47 d ≡ false → has_control d ≡ false → IsSegment d
segment_lem d slash control = (
  one_of-Without 47 d slash,
  has_control-ascii d control,
  λ front back c e. has_control-pair front back c (rw (← e) control),
)

pub validate_socket_path-IsSocketPath :
    (path : Bytes) → validate_socket_path path ≡ none → IsSocketPath path
unfolding validate_socket_path is_empty has_prefix bytes_eq
validate_socket_path-IsSocketPath [] e = absurd cc
validate_socket_path-IsSocketPath (c ∷ []) e = absurd (ground arith)
validate_socket_path-IsSocketPath (c ∷ d ∷ rest) e =
    let first : c ≡ 47 = ground arith in
    let nul : one_of 0 (c ∷ d ∷ rest) ≡ false = ground arith in
    ((d, rest, ap (λ b. b ∷ d ∷ rest) first), one_of-Without 0 (c ∷ d ∷ rest) nul)

pub host_lem :
    (name : Bytes) → is_empty name ≡ false → has_prefix name (codes "-") ≡ false → IsHost name
unfolding is_empty has_prefix
host_lem [] e f = absurd cc
host_lem (c ∷ name) e f = (c, name, refl, ground arith)

pub not_empty : (name : Bytes) → is_empty name ≡ false → name ≢ []
unfolding is_empty
not_empty [] e = absurd cc
not_empty (c ∷ name) e = λ q. absurd cc

pub display_of-IsSegment :
    (transport : Transport) (path display : Bytes)
    → display_of transport path ≡ ok display
    → IsSegment display
unfolding display_of one_of has_control
display_of-IsSegment transport path display e =
    elim (Bool-cases (is_ssh transport && not (is_empty path) && not (bytes_eq path (codes "/")))) [
      | inl named ↦
          let chosen : (if is_empty (trim_slash path)
                  || one_of 47 (trim_slash path)
                  || has_control (trim_slash path)
                then err UrlError.bad_display
                else ok (trim_slash path))
              ≡ ok display =
            rw (named, display_of) at e in
          let (fits, same) =
            if-ok
              (is_empty (trim_slash path)
                || one_of 47 (trim_slash path)
                || has_control (trim_slash path))
              _ _ chosen in
          let equal : trim_slash path ≡ display = cc in
          subst IsSegment equal (segment_lem (trim_slash path) (ground arith) (ground arith))
      | inr plain ↦
          let chosen : ok [] ≡ ok display = rw (plain, display_of) at e in
          let equal : [] ≡ display = cc in subst IsSegment equal (segment_lem [] refl refl)
    ]

pub no_display :
    (transport : Transport) (path display : Bytes)
    → is_ssh transport ≡ false
    → display_of transport path ≡ ok display
    → display ≡ []
unfolding display_of
no_display transport path display other e =
    let chosen : ok [] ≡ ok display = rw (other, display_of) at e in cc
