-- ===== src/Command/Url.antt =====
-- cmd/go-xpra/main.go: the connection URL. What net/url and net make of texts is a parameter.
pub mod Accepted
pub mod Targets
use go_xpra.Prelude.{
  ℕ, ◌+◌, Bool, true, false, not, ◌&&◌, ◌||◌, [], ◌∷◌, ◌++◌, Option, none, some, leb, ◌==◌,
  if◌then◌else◌, map,
}
use go_xpra.Prelude.Bytes.{Bytes, codes, bytes_eq}
use go_xpra.Prelude.Result.{Result, ok, err, ◌>>=◌}
use go_xpra.Rencode.Decimal.{parse_nat, append_nat}
use go_xpra.Command.Shell.{one_of}
use go_xpra.Command.Target.{Transport, Target, default_ssh_port}
use go_xpra.Command.Ssh.{has_prefix, is_empty}

-- A parsed URL of net/url, with what its methods return. A user comes with the password or "".
pub record Url : Type 0 where
  pub scheme : Bytes
  pub opaque : Bytes
  pub host : Bytes
  pub path : Bytes
  pub raw_path : Bytes
  pub raw_query : Bytes
  pub fragment : Bytes
  pub user : Option (Bytes × Bytes)
  pub hostname : Bytes
  pub port : Bytes

pub data PathError : Type 0 where
  path_required path_relative path_nul : PathError

pub data UrlError : Type 0 where
  invalid scheme_required scheme_unsupported : UrlError
  socket_form socket_host socket_query : UrlError
  socket_path : PathError → UrlError
  host_required path_given query_given host_dash port_empty port_range bad_display : UrlError

-- `strings.ToLower`, on ASCII.
unfoldable pub lower_byte : ℕ → ℕ
lower_byte c = if leb b'A' c && leb c b'Z' then c + 32 else c

unfoldable pub to_lower : Bytes → Bytes
unfolding lower_byte
to_lower [] = []
to_lower (c ∷ cs) = lower_byte c ∷ to_lower cs

unfoldable pub transport_of : Bytes → Option Transport
transport_of scheme =
    if bytes_eq scheme (codes "unix") || bytes_eq scheme (codes "socket")
    then some Transport.socket
    else if bytes_eq scheme (codes "tcp")
    then some Transport.tcp
    else if bytes_eq scheme (codes "ssl")
    then some Transport.ssl
    else if bytes_eq scheme (codes "ssh")
    then some Transport.ssh
    else if bytes_eq scheme (codes "ws")
    then some Transport.ws
    else if bytes_eq scheme (codes "wss")
    then some Transport.wss
    else none

unfoldable pub validate_socket_path : Bytes → Option PathError
unfolding is_empty has_prefix one_of
validate_socket_path path =
    if is_empty path || bytes_eq path (codes "/")
    then some PathError.path_required
    else if not (has_prefix path (codes "/"))
    then some PathError.path_relative
    else if one_of 0 path
    then some PathError.path_nul
    else none

abbrev pub is_ssh : Transport → Bool
is_ssh Transport.ssh = true
is_ssh _ = false

abbrev pub is_web_socket : Transport → Bool
is_web_socket Transport.ws = true
is_web_socket Transport.wss = true
is_web_socket _ = false

abbrev pub default_port : Transport → Bytes
default_port Transport.ssh = default_ssh_port
default_port Transport.ws = codes "80"
default_port Transport.wss = codes "443"
default_port _ = codes "14500"

unfoldable pub with_user : Option (Bytes × Bytes) → Target → Target
with_user none target = target
with_user (some (name, password)) target = record target { username = name; password = password }

unfoldable pub socket_target : Bytes → Bytes → Url → Result UrlError Target
unfolding is_empty has_prefix to_lower with_user
socket_target raw scheme u =
    if not (is_empty u.opaque) || not (has_prefix (to_lower raw) (scheme ++ codes "://"))
    then err UrlError.socket_form
    else if not (is_empty u.host)
    then err UrlError.socket_host
    else if not (is_empty u.raw_query) || not (is_empty u.fragment)
    then err UrlError.socket_query
    else elim (validate_socket_path u.path) [
      | some failure ↦ err (UrlError.socket_path failure)
      | none ↦ ok (
          with_user u.user (record {
            transport = Transport.socket;
            address = u.path;
            server_name = [];
            port = [];
            display = [];
            path = [];
            raw_path = [];
            raw_query = [];
            username = [];
            password = [];
          }))
    ]

unfoldable pub ends_in_colon : Bytes → Bool
ends_in_colon [] = false
ends_in_colon (c ∷ []) = c == 58
ends_in_colon (c ∷ d ∷ cs) = ends_in_colon (d ∷ cs)

-- `strconv.ParseUint(s, 10, 16)`, and not 0.
unfoldable pub parse_port : Bytes → Option ℕ
unfolding parse_nat
parse_port s = elim (parse_nat s) [
  | none ↦ none
  | some n ↦ if leb n 65535 && not (n == 0) then some n else none
]

unfoldable pub port_of : Transport → Url → Result UrlError Bytes
unfolding parse_port ends_in_colon is_empty append_nat
port_of transport u =
    if is_empty u.port
    then (if ends_in_colon u.host then err UrlError.port_empty else ok (default_port transport))
    else elim (parse_port u.port) [
      | none ↦ err UrlError.port_range
      | some number ↦ ok (append_nat [] number)
    ]

-- `strings.IndexFunc` with `unicode.IsControl`: ASCII, and what follows 0xc2 in UTF-8.
unfoldable pub has_control : Bytes → Bool
has_control [] = false
has_control (c ∷ []) = leb c 31 || c == 127
has_control (c ∷ d ∷ cs) =
    leb c 31 || c == 127 || (c == 0xc2 && leb 0x80 d && leb d 0x9f) || has_control (d ∷ cs)

unfoldable pub trim_slash : Bytes → Bytes
trim_slash [] = []
trim_slash (c ∷ cs) = if c == 47 then cs else c ∷ cs

unfoldable pub display_of : Transport → Bytes → Result UrlError Bytes
unfolding is_empty one_of has_control trim_slash
display_of transport path =
    if is_ssh transport && not (is_empty path) && not (bytes_eq path (codes "/"))
    then (if is_empty (trim_slash path)
          || one_of 47 (trim_slash path)
          || has_control (trim_slash path)
        then err UrlError.bad_display
        else ok (trim_slash path))
    else ok []

unfoldable pub remote_path : Bytes → Bytes
unfolding is_empty
remote_path path = if is_empty path then codes "/" else path

module _ (parse : Bytes → Option Url) (join_host_port : Bytes → Bytes → Bytes) where
  unfoldable pub host_target : Transport → Url → Bytes → Bytes → Target
  unfolding with_user remote_path
  host_target transport u port display = with_user u.user (record {
    transport = transport;
    address = join_host_port u.hostname port;
    server_name = u.hostname;
    port = port;
    display = display;
    path = if is_web_socket transport then remote_path u.path else [];
    raw_path = if is_web_socket transport then u.raw_path else [];
    raw_query = if is_web_socket transport then u.raw_query else [];
    username = [];
    password = [];
  })

  unfoldable pub remote_target : Transport → Url → Result UrlError Target
  unfolding is_empty has_prefix port_of display_of host_target
  remote_target transport u =
      if not (is_empty u.opaque) || is_empty u.host
      then err UrlError.host_required
      else if not (is_ssh transport)
          && not (is_web_socket transport)
          && not (is_empty u.path)
          && not (bytes_eq u.path (codes "/"))
      then err UrlError.path_given
      else if (not (is_web_socket transport) && not (is_empty u.raw_query))
          || not (is_empty u.fragment)
      then err UrlError.query_given
      else if is_empty u.hostname
      then err UrlError.host_required
      else if is_ssh transport && has_prefix u.hostname (codes "-")
      then err UrlError.host_dash
      else port_of transport u >>= (λ port.
        display_of transport u.path >>= (λ display. ok (host_target transport u port display)))

  unfoldable pub target_of : Bytes → Bytes → Url → Transport → Result UrlError Target
  unfolding socket_target remote_target
  target_of raw scheme u Transport.socket = socket_target raw scheme u
  target_of raw scheme u transport = remote_target transport u

  unfoldable pub parse_connection_url : Bytes → Result UrlError Target
  unfolding target_of transport_of to_lower is_empty
  parse_connection_url raw = elim (parse raw) [
    | none ↦ err UrlError.invalid
    | some u ↦ elim (transport_of (to_lower u.scheme)) [
      | none ↦
          if is_empty u.scheme
          then err UrlError.scheme_required
          else err UrlError.scheme_unsupported
      | some transport ↦ target_of raw (to_lower u.scheme) u transport
    ]
  ]
