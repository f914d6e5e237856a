-- ===== src/Client/Hello.antt =====
-- client/hello.go: the capabilities of the client, and its answer to a challenge. Hashes, random
-- numbers, the environment and files belong to the host.
pub mod Display
pub mod Codings
use go_xpra.Prelude.{
  ℕ, ◌+◌, ◌/◌, ◌%◌, Bool, true, false, ◌||◌, not, List, [], ◌∷◌, ◌++◌, Option, none, some, length,
  take, leb, ltb, ◌==◌, if◌then◌else◌,
}
use go_xpra.Prelude.Int.{pos}
use go_xpra.Prelude.Bytes.{Bytes, codes, bytes_eq}
use go_xpra.Prelude.Result.{Result, ok, err}
use go_xpra.Rencode.Value.{Value, Entries, no_entries, entry, set}
use go_xpra.Protocol.Packet.{Packet, bytes, str}
use go_xpra.Client.State.{
  Action, SessionError, no_server_salt, random_failed, other_digests, or_default,
}
use go_xpra.Client.Clipboard.Text.{clipboard_selection, clipboard_targets}

-- What the process finds around it. Random numbers may fail, and differ from one use to the next.
pub record Host : Type 0 where
  pub hmac_sha256 : Bytes → Bytes → Bytes
  pub sha256 : Bytes → Bytes
  pub random : Bytes → List Action → ℕ → Option Bytes
  pub hostname : Option Bytes
  pub read_file : Bytes → Option Bytes
  pub trim_space : Bytes → Bytes
  pub getenv : Bytes → Bytes
  -- the installed prompt, whose answer fails or is a password
  pub prompt : Option (Bytes → Option Bytes)
  -- the name of the file behind the shared area
  pub mmap_file : Bytes

abbrev pub client_version : Bytes
client_version = codes "8.0"

abbrev pub digest_name : Bytes
digest_name = codes "hmac+sha256"

abbrev pub challenge_salt_len : ℕ
challenge_salt_len = 32

unfoldable pub hex_digit : ℕ → ℕ
hex_digit n = if ltb n 10 then 48 + n else 87 + n

unfoldable pub hex_encode : Bytes → Bytes
hex_encode [] = []
hex_encode (b ∷ bs) = hex_digit (b / 16 % 16) ∷ hex_digit (b % 16) ∷ hex_encode bs

unfoldable pub zeros : ℕ → Bytes
zeros ℕ.zero = []
zeros (ℕ.suc n) = 48 ∷ 48 ∷ zeros n

module _ (h : Host) where
  unfoldable pub random_hex : Bytes → List Action → ℕ → Bytes
  random_hex purpose log n = elim (h.random purpose log n) [
    | some b ↦ hex_encode b
    | none ↦ zeros n
  ]

  unfoldable pub hashed_id : Bytes → Bytes
  hashed_id id = hex_encode (take 16 (h.sha256 (codes "go-xpra:" ++ id)))

  -- The identifier in a file, or nothing.
  unfoldable pub id_in : Bytes → Bytes
  id_in path = elim (h.read_file path) [ some area ↦ h.trim_space area | none ↦ [] ]

  unfoldable pub host_or_random : List Action → Bytes → Bytes
  host_or_random log [] = random_hex (codes "uuid") log 16
  host_or_random log (c ∷ host) = hashed_id (c ∷ host)

  unfoldable pub id_or_host : List Action → List Bytes → Bytes
  id_or_host log [] = host_or_random log (or_default [] h.hostname)
  id_or_host log (path ∷ paths) = elim (id_in path) [
    | [] ↦ id_or_host log paths
    | c ∷ id ↦ hashed_id (c ∷ id)
  ]

  unfoldable pub machine_uuid : List Action → Bytes
  machine_uuid log =
      id_or_host log (codes "/etc/machine-id" ∷ codes "/var/lib/dbus/machine-id" ∷ [])

unfoldable pub dict_of : List (Bytes × Value) → Value
dict_of fields = Value.dict (entries_of fields)
  where
    entries_of : List (Bytes × Value) → Entries
    entries_of [] = no_entries
    entries_of ((k, v) ∷ fields) = entry k v (entries_of fields)

unfoldable pub set_all : List (Bytes × Value) → Entries → Entries
set_all [] caps = caps
set_all ((k, v) ∷ fields) caps = set_all fields (set k v caps)

abbrev pub advertised_codings : List Bytes
advertised_codings =
    codes "rgb24"
    ∷ codes "rgb32"
    ∷ codes "jpeg"
    ∷ codes "png"
    ∷ codes "png/P"
    ∷ codes "png/L"
    ∷ codes "webp"
    ∷ []

abbrev pub yes : Value
yes = Value.bool true

abbrev pub one_text : Bytes → Value
one_text t = Value.texts (t ∷ [])

unfoldable pub basic_caps : Bool → List Bytes → List (Bytes × Value)
basic_caps compatible window_states =
    (codes "version", Value.text client_version)
    ∷ (codes "client_type", Value.text (codes "go"))
    ∷ (codes "protocol-version", Value.ints (pos 7 ∷ pos 0 ∷ []))
    ∷ (codes "encoders", one_text (codes "rencodeplus"))
    ∷ (codes "chunks", yes)
    ∷ (codes "compressors", one_text (codes "lz4"))
    ∷ (codes "compression_level", Value.int (pos 1))
    ∷ (codes "window", dict_of ((codes "enabled", yes) ∷ []))
    ∷ (codes "keyboard", yes)
    ∷ (codes "pointer", dict_of ((codes "double_click", Value.dict no_entries) ∷ []))
    ∷ (codes "bell", yes)
    ∷ (codes "show-desktop", yes)
    ∷ (codes "ping", yes)
    ∷ (
      codes "cursor",
      dict_of (
          (codes "encodings", one_text (codes "png"))
          ∷ (codes "backwards-compatible", Value.bool compatible)
          ∷ []),
    )
    ∷ (codes "notification", yes)
    ∷ (codes "events", yes)
    ∷ (codes "encodings", Value.texts advertised_codings)
    ∷ (
      codes "encoding",
      dict_of (
          (codes "options", Value.texts advertised_codings)
          ∷ (codes "core", Value.texts advertised_codings)
          ∷ (codes "setting", Value.text (codes "auto"))
          ∷ (codes "rgb_formats", Value.texts (codes "BGRX" ∷ codes "BGRA" ∷ []))
          ∷ (codes "transparency", Value.bool false)
          ∷ (codes "window-icon", one_text (codes "png"))
          ∷ []),
    )
    ∷ (
      codes "metadata",
      dict_of (
          (
            codes "supported",
            Value.texts (
                (codes "title"
                  ∷ codes "window-type"
                  ∷ codes "size-constraints"
                  ∷ codes "override-redirect"
                  ∷ codes "iconic"
                  ∷ [])
                ++ window_states),
          )
          ∷ []),
    )
    ∷ (codes "digest", one_text digest_name)
    ∷ (codes "salt-digest", one_text digest_name)
    ∷ []

abbrev pub clipboard_caps : List (Bytes × Value)
clipboard_caps =
    (
      codes "clipboard",
      dict_of (
          (codes "enabled", yes)
          ∷ (codes "selections", one_text clipboard_selection)
          ∷ (codes "greedy", one_text clipboard_selection)
          ∷ (codes "want_targets", one_text clipboard_selection)
          ∷ (codes "preferred-targets", Value.texts clipboard_targets)
          ∷ []),
    )
    ∷ []

abbrev pub legacy_caps : List (Bytes × Value)
legacy_caps =
    (codes "rencodeplus", yes)
    ∷ (codes "windows", yes)
    ∷ (codes "mouse", yes)
    ∷ (codes "cursors", yes)
    ∷ (codes "notifications", dict_of ((codes "enabled", yes) ∷ []))
    ∷ []

-- `cmp.Or`.
unfoldable pub or_text : Bytes → Bytes → Bytes
or_text [] b = b
or_text (c ∷ a) b = c ∷ a

abbrev pub user_caps : Bytes → List (Bytes × Value)
user_caps [] = []
user_caps (c ∷ name) =
    (codes "username", Value.text (c ∷ name)) ∷ (codes "user", Value.text (c ∷ name)) ∷ []

abbrev pub host_caps : Option Bytes → List (Bytes × Value)
host_caps none = []
host_caps (some host) = (codes "hostname", Value.text host) ∷ []

module _ (compatible : Bool) (h : Host) where
  unfoldable pub build_hello : List Action → Bytes → Bool → List Bytes → Entries
  build_hello log username clipboard window_states =
      let name =
        or_text username (or_text (h.getenv (codes "USER")) (h.getenv (codes "USERNAME"))) in
      set_all
        (basic_caps compatible window_states
          ++ (if clipboard then clipboard_caps else [])
          ++ (if compatible then legacy_caps else [])
          ++ ((codes "uuid", Value.text (machine_uuid h log))
              ∷ (codes "session-id", Value.text (random_hex h (codes "session-id") log 16))
              ∷ [])
          ++ host_caps h.hostname
          ++ user_caps name)
        no_entries

-- What stands before the first `:`.
unfoldable pub cut : Bytes → Bytes
cut [] = []
cut (c ∷ cs) = if c == 58 then [] else c ∷ cut cs

module _ (h : Host) where
  unfoldable pub hmac_hex : Bytes → Bytes → Bytes
  hmac_hex key message = hex_encode (h.hmac_sha256 key message)

  unfoldable pub reply_with : Option Bytes → Bytes → Bytes → Result SessionError (Bytes × Bytes)
  reply_with none server_salt password = err random_failed
  reply_with (some client_salt) server_salt password =
      ok (hmac_hex password (hmac_hex client_salt server_salt), client_salt)

  unfoldable pub reply_to :
      Packet → List Action → Bytes → Bytes → Result SessionError (Bytes × Bytes)
  reply_to packet log password server_salt =
      let digest = cut (str packet (pos 3)) in
      let salt_digest = if leb 5 (length packet) then str packet (pos 4) else codes "xor" in
      if not (bytes_eq digest digest_name) || not (bytes_eq salt_digest digest_name)
      then err (other_digests digest salt_digest)
      else reply_with (h.random (codes "client-salt") log challenge_salt_len) server_salt password

  -- The response and the client's salt.
  unfoldable pub challenge_reply :
      Packet → List Action → Bytes → Result SessionError (Bytes × Bytes)
  challenge_reply packet log password = elim (bytes packet (pos 1)) [
    | none ↦ err no_server_salt
    | some [] ↦ err no_server_salt
    | some (c ∷ salt) ↦ reply_to packet log password (c ∷ salt)
  ]
