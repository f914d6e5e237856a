-- ===== src/Command/Dialog.antt =====
-- cmd/go-xpra/connect_dialog.go: the text fields of the connection form, and the target that it names.
pub mod Laws
pub mod Accepted
use go_xpra.Prelude.{
  ℕ, ◌+◌, ◌-◌, Bool, true, false, not, ◌&&◌, ◌||◌, List, [], ◌∷◌, ◌++◌, Option, none, some, ◌==◌,
  if◌then◌else◌, length, take, drop,
}
use go_xpra.Prelude.Bytes.{Bytes, codes}
use go_xpra.Prelude.Result.{Result, ok, err, ◌>>=◌}
use go_xpra.Prelude.Text.{trim_space}
use go_xpra.Rencode.Decimal.{append_nat}
use go_xpra.Command.Shell.{one_of}
use go_xpra.Command.Target.{Transport, Target}
use go_xpra.Command.Ssh.{has_prefix, is_empty}
use go_xpra.Command.Url.{
  Url, PathError, validate_socket_path, is_ssh, is_web_socket, parse_port, has_control, remote_path,
}

-- The runes of a field, and how many of them stand before the cursor.
pub record TextInput : Type 0 where
  pub text : List ℕ
  pub cursor : ℕ

unfoldable pub set_text : List ℕ → TextInput
set_text runes = record { text = runes; cursor = length runes }

unfoldable pub insert_text : List ℕ → TextInput → TextInput
insert_text [] i = i
insert_text (r ∷ runes) i = record {
  text = take i.cursor i.text ++ ((r ∷ runes) ++ drop i.cursor i.text);
  cursor = i.cursor + length (r ∷ runes);
}

unfoldable pub backspace : TextInput → TextInput
backspace i =
    if i.cursor == 0
    then i
    else record { text = take (i.cursor - 1) i.text ++ drop i.cursor i.text; cursor = i.cursor - 1 }

unfoldable pub delete_rune : TextInput → TextInput
delete_rune i =
    if i.cursor == length i.text
    then i
    else record { text = take i.cursor i.text ++ drop (i.cursor + 1) i.text; cursor = i.cursor }

-- The selected protocol, and the fields as UTF-8.
pub record Form : Type 0 where
  pub protocol : Transport
  pub username : Bytes
  pub password : Bytes
  pub host : Bytes
  pub port : Bytes
  pub display : Bytes
  pub path : Bytes

pub data FormError : Type 0 where
  bad_path : PathError → FormError
  host_missing port_outside host_dashed display_segment endpoint : FormError

unfoldable pub last_is : ℕ → Bytes → Bool
last_is c [] = false
last_is c (b ∷ []) = b == c
last_is c (b ∷ d ∷ bs) = last_is c (d ∷ bs)

unfoldable pub all_but_last : Bytes → Bytes
all_but_last [] = []
all_but_last (b ∷ []) = []
all_but_last (b ∷ d ∷ bs) = b ∷ all_but_last (d ∷ bs)

-- The trimmed suffix goes only if it is still there behind the trimmed prefix.
unfoldable pub without_brackets : Bytes → Bytes
unfolding last_is all_but_last
without_brackets [] = []
without_brackets (b ∷ bs) =
    if b == b'[' && last_is b']' (b ∷ bs)
    then (if last_is b']' bs then all_but_last bs else bs)
    else b ∷ bs

unfoldable pub form_port : Bytes → Result FormError Bytes
unfolding trim_space parse_port append_nat
form_port port = elim (parse_port (trim_space port)) [
  | none ↦ err FormError.port_outside
  | some number ↦ ok (append_nat [] number)
]

unfoldable pub form_display : Transport → Bytes → Result FormError Bytes
unfolding trim_space one_of has_control
form_display transport text =
    if is_ssh transport
    then (if one_of b'/' (trim_space text) || has_control (trim_space text)
        then err FormError.display_segment
        else ok (trim_space text))
    else ok []

unfoldable pub endpoint_text : Bytes → Bytes
unfolding is_empty has_prefix
endpoint_text text =
    if is_empty text
    then codes "/"
    else if not (has_prefix text (codes "/"))
    then b'/' ∷ text
    else text

-- The path, its raw form and the query, of a WebSocket only.
unfoldable pub form_endpoint :
    (Bytes → Option Url) → Transport → Bytes → Result FormError (Bytes × Bytes × Bytes)
unfolding endpoint_text trim_space is_empty remote_path
form_endpoint parse transport text =
    if is_web_socket transport
    then elim (parse (endpoint_text (trim_space text))) [
      | none ↦ err FormError.endpoint
      | some u ↦
          if not (is_empty u.host) || not (is_empty u.opaque) || not (is_empty u.fragment)
          then err FormError.endpoint
          else ok (remote_path u.path, u.raw_path, u.raw_query)
    ]
    else ok ([], [], [])

unfoldable pub form_socket : Form → Result FormError Target
unfolding trim_space validate_socket_path
form_socket f = elim (validate_socket_path (trim_space f.host)) [
  | some failure ↦ err (FormError.bad_path failure)
  | none ↦ ok (record {
    transport = Transport.socket;
    address = trim_space f.host;
    server_name = [];
    port = [];
    display = [];
    path = [];
    raw_path = [];
    raw_query = [];
    username = f.username;
    password = f.password;
  })
]

module _ (parse : Bytes → Option Url) (join_host_port : Bytes → Bytes → Bytes) where
  unfoldable pub form_remote : Transport → Form → Result FormError Target
  unfolding trim_space is_empty without_brackets has_prefix form_port form_display form_endpoint
  form_remote transport f =
      let host = without_brackets (trim_space f.host) in
      if is_empty (trim_space f.host)
      then err FormError.host_missing
      else form_port f.port >>= (λ port.
        if is_ssh transport && has_prefix host (codes "-")
        then err FormError.host_dashed
        else form_display transport f.display >>= (λ display.
          form_endpoint parse transport f.path >>= (λ endpoint. ok (record {
            transport = transport;
            address = join_host_port host port;
            server_name = host;
            port = port;
            display = display;
            path = endpoint.0;
            raw_path = endpoint.1;
            raw_query = endpoint.2;
            username = f.username;
            password = f.password;
          }))))

  unfoldable pub form_target : Form → Result FormError Target
  unfolding form_socket form_remote
  form_target f = elim f.protocol [
    | Transport.socket ↦ form_socket f
    | Transport.tcp ↦ form_remote Transport.tcp f
    | Transport.ssl ↦ form_remote Transport.ssl f
    | Transport.ssh ↦ form_remote Transport.ssh f
    | Transport.ws ↦ form_remote Transport.ws f
    | Transport.wss ↦ form_remote Transport.wss f
  ]
