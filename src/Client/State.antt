-- ===== src/Client/State.antt =====
-- client/client.go: the state of the session, what it does to the world around it, and what that
-- world answers. A window of the backend is its identifier.
use go_xpra.Prelude.{ℕ, Bool, true, List, [], ◌∷◌, Option, none, some}
use go_xpra.Prelude.Int.{ℤ, pos}
use go_xpra.Prelude.Bytes.{Bytes}
use go_xpra.Prelude.Table.{Table}
use go_xpra.Rencode.Value.{Value}
use go_xpra.Ui.Monitor.{Rectangle, Monitor}
use go_xpra.Ui.Image.{Cursor, Icon}
use go_xpra.Client.Mmap.Area.{MmapArea, AreaError}
use go_xpra.Client.Mmap.Chunks.{ChunksError}
use go_xpra.Client.Image.{Format, Picture, DecodeError}

-- One call out of the client. A fallible one stands in the log before its error is known.
pub data Action : Type 0 where
  sent : List Value → Action
  refused : (area : Rectangle) (override_redirect : Bool) → Action
  created : (window : ℕ) (area : Rectangle) (override_redirect : Bool) → Action
  destroyed mapped raised : (window : ℕ) → Action
  titled : (window : ℕ) (title : Bytes) → Action
  icon_set : (window : ℕ) (icon : Icon) → Action
  minimized : (window : ℕ) (minimized : Bool) → Action
  moved resized : (window : ℕ) (area : Rectangle) → Action
  painted :
      (window : ℕ) (x y width height : ℤ) (pixels : Bytes) (rowstride : ℤ) (format : Bytes) → Action
  state_set : (window : ℕ) (state : Bytes) (enabled : Bool) → Action
  bell : (percent pitch duration : ℤ) (name : Bytes) → Action
  cursor_set : Option Cursor → Action
  clipboard_set : (text : Bytes) → Action
  -- the read cursor of the shared area is published
  released : (end : ℕ) → Action

-- Why the session ends.
pub data SessionError : Type 0 where
  mmap_negotiation : AreaError → SessionError
  password_rejected no_password no_prompt_password prompt_failed : SessionError
  no_server_salt random_failed hello_failed : SessionError
  other_digests : (digest salt_digest : Bytes) → SessionError

-- What the client does not decide. Answers depend on all that was done before, newest first, the
-- call itself included.
pub record Platform : Type 0 where
  -- `protocol.BackwardsCompatible`, and the byte order of the machine
  pub compatible : Bool
  pub put : ℕ → Bytes
  -- the display and its windows
  pub new_window : List Action → Rectangle → Bool → Option ℕ
  pub geometry : List Action → ℕ → Rectangle
  pub stateful : ℕ → Bool
  pub fails : List Action → Bool
  pub error_text : List Action → Bytes
  pub window_states : List Bytes
  pub desktop_size : List Action → Option (ℤ × ℤ)
  pub monitors : List Action → Option (List Monitor)
  -- the image decoders: the size in the header, the picture, and the texts of the errors
  pub decode_config : Format → Bytes → Option (ℤ × ℤ)
  pub decode : Format → Bytes → Option Picture
  pub describe_image : DecodeError → Bytes
  pub describe_chunks : ChunksError → Bytes
  -- microseconds that the paint took
  pub elapsed : List Action → ℤ

-- The window tables of `Client`.
pub record Windows : Type 0 where
  pub windows : Table ℤ ℕ
  pub by_local : Table ℕ ℤ
  pub iconified : Table ℤ Bool
  pub server_iconic : Table ℤ Bool
  pub focused : ℤ

abbrev pub no_windows : Windows
no_windows = record {
  windows = [];
  by_local = [];
  iconified = [];
  server_iconic = [];
  focused = pos 0;
}

pub record Request : Type 0 where
  pub generation : ℕ
  pub target : Bytes

-- The clipboard fields of `Client`; `present` tells that the display has a clipboard.
pub record Clip : Type 0 where
  pub present : Bool
  pub ready : Bool
  pub can_send : Bool
  pub can_receive : Bool
  pub known : Bool
  pub text : Bytes
  pub generation : ℕ
  pub next_request : ℕ
  pub requests : Table ℤ Request

pub record Session : Type 0 where
  pub table : Windows
  pub clip : Clip
  pub monitors : List Monitor
  pub states : List Bytes
  pub focus_losing : Bool
  -- the reports of `focusLostDue` and `iconifyDue` that are on their way, timers that run included
  pub focus_timers : ℕ
  pub iconify_timers : List ℤ
  pub pinging : Bool
  pub server_version : Bytes
  pub challenge_seen : Bool
  pub username : Bytes
  pub password : Bytes
  pub mmap : Option MmapArea
  pub exit_err : Option SessionError
  -- `quit` is closed, and a reason waits in `disconnect`
  pub quit : Bool
  pub disconnect : Option Bytes
  pub log : List Action

-- Calls, and packets that are queued: a queue that refuses one is only reported.
abbrev pub act : Action → Session → Session
act a s = record s { log = a ∷ s.log }

abbrev pub send : List Value → Session → Session
send packet s = act (sent packet) s

abbrev pub with_table : Windows → Session → Session
with_table t s = record s { table = t }

abbrev pub or_default {ℓ} : {A : Type ℓ} → A → Option A → A
or_default d none = d
or_default d (some a) = a

-- `stop` keeps the first error, and closes `quit` once.
abbrev pub stop : Option SessionError → Session → Session
stop e s = record s {
  exit_err = elim s.exit_err [ some first ↦ some first | none ↦ e ];
  quit = true;
}
