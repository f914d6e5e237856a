-- ===== src/Client/Run.antt =====
-- client/client.go: `New`, and the run loop as a relation on sessions: which case is taken is open.
pub mod Quiet
pub mod Frame
pub mod Control
pub mod Sound
pub mod Invariant
pub mod Seen
pub mod Challenge
pub mod Reports
use go_xpra.Prelude.{
  ℕ, suc, List, [], ◌∷◌, ◌++◌, ◌≡◌, Bool, true, false, Option, none, some, length,
}
use go_xpra.Prelude.Int.{ℤ, pos}
use go_xpra.Prelude.Bytes.{Bytes, codes}
use go_xpra.Rencode.Value.{Value}
use go_xpra.Protocol.Packet.{Packet}
use go_xpra.Ui.Event.{Event}
use go_xpra.Client.Mmap.Area.{MmapArea}
use go_xpra.Client.State.{Platform, Clip, Session, no_windows, send, stop}
use go_xpra.Client.Local.{send_iconified}
use go_xpra.Client.Focus.{send_focus_lost}
use go_xpra.Client.Hello.{Host}
use go_xpra.Client.Hello.Display.{send_hello}
use go_xpra.Client.Control.{disconnect, disconnect_packet}
use go_xpra.Client.Dispatch.{handle_packet, handle_ui_event}

abbrev pub new_clip : Bool → Clip
new_clip present = record {
  present = present;
  ready = false;
  can_send = false;
  can_receive = false;
  known = false;
  text = [];
  generation = 0;
  next_request = 0;
  requests = [];
}

-- `New`, with the shared area of EnableMmap, if there is one.
abbrev pub new_session : Bool → Bytes → Bytes → Option MmapArea → Session
new_session clipboard username password area = record {
  table = no_windows;
  clip = new_clip clipboard;
  monitors = [];
  states = [];
  focus_losing = false;
  focus_timers = 0;
  iconify_timers = [];
  pinging = false;
  server_version = [];
  challenge_seen = false;
  username = username;
  password = password;
  mmap = area;
  exit_err = none;
  quit = false;
  disconnect = none;
  log = [];
}

unfoldable pub ping_packet : ℤ → List Value
ping_packet now = Value.text (codes "ping") ∷ Value.int now ∷ []

-- One case of the select, a call of `Disconnect` from elsewhere, or a write of the server to the
-- shared area.
pub data Step (p : Platform) (h : Host) (s : Session) : Session → Type 0 where
  packet : (q : Packet) → Step p h s (handle_packet p h q s)
  event : (e : Event) → Step p h s (handle_ui_event p e s)
  focus_lost_due : (n : ℕ) → s.focus_timers ≡ suc n → Step p h s (send_focus_lost s)
  iconify_due :
      (front back : List ℤ) (wid : ℤ)
      → s.iconify_timers ≡ front ++ (wid ∷ back)
      → Step p h s (send_iconified wid (record s { iconify_timers = front ++ back }))
  ping_tick : (now : ℤ) → s.pinging ≡ true → Step p h s (send (ping_packet now) s)
  asked : (reason : Bytes) → Step p h s (disconnect reason s)
  disconnecting :
      (reason : Bytes)
      → s.disconnect ≡ some reason
      → Step p h s (
          stop none (send (disconnect_packet p.compatible reason) (record s { disconnect = none })))
  area_written :
      (a : MmapArea) (contents : Bytes)
      → s.mmap ≡ some a
      → length contents ≡ length a.contents
      → Step p h s (record s { mmap = some (record a { contents = contents }) })

-- The states of a session that begins with the first hello.
pub data Reach (p : Platform) (h : Host) : Session → Type 0 where
  begun :
      (clipboard : Bool) (username password : Bytes) (area : Option MmapArea)
      → Reach p h (send_hello p h [] [] (new_session clipboard username password area))
  next : (s t : Session) → Reach p h s → Step p h s t → Reach p h t

-- What a session can become, in any number of steps.
pub data Steps (p : Platform) (h : Host) (s : Session) : Session → Type 0 where
  no_steps : Steps p h s s
  one_more : (t u : Session) → Steps p h s t → Step p h t u → Steps p h s u
