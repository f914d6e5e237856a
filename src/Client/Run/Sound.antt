-- ===== src/Client/Run/Sound.antt =====
-- client/client.go: a sound session, and steps that leave the tables or the clipboard alone.
use go_xpra.Prelude.{◌≡◌, refl, sym, subst, Bool, List, [], ◌∷◌, arith, inl}
use go_xpra.Prelude.Bytes.{Bytes}
use go_xpra.Prelude.Table.{lookup, int_key, nat_key}
use go_xpra.Rencode.Value.{Value}
use go_xpra.Protocol.Packet.{Packet}
use go_xpra.Client.State.{Action, Session, no_windows, send}
use go_xpra.Client.Windows.Linked.{live, IsLinked}
use go_xpra.Client.Windows.Keeps.{Linked}
use go_xpra.Client.Clipboard.Kept.{IsKept, Kept}
use go_xpra.Client.Clipboard.Remote.{handle_clipboard_request}
use go_xpra.Client.Control.{disconnect, handle_cursor_default}
use go_xpra.Client.Run.{new_clip}
use go_xpra.Client.Run.Quiet.{Quiet, Quiet-Linked}

-- The window tables are linked to each other and to the windows that exist, and the clipboard fields
-- are kept.
abbrev pub IsSound : Session → Type 0
IsSound s = Linked s × Kept s

pub unclipped : (s t : Session) → t.clip ≡ s.clip → Kept s → Kept t
unfolding Kept
unclipped s t e k = subst IsKept (sym e) k

pub Quiet-IsSound : (s t : Session) → Quiet s t → Kept t → IsSound s → IsSound t
Quiet-IsSound s t q kept k = (Quiet-Linked s t q k.0, kept)

pub framed-IsSound : (s t : Session) → Linked t → t.clip ≡ s.clip → IsSound s → IsSound t
framed-IsSound s t linked e k = (linked, unclipped s t e k.1)

pub still-IsSound : (s t : Session) → Quiet s t → t.clip ≡ s.clip → IsSound s → IsSound t
still-IsSound s t q e k = Quiet-IsSound s t q (unclipped s t e k.1) k

pub default-Quiet : (s : Session) → Quiet s (handle_cursor_default s)
unfolding handle_cursor_default live
default-Quiet s = (refl, λ u. refl)

pub disconnect-Quiet :
    (reason : Bytes) (s : Session)
    → Quiet s (disconnect reason s) × ((disconnect reason s).clip ≡ s.clip)
unfolding disconnect
disconnect-Quiet reason s = ((ground arith, λ u. ground arith), ground arith)

-- A session without windows and without clipboard contents.
pub empty-IsLinked : (q : List Value) → IsLinked no_windows (Action.sent q ∷ [])
unfolding lookup live
empty-IsLinked q = record {
  to_local = λ wid w e. absurd cc;
  to_wid = λ w wid e. absurd cc;
  iconified_known = λ wid b e. absurd cc;
  server_iconic_known = λ wid b e. absurd cc;
  focused_known = inl refl;
  alive = λ wid w e. absurd cc;
  no_leak = λ w e. absurd cc;
}

pub empty-IsKept : (clipboard : Bool) → IsKept (new_clip clipboard)
unfolding lookup
empty-IsKept clipboard = record {
  current = λ id r e. absurd cc;
  numbered = λ id r e. absurd cc;
  valid = λ e. absurd cc;
  negotiated = λ e. absurd cc;
}

pub request-clip : (q : Packet) (s : Session) → (handle_clipboard_request q s).clip ≡ s.clip
unfolding handle_clipboard_request
request-clip q s = ground arith

pub said_goodbye : (s : Session) (q : List Value) → Quiet s (send q s)
unfolding live
said_goodbye s q = (refl, λ u. refl)
