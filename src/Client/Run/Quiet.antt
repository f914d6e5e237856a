-- ===== src/Client/Run/Quiet.antt =====
-- client/clipboard.go, client/client.go: the handlers that leave the window tables alone.
use go_xpra.Prelude.{
  ℕ, ◌≡◌, refl, sym, subst, ◌||◌, not, List, [], ◌∷◌, Option, none, some, arith, Bool-cases, inl,
  inr,
}
use go_xpra.Prelude.Int.{pos}
use go_xpra.Prelude.Bytes.{Bytes}
use go_xpra.Rencode.Value.{Entries}
use go_xpra.Protocol.Packet.{Packet, at, dict}
use go_xpra.Client.State.{Platform, Session}
use go_xpra.Client.Windows.Linked.{live, IsLinked, same_windows}
use go_xpra.Client.Windows.Keeps.{Linked}
use go_xpra.Client.Clipboard.{
  with_clip, send_clipboard_token, offer_clipboard, enable_clipboard, with_clipboard_caps,
  configure_clipboard, handle_clipboard_change, request_target, request_remote_clipboard,
  begin_remote_clipboard, apply_remote_clipboard, apply_or_request,
}
use go_xpra.Client.Clipboard.Text.{value_strings}
use go_xpra.Client.Clipboard.Remote.{
  not_for_us, token_claims, token_text, declined, handle_clipboard_token, with_data_options,
  handle_clipboard_data, forget_request, apply_text, answered, handle_clipboard_contents,
  handle_clipboard_contents_none, handle_clipboard_request, set_ready,
  handle_clipboard_enable_selections, handle_clipboard_status,
}

-- The tables and the windows that exist are the same.
abbrev pub Quiet : Session → Session → Type 0
Quiet s t = (t.table ≡ s.table) × ((u : ℕ) → live t.log u ≡ live s.log u)

pub Quiet-Linked : (s t : Session) → Quiet s t → Linked s → Linked t
unfolding Linked
Quiet-Linked s t (same, lives) k =
    subst (λ table. IsLinked table t.log) (sym same) (same_windows s.table s.log t.log lives k)

send_clipboard_token-Quiet : (p : Platform) (s : Session) → Quiet s (send_clipboard_token p s)
unfolding send_clipboard_token live
send_clipboard_token-Quiet p s = (ground arith, λ u. ground arith)

offer_clipboard-Quiet : (p : Platform) (s : Session) → Quiet s (offer_clipboard p s)
unfolding offer_clipboard send_clipboard_token live
offer_clipboard-Quiet p s = (ground arith, λ u. ground arith)

pub configure_clipboard-Quiet :
    (p : Platform) (caps : Option Entries) (s : Session) → Quiet s (configure_clipboard p caps s)
unfolding configure_clipboard with_clipboard_caps enable_clipboard offer_clipboard
    send_clipboard_token with_clip live
configure_clipboard-Quiet p none s = (refl, λ u. refl)
configure_clipboard-Quiet p (some caps) s = (ground arith, λ u. ground arith)

pub handle_clipboard_change-Quiet :
    (p : Platform) (text : Bytes) (s : Session) → Quiet s (handle_clipboard_change p text s)
unfolding handle_clipboard_change send_clipboard_token with_clip live
handle_clipboard_change-Quiet p text s = (ground arith, λ u. ground arith)

request_target-Quiet : (target : Bytes) (s : Session) → Quiet s (request_target target s)
unfolding request_target with_clip live
request_target-Quiet [] s = (refl, λ u. refl)
request_target-Quiet (c ∷ target) s = (refl, λ u. refl)

apply_remote_clipboard-Quiet :
    (p : Platform) (text : Bytes) (s : Session) → Quiet s (apply_remote_clipboard p text s)
unfolding apply_remote_clipboard with_clip live
apply_remote_clipboard-Quiet p text s = (ground arith, λ u. ground arith)

apply_or_request-Quiet :
    (p : Platform) (found : Option Bytes) (targets : List Bytes) (s : Session)
    → Quiet s (apply_or_request p found targets (begin_remote_clipboard s))
unfolding apply_or_request request_remote_clipboard begin_remote_clipboard with_clip
apply_or_request-Quiet p none targets s = request_target-Quiet _ (begin_remote_clipboard s)
apply_or_request-Quiet p (some text) targets s =
    apply_remote_clipboard-Quiet p text (begin_remote_clipboard s)

pub handle_clipboard_token-Quiet :
    (p : Platform) (packet : Packet) (s : Session) → Quiet s (handle_clipboard_token p packet s)
unfolding handle_clipboard_token
handle_clipboard_token-Quiet p packet s =
    elim (Bool-cases (not_for_us 2 packet s || not (token_claims packet))) [
      | inl e ↦ rw (e, handle_clipboard_token) (refl, λ u. refl)
      | inr e ↦
          rw (e, handle_clipboard_token)
            (apply_or_request-Quiet p (token_text packet) (value_strings (at packet (pos 2))) s)
    ]

with_data_options-Quiet :
    (p : Platform) (options : Option Entries) (s : Session)
    → Quiet s (with_data_options p options s)
unfolding with_data_options
with_data_options-Quiet p none s = (refl, λ u. refl)
with_data_options-Quiet p (some options) s = elim (Bool-cases (declined options)) [
  | inl e ↦ rw (e, with_data_options) (refl, λ u. refl)
  | inr e ↦ rw (e, with_data_options) (apply_or_request-Quiet p _ _ s)
]

pub handle_clipboard_data-Quiet :
    (p : Platform) (packet : Packet) (s : Session) → Quiet s (handle_clipboard_data p packet s)
unfolding handle_clipboard_data
handle_clipboard_data-Quiet p packet s = elim (Bool-cases (not_for_us 3 packet s)) [
  | inl e ↦ rw (e, handle_clipboard_data) (refl, λ u. refl)
  | inr e ↦ rw (e, handle_clipboard_data) (with_data_options-Quiet p (dict packet (pos 2)) s)
]

pub handle_clipboard_contents-Quiet :
    (p : Platform) (packet : Packet) (s : Session) → Quiet s (handle_clipboard_contents p packet s)
unfolding handle_clipboard_contents answered apply_text apply_remote_clipboard forget_request
    with_clip live
handle_clipboard_contents-Quiet p packet s = (ground arith, λ u. ground arith)

pub handle_clipboard_contents_none-Quiet :
    (packet : Packet) (s : Session) → Quiet s (handle_clipboard_contents_none packet s)
unfolding handle_clipboard_contents_none forget_request with_clip live
handle_clipboard_contents_none-Quiet packet s = (ground arith, λ u. ground arith)

pub handle_clipboard_request-Quiet :
    (packet : Packet) (s : Session) → Quiet s (handle_clipboard_request packet s)
unfolding handle_clipboard_request live
handle_clipboard_request-Quiet packet s = (ground arith, λ u. ground arith)

pub handle_clipboard_enable_selections-Quiet :
    (p : Platform) (packet : Packet) (s : Session)
    → Quiet s (handle_clipboard_enable_selections p packet s)
unfolding handle_clipboard_enable_selections set_ready offer_clipboard send_clipboard_token
    with_clip live
handle_clipboard_enable_selections-Quiet p packet s = (ground arith, λ u. ground arith)

pub handle_clipboard_status-Quiet :
    (p : Platform) (packet : Packet) (s : Session) → Quiet s (handle_clipboard_status p packet s)
unfolding handle_clipboard_status set_ready offer_clipboard send_clipboard_token with_clip live
handle_clipboard_status-Quiet p packet s = (ground arith, λ u. ground arith)
