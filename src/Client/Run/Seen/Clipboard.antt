-- ===== src/Client/Run/Seen/Clipboard.antt =====
-- client/clipboard.go: the clipboard's handlers, and whether the server has challenged the client.
use go_xpra.Prelude.{
  ◌≡◌, refl, ◌||◌, not, List, [], ◌∷◌, Option, none, some, arith, Bool-cases, inl, inr,
}
use go_xpra.Prelude.Int.{pos}
use go_xpra.Prelude.Bytes.{Bytes}
use go_xpra.Rencode.Value.{Entries}
use go_xpra.Protocol.Packet.{Packet, at, dict}
use go_xpra.Client.State.{Platform, Session}
use go_xpra.Client.Clipboard.{
  with_clip, send_clipboard_token, offer_clipboard, enable_clipboard, with_clipboard_caps,
  configure_clipboard, handle_clipboard_change, request_target, request_remote_clipboard,
  begin_remote_clipboard, apply_remote_clipboard, apply_or_request,
}
use go_xpra.Client.Clipboard.Text.{value_strings}
use go_xpra.Client.Clipboard.Remote.{
  not_for_us, token_claims, token_text, declined, handle_clipboard_token, with_data_options,
  handle_clipboard_data, forget_request, apply_text, answered, handle_clipboard_contents,
  handle_clipboard_contents_none, handle_clipboard_request, set_ready,
  handle_clipboard_enable_selections, handle_clipboard_status,
}

send_clipboard_token-seen :
    (p : Platform) (s : Session) → (send_clipboard_token p s).challenge_seen ≡ s.challenge_seen
unfolding send_clipboard_token
send_clipboard_token-seen p s = ground arith

offer_clipboard-seen :
    (p : Platform) (s : Session) → (offer_clipboard p s).challenge_seen ≡ s.challenge_seen
unfolding offer_clipboard send_clipboard_token
offer_clipboard-seen p s = ground arith

pub configure_clipboard-seen :
    (p : Platform) (caps : Option Entries) (s : Session)
    → (configure_clipboard p caps s).challenge_seen ≡ s.challenge_seen
unfolding configure_clipboard with_clipboard_caps enable_clipboard offer_clipboard
    send_clipboard_token with_clip
configure_clipboard-seen p none s = refl
configure_clipboard-seen p (some caps) s = ground arith

pub handle_clipboard_change-seen :
    (p : Platform) (text : Bytes) (s : Session)
    → (handle_clipboard_change p text s).challenge_seen ≡ s.challenge_seen
unfolding handle_clipboard_change send_clipboard_token with_clip
handle_clipboard_change-seen p text s = ground arith

request_target-seen :
    (target : Bytes) (s : Session) → (request_target target s).challenge_seen ≡ s.challenge_seen
unfolding request_target with_clip
request_target-seen [] s = refl
request_target-seen (c ∷ target) s = refl

apply_remote_clipboard-seen :
    (p : Platform) (text : Bytes) (s : Session)
    → (apply_remote_clipboard p text s).challenge_seen ≡ s.challenge_seen
unfolding apply_remote_clipboard with_clip
apply_remote_clipboard-seen p text s = ground arith

apply_or_request-seen :
    (p : Platform) (found : Option Bytes) (targets : List Bytes) (s : Session)
    → (apply_or_request p found targets (begin_remote_clipboard s)).challenge_seen
      ≡ s.challenge_seen
unfolding apply_or_request request_remote_clipboard begin_remote_clipboard with_clip
apply_or_request-seen p none targets s = request_target-seen _ (begin_remote_clipboard s)
apply_or_request-seen p (some text) targets s =
    apply_remote_clipboard-seen p text (begin_remote_clipboard s)

pub handle_clipboard_token-seen :
    (p : Platform) (packet : Packet) (s : Session)
    → (handle_clipboard_token p packet s).challenge_seen ≡ s.challenge_seen
unfolding handle_clipboard_token
handle_clipboard_token-seen p packet s =
    elim (Bool-cases (not_for_us 2 packet s || not (token_claims packet))) [
      | inl e ↦ rw (e, handle_clipboard_token) refl
      | inr e ↦
          rw (e, handle_clipboard_token)
            (apply_or_request-seen p (token_text packet) (value_strings (at packet (pos 2))) s)
    ]

with_data_options-seen :
    (p : Platform) (options : Option Entries) (s : Session)
    → (with_data_options p options s).challenge_seen ≡ s.challenge_seen
unfolding with_data_options
with_data_options-seen p none s = refl
with_data_options-seen p (some options) s = elim (Bool-cases (declined options)) [
  | inl e ↦ rw (e, with_data_options) refl
  | inr e ↦ rw (e, with_data_options) (apply_or_request-seen p _ _ s)
]

pub handle_clipboard_data-seen :
    (p : Platform) (packet : Packet) (s : Session)
    → (handle_clipboard_data p packet s).challenge_seen ≡ s.challenge_seen
unfolding handle_clipboard_data
handle_clipboard_data-seen p packet s = elim (Bool-cases (not_for_us 3 packet s)) [
  | inl e ↦ rw (e, handle_clipboard_data) refl
  | inr e ↦ rw (e, handle_clipboard_data) (with_data_options-seen p (dict packet (pos 2)) s)
]

pub handle_clipboard_contents-seen :
    (p : Platform) (packet : Packet) (s : Session)
    → (handle_clipboard_contents p packet s).challenge_seen ≡ s.challenge_seen
unfolding handle_clipboard_contents answered apply_text apply_remote_clipboard forget_request
    with_clip
handle_clipboard_contents-seen p packet s = ground arith

pub handle_clipboard_contents_none-seen :
    (packet : Packet) (s : Session)
    → (handle_clipboard_contents_none packet s).challenge_seen ≡ s.challenge_seen
unfolding handle_clipboard_contents_none forget_request with_clip
handle_clipboard_contents_none-seen packet s = ground arith

pub handle_clipboard_request-seen :
    (packet : Packet) (s : Session)
    → (handle_clipboard_request packet s).challenge_seen ≡ s.challenge_seen
unfolding handle_clipboard_request
handle_clipboard_request-seen packet s = ground arith

pub handle_clipboard_enable_selections-seen :
    (p : Platform) (packet : Packet) (s : Session)
    → (handle_clipboard_enable_selections p packet s).challenge_seen ≡ s.challenge_seen
unfolding handle_clipboard_enable_selections set_ready offer_clipboard send_clipboard_token
    with_clip
handle_clipboard_enable_selections-seen p packet s = ground arith

pub handle_clipboard_status-seen :
    (p : Platform) (packet : Packet) (s : Session)
    → (handle_clipboard_status p packet s).challenge_seen ≡ s.challenge_seen
unfolding handle_clipboard_status set_ready offer_clipboard send_clipboard_token with_clip
handle_clipboard_status-seen p packet s = ground arith
