-- ===== src/Client/Clipboard/Direction.antt =====
-- client/clipboard.go: local changes.
use go_xpra.Prelude.{
  ◌≡◌, inl, inr, refl, sym, subst, true, ◌||◌, ◌&&◌, not, length, ltb, ltb→le, Bool-cases,
}
use go_xpra.Prelude.Bytes.{Bytes, bytes_eq}
use go_xpra.Prelude.Table.{int_key}
use go_xpra.Client.State.{Platform, Session}
use go_xpra.Client.Clipboard.Text.{max_clipboard_bytes, utf8_valid}
use go_xpra.Client.Clipboard.{with_clip, send_clipboard_token, handle_clipboard_change}
use go_xpra.Client.Clipboard.Kept.{IsKept, Kept, with_text-IsKept}
use go_xpra.Client.Clipboard.Switches.{neither, not-false}

send_clipboard_token-clip : (p : Platform) (s : Session) → (send_clipboard_token p s).clip ≡ s.clip
unfolding send_clipboard_token
send_clipboard_token-clip p s = elim (Bool-cases s.clip.known) [
  | inl e ↦ rw (e, send_clipboard_token) refl
  | inr e ↦ rw (e, send_clipboard_token) refl
]

pub handle_clipboard_change-Kept :
    (p : Platform) (text : Bytes) (s : Session) → Kept s → Kept (handle_clipboard_change p text s)
unfolding handle_clipboard_change Kept with_clip
handle_clipboard_change-Kept p text s k =
    let t : Session = with_clip (record s.clip { text = text; known = true }) s in
    elim (Bool-cases (
      ltb max_clipboard_bytes (length text)
      || not (utf8_valid text)
      || (s.clip.known && bytes_eq s.clip.text text))) [
        | inl e ↦ rw (e, handle_clipboard_change) k
        | inr e ↦
            let (g, _) =
              neither (ltb max_clipboard_bytes (length text) || not (utf8_valid text))
                (s.clip.known && bytes_eq s.clip.text text) e in
            let (small, v) =
              neither (ltb max_clipboard_bytes (length text)) (not (utf8_valid text)) g in
            let kept =
              with_text-IsKept s.clip text k (not-false (utf8_valid text) v)
                (ltb→le max_clipboard_bytes (length text) small) in
            elim (Bool-cases (s.clip.ready && s.clip.can_send)) [
              | inl f ↦
                  rw (e, f, handle_clipboard_change)
                    (subst IsKept (sym (send_clipboard_token-clip p t)) kept)
              | inr f ↦ rw (e, f, handle_clipboard_change) kept
            ]
      ]
