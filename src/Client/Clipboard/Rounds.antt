-- ===== src/Client/Clipboard/Rounds.antt =====
-- client/clipboard.go: the clipboard's packets, and what holds of its fields.
use go_xpra.Prelude.{
  ◌≡◌, inl, inr, refl, ◌∙◌, true, ◌||◌, not, List, [], ◌∷◌, Option, none, some, length, ltb, ◌==◌,
  Bool-cases, Option-cases, if-some,
}
use go_xpra.Prelude.Int.{ℤ, pos}
use go_xpra.Prelude.Bytes.{Bytes, codes, bytes_eq}
use go_xpra.Prelude.Table.{lookup, lookup-delete_inv, int_key}
use go_xpra.Rencode.Value.{Value, Entries}
use go_xpra.Protocol.Packet.{Packet, at, int, str, dict, as_int, find, or_nil}
use go_xpra.Client.State.{Platform, Request, Session, or_default}
use go_xpra.Client.Clipboard.Text.{
  clipboard_selection, clipboard_targets, utf8_valid, clipboard_wire_text, string_value,
  value_strings,
}
use go_xpra.Client.Clipboard.Text.Valid.{clipboard_wire_text-valid}
use go_xpra.Client.Clipboard.{with_clip, begin_remote_clipboard}
use go_xpra.Client.Clipboard.Kept.{
  Kept, begin_remote_clipboard-Kept, apply_remote_clipboard-Kept, apply_or_request-Kept,
}
use go_xpra.Client.Clipboard.Remote.{
  not_for_us, token_text, token_claims, parts_of, item_text, first_text, items_of, declined,
  handle_clipboard_token, with_data_options, handle_clipboard_data, forget_request, contents_text,
  apply_text, answered, handle_clipboard_contents,
}

token_text-valid :
    (packet : Packet) (text : Bytes) → token_text packet ≡ some text → utf8_valid text ≡ true
unfolding token_text
token_text-valid packet text e =
    clipboard_wire_text-valid (str packet (pos 3)) (int packet (pos 5)) (str packet (pos 6))
      (at packet (pos 7)) text
      (if-some (ltb (length packet) 8)
        (clipboard_wire_text (str packet (pos 3)) (int packet (pos 5)) (str packet (pos 6))
          (at packet (pos 7)))
        e).1

item_text-valid :
    (target : Bytes) (value : Value) (text : Bytes)
    → item_text target value ≡ some text
    → utf8_valid text ≡ true
unfolding item_text
item_text-valid target value text e = of_parts (parts_of value) e
  where
    of_parts :
        (parts : List Value)
        → (elim parts [
          | kind ∷ format ∷ encoding ∷ area ∷ rest ↦
              clipboard_wire_text target
                (as_int format)
                (or_default [] (string_value encoding))
                area
          | _ ↦ none
        ])
          ≡ some text
        → utf8_valid text ≡ true
    of_parts (kind ∷ format ∷ encoding ∷ area ∷ rest) e =
        clipboard_wire_text-valid target (as_int format) (or_default [] (string_value encoding))
          area text e
    of_parts _ e = cc

first_text-valid :
    (targets : List Bytes) (items : Entries) (text : Bytes)
    → first_text targets items ≡ some text
    → utf8_valid text ≡ true
unfolding first_text
first_text-valid [] items text e = cc
first_text-valid (target ∷ targets) items text e =
    elim (Option-cases (item_text target (or_nil (find items target)))) [
      | inl q ↦ first_text-valid targets items text (rw (q, first_text) at e)
      | inr (found, q) ↦
          item_text-valid target (or_nil (find items target)) text (q ∙ (rw (q, first_text) at e))
    ]

pub handle_clipboard_token-Kept :
    (p : Platform) (packet : Packet) (s : Session)
    → Kept s
    → Kept (handle_clipboard_token p packet s)
unfolding handle_clipboard_token
handle_clipboard_token-Kept p packet s k =
    elim (Bool-cases (not_for_us 2 packet s || not (token_claims packet))) [
      | inl e ↦ rw (e, handle_clipboard_token) k
      | inr e ↦
          rw (e, handle_clipboard_token)
            (apply_or_request-Kept p (token_text packet) (value_strings (at packet (pos 2)))
              (begin_remote_clipboard s) (token_text-valid packet)
              (begin_remote_clipboard-Kept s k))
    ]

with_data_options-Kept :
    (p : Platform) (options : Option Entries) (s : Session)
    → Kept s
    → Kept (with_data_options p options s)
unfolding with_data_options
with_data_options-Kept p none s k = k
with_data_options-Kept p (some options) s k = elim (Bool-cases (declined options)) [
  | inl e ↦ rw (e, with_data_options) k
  | inr e ↦
      let items = items_of (or_nil (find options (codes "data"))) in
      rw (e, with_data_options)
        (apply_or_request-Kept p (first_text clipboard_targets items)
          (value_strings (or_nil (find options (codes "targets")))) (begin_remote_clipboard s)
          (first_text-valid clipboard_targets items) (begin_remote_clipboard-Kept s k))
]

pub handle_clipboard_data-Kept :
    (p : Platform) (packet : Packet) (s : Session)
    → Kept s
    → Kept (handle_clipboard_data p packet s)
unfolding handle_clipboard_data
handle_clipboard_data-Kept p packet s k = elim (Bool-cases (not_for_us 3 packet s)) [
  | inl e ↦ rw (e, handle_clipboard_data) k
  | inr e ↦ rw (e, handle_clipboard_data) (with_data_options-Kept p (dict packet (pos 2)) s k)
]

pub forget_request-Kept : (id : ℤ) (s : Session) → Kept s → Kept (forget_request id s)
unfolding Kept forget_request with_clip
forget_request-Kept id s k = record {
  current = λ j r e. k.current j r (lookup-delete_inv id s.clip.requests j r e).1;
  numbered = λ j r e. k.numbered j r (lookup-delete_inv id s.clip.requests j r e).1;
  valid = k.valid;
  negotiated = k.negotiated;
}

apply_text-Kept :
    (p : Platform) (found : Option Bytes) (s : Session)
    → ((text : Bytes) → found ≡ some text → utf8_valid text ≡ true)
    → Kept s
    → Kept (apply_text p found s)
unfolding apply_text
apply_text-Kept p none s v k = k
apply_text-Kept p (some text) s v k = apply_remote_clipboard-Kept p text s (v text refl) k

answered-Kept :
    (p : Platform) (r : Option Request) (packet : Packet) (s : Session)
    → Kept s
    → Kept (answered p r packet s)
unfolding answered contents_text
answered-Kept p none packet s k = k
answered-Kept p (some r) packet s k =
    elim (Bool-cases (
      not (r.generation == s.clip.generation)
      || not (bytes_eq (str packet (pos 2)) clipboard_selection))) [
        | inl e ↦ rw (e, answered) k
        | inr e ↦
            rw (e, answered)
              (apply_text-Kept p (contents_text r packet) s
                (clipboard_wire_text-valid r.target (int packet (pos 4)) (str packet (pos 5))
                  (at packet (pos 6)))
                k)
      ]

pub handle_clipboard_contents-Kept :
    (p : Platform) (packet : Packet) (s : Session)
    → Kept s
    → Kept (handle_clipboard_contents p packet s)
unfolding handle_clipboard_contents
handle_clipboard_contents-Kept p packet s k = elim (Bool-cases (ltb (length packet) 7)) [
  | inl e ↦ rw (e, handle_clipboard_contents) k
  | inr e ↦
      rw (e, handle_clipboard_contents)
        (answered-Kept p (lookup s.clip.requests (int packet (pos 1))) packet
          (forget_request (int packet (pos 1)) s) (forget_request-Kept (int packet (pos 1)) s k))
]
