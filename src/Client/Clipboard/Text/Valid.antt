-- ===== src/Client/Clipboard/Text/Valid.antt =====
-- client/clipboard.go: the text of a clipboard packet.
use go_xpra.Prelude.{
  ℕ, ◌+◌, ◌/◌, ◌%◌, ◌≤◌, ◌<◌, ◌≡◌, inl, inr, refl, ap, sym, ◌∙◌, Bool, true, false, ◌||◌, not, [],
  ◌∷◌, ◌++◌, none, some, length, ltb, if◌then◌else◌, arith, Bool-cases, ltb→lt, ltb→le, if-some,
}
use go_xpra.Prelude.Int.{ℤ, pos, eqb_ℤ}
use go_xpra.Prelude.Bytes.{Bytes, codes, bytes_eq}
use go_xpra.Rencode.Value.{Value}
use go_xpra.Client.Clipboard.Text.{
  max_clipboard_bytes, tail_byte, within, following, valid_from, utf8_valid, rune_bytes, latin_text,
  is_clipboard_text_target, data_text, value_text, clipboard_wire_text,
}

following-ascii : (b : ℕ) → b < 128 → following b ≡ some []
unfolding following
following-ascii b h = ground arith

following-latin : (b : ℕ) → 128 ≤ b → b < 256 → following (0xc0 + b / 64) ≡ some (tail_byte ∷ [])
unfolding following within
following-latin b h k = ground arith

within_tail : (b : ℕ) → within 0x80 0xbf (0x80 + b % 64) ≡ true
unfolding within
within_tail b = ground arith

valid-one :
    (b : ℕ) (rest : Bytes) → following b ≡ some [] → valid_from [] (b ∷ rest) ≡ valid_from [] rest
unfolding valid_from
valid-one b rest e = rw (e, valid_from) refl

valid-two :
    (b c : ℕ) (rest : Bytes)
    → following b ≡ some (tail_byte ∷ [])
    → within 0x80 0xbf c ≡ true
    → valid_from [] (b ∷ c ∷ rest) ≡ valid_from [] rest
unfolding valid_from
valid-two b c rest e k = rw (e, k, valid_from) refl

valid-rune_bytes :
    (b : ℕ) (rest : Bytes) → b < 256 → valid_from [] (rune_bytes b ++ rest) ≡ valid_from [] rest
unfolding rune_bytes
valid-rune_bytes b rest h = elim (Bool-cases (ltb b 0x80)) [
  | inl q ↦ rw q (valid-one b rest (following-ascii b (ltb→lt b 0x80 q)))
  | inr q ↦ rw q (
      valid-two (0xc0 + b / 64) (0x80 + b % 64) rest (following-latin b (ltb→le b 0x80 q) h)
        (within_tail b))
]

utf8_valid-latin_text : (bs : Bytes) → utf8_valid (latin_text bs) ≡ true
unfolding utf8_valid latin_text valid_from
utf8_valid-latin_text [] = refl
utf8_valid-latin_text (b ∷ bs) =
    valid-rune_bytes (b % 256) (latin_text bs) (omega arith) ∙ utf8_valid-latin_text bs

-- Text, or bytes that are read as Latin-1.
latin_or_text :
    (target area text : Bytes) (valid : Bool)
    → utf8_valid area ≡ valid
    → (if valid
        then some area
        else if bytes_eq target (codes "STRING")
        then some (latin_text area)
        else none)
      ≡ some text
    → utf8_valid text ≡ true
latin_or_text target area text true v e =
    let same : area ≡ text = cc in ap utf8_valid (sym same) ∙ v
latin_or_text target area text false v e = by_target (bytes_eq target (codes "STRING")) e
  where
    by_target :
        (b : Bool)
        → (if b then some (latin_text area) else none) ≡ some text
        → utf8_valid text ≡ true
    by_target true e =
        let same : latin_text area ≡ text = cc in
        ap utf8_valid (sym same) ∙ utf8_valid-latin_text area
    by_target false e = cc

data_text-valid :
    (target area text : Bytes) → data_text target area ≡ some text → utf8_valid text ≡ true
unfolding data_text
data_text-valid target area text e =
    let (_, f) =
      if-some (ltb max_clipboard_bytes (length area))
        (if utf8_valid area
          then some area
          else if bytes_eq target (codes "STRING")
          then some (latin_text area)
          else none)
        e in
    latin_or_text target area text (utf8_valid area) refl f

value_text-valid :
    (target : Bytes) (value : Value) (text : Bytes)
    → value_text target value ≡ some text
    → utf8_valid text ≡ true
unfolding value_text
value_text-valid target (Value.binary area) text e = data_text-valid target area text e
value_text-valid target (Value.text area) text e = data_text-valid target area text e
value_text-valid target _ text e = cc

-- What is taken for text of the clipboard is valid UTF-8.
pub clipboard_wire_text-valid :
    (target : Bytes) (format : ℤ) (encoding : Bytes) (value : Value) (text : Bytes)
    → clipboard_wire_text target format encoding value ≡ some text
    → utf8_valid text ≡ true
unfolding clipboard_wire_text
clipboard_wire_text-valid target format encoding value text e =
    value_text-valid target value text
      (if-some
        (not (is_clipboard_text_target target)
          || not (eqb_ℤ format (pos 8))
          || not (bytes_eq encoding (codes "bytes")))
        (value_text target value) e).1
