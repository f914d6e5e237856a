-- ===== src/Protocol/Header.antt =====
-- protocol/header.go: the 8-byte packet header.
use go_xpra.Prelude.{
  ℕ, ◌*◌, ◌^◌, ◌%◌, ◌≤◌, ◌<◌, ◌≡◌, refl, [], ◌∷◌, ◌++◌, arith, ltb, ◌==◌, not, if◌then◌else◌,
  Bool-cases, inl, inr, sym, ◌≢◌, ◌∙◌,
}
use go_xpra.Prelude.Bytes.{Bytes, be_bytes, be_value, be_value-be_bytes}
use go_xpra.Prelude.Result.{Result, ok, err}

abbrev pub header_size : ℕ
header_size = 8

abbrev pub magic : ℕ
magic = b'P'

abbrev pub flag_flush : ℕ
flag_flush = 0x08

abbrev pub flag_rencodeplus : ℕ
flag_rencodeplus = 0x10

abbrev pub max_payload_size : ℕ
max_payload_size = 64 * 2 ^ 20

abbrev pub max_packet_index : ℕ
max_packet_index = 15

pub record Header : Type 0 where
  pub flags : ℕ
  pub compression : ℕ
  pub index : ℕ
  pub length : ℕ

-- The errors, without the numbers that their messages print.
pub data HeaderError : Type 0 where
  short_header bad_magic zero_length too_long bad_index : HeaderError

unfoldable pub encode_header : ℕ → ℕ → Bytes
encode_header flags payload_len = magic ∷ flags ∷ 0 ∷ 0 ∷ be_bytes 4 (payload_len % 2 ^ 32)

-- The checks on a header's fields, in the order of the source.
unfoldable pub check_header : Header → Result HeaderError Header
check_header h =
    if h.length == 0
    then err zero_length
    else if ltb max_payload_size h.length
    then err too_long
    else if ltb max_packet_index h.index
    then err bad_index
    else ok h

unfoldable pub parse_header : Bytes → Result HeaderError Header
parse_header (m ∷ flags ∷ compression ∷ index ∷ l0 ∷ l1 ∷ l2 ∷ l3 ∷ rest) =
    if not (m == magic)
    then err bad_magic
    else check_header (record {
      flags = flags;
      compression = compression;
      index = index;
      length = be_value (l0 ∷ l1 ∷ l2 ∷ l3 ∷ []);
    })
parse_header _ = err short_header

ok-ne-err : {A E : Type 0} {a : A} {e : E} → ok a ≢ err e
ok-ne-err h = cc

-- What a header that was accepted promises.
pub record IsAccepted (h : Header) : Type 0 where
  pub nonempty : 0 < h.length
  pub bounded : h.length ≤ max_payload_size
  pub indexed : h.index ≤ max_packet_index

pub check_header-IsAccepted : (h h' : Header) → check_header h ≡ ok h' → IsAccepted h'
unfolding check_header
check_header-IsAccepted h h' e = ground arith

-- Whatever bytes arrive, a header that is accepted announces 1 byte to 64 MiB and an index of at
-- most 15.
pub parse_header-IsAccepted : (b : Bytes) (h : Header) → parse_header b ≡ ok h → IsAccepted h
unfolding parse_header
parse_header-IsAccepted (m ∷ fl ∷ c ∷ i ∷ l0 ∷ l1 ∷ l2 ∷ l3 ∷ rest) h e =
    elim (Bool-cases (m == magic)) [
      | inl q ↦ check_header-IsAccepted _ h (rw q at e)
      | inr q ↦ absurd (ok-ne-err (sym (rw q at e)))
    ]
parse_header-IsAccepted _ h e = cc

four_bytes :
    (m flags compression index n : ℕ) (rest : Bytes)
    → n < 2 ^ 32
    → m ≡ magic
    → parse_header (m ∷ flags ∷ compression ∷ index ∷ (be_bytes 4 n ++ rest))
      ≡ check_header
          (record { flags = flags; compression = compression; index = index; length = n })
unfolding parse_header be_bytes
four_bytes m flags compression index n rest h e =
    let value : be_value (be_bytes 4 n) ≡ n = be_value-be_bytes 4 n (omega arith) in rw (e, value)

-- The header that `Send` writes is read back: the flags and the length, no compression, index 0.
pub parse_header-encode_header :
    (flags n : ℕ) (rest : Bytes)
    → 0 < n
    → n ≤ max_payload_size
    → parse_header (encode_header flags n ++ rest)
      ≡ ok (record { flags = flags; compression = 0; index = 0; length = n })
unfolding encode_header
parse_header-encode_header flags n rest p h =
    let small : n % 2 ^ 32 ≡ n = omega arith in
    rw small
      (four_bytes magic flags 0 0 n rest (omega arith) refl ∙ unfold check_header in ground arith)
