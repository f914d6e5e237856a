-- ===== src/Client/Mmap/Token.antt =====
-- client/mmap.go: `writeMmapToken` and `readMmapToken`.
pub mod Overwrite
pub mod RoundTrip
use go_xpra.Prelude.{
  ℕ, zero, suc, ◌+◌, ◌-◌, ◌*◌, ◌/◌, ◌%◌, ◌^◌, ◌≤◌, ◌<◌, ◌≡◌, ◌≢◌, refl, ap, sym, ◌∙◌, Bool, true,
  false, ◌||◌, List, [], ◌∷◌, ◌++◌, Option, none, some, length, take, drop, set, replicate,
  get_elem?, leb, ltb, ◌==◌, if◌then◌else◌, arith, append-nil, length-set, length-take, length-drop,
  length-append, length-replicate, or-false,
}
use go_xpra.Prelude.Int.{ℤ, pos, negsuc, pos_part, ltb_ℤ, leb_ℤ, ◌-ℤ◌}
use go_xpra.Prelude.Bytes.{overwrite, Bytes, be_value}
use go_xpra.Prelude.Result.{Result, ok, err, if-ok}

pub data TokenError : Type 0 where
  invalid_bounds too_long : TokenError

-- The bytes of a number, the least significant first, without leading zeros: those of
-- `big.Int.Bytes` from the last to the first. A number has no more bytes than its value.
unfoldable pub digits_from : ℕ → ℕ → Bytes
digits_from zero n = []
digits_from (suc f) n =
    let rest = digits_from f (n / 256) in if n == 0 then [] else (n % 256) ∷ rest

unfoldable pub reversed_bytes : ℕ → Bytes
reversed_bytes n = digits_from n n

abbrev pub zeros : ℕ → Bytes
zeros n = replicate n 0

unfoldable pub put_token : Bytes → Bytes → ℕ → ℕ → Result TokenError Bytes
put_token area encoded index count =
    if ltb count (length encoded)
    then err too_long
    else ok (overwrite index encoded (overwrite index (zeros count) area))

-- Go's test on the bounds, for an `index` that is not negative and a positive `count`.
unfoldable pub outside : Bytes → ℤ → ℤ → Bool
outside area index count =
    ltb_ℤ index (pos 0)
    || leb_ℤ count (pos 0)
    || ltb_ℤ (pos (length area)) index
    || ltb_ℤ (pos (length area) -ℤ index) count

-- A nil token is `none`.
unfoldable pub write_mmap_token : Bytes → Option ℤ → ℤ → ℤ → Result TokenError Bytes
write_mmap_token area (some (pos n)) index count =
    if outside area index count
    then err invalid_bounds
    else put_token area (reversed_bytes n) (pos_part index) (pos_part count)
write_mmap_token area _ index count = err invalid_bounds

-- The number of bytes, the least significant first.
unfoldable pub value_of_reversed : Bytes → ℕ
value_of_reversed [] = 0
value_of_reversed (b ∷ bs) = b + 256 * value_of_reversed bs

unfoldable pub read_mmap_token : Bytes → ℤ → ℤ → Result TokenError ℕ
read_mmap_token area index count =
    if outside area index count
    then err invalid_bounds
    else ok (value_of_reversed (take (pos_part count) (drop (pos_part index) area)))
