-- ===== src/Rencode/Decimal.antt =====
-- The decimal conversions of Go's strconv and math/big that rencodeplus/ uses: AppendInt, FormatInt,
-- Atoi, and big.Int's Append and SetString in base 10.
pub mod Laws
use go_xpra.Prelude.{
  ℕ, zero, suc, ◌+◌, ◌-◌, ◌*◌, ◌/◌, ◌%◌, ◌^◌, Bool, ◌&&◌, [], ◌∷◌, ◌++◌, Option, none, some, ltb,
  leb, ◌==◌, if◌then◌else◌,
}
use go_xpra.Prelude.Int.{ℤ, pos, negsuc, fits_signed}
use go_xpra.Prelude.Bytes.{Bytes}

-- The digits of a number; `f` bounds their count.
unfoldable pub digits_loop : ℕ → ℕ → Bytes
digits_loop zero n = (b'0' + n % 10) ∷ []
digits_loop (suc f) n =
    let more = digits_loop f (n / 10) ++ ((b'0' + n % 10) ∷ []) in
    if ltb n 10 then (b'0' + n) ∷ [] else more

-- A number has no more digits than its value.
unfoldable pub append_nat : Bytes → ℕ → Bytes
unfolding digits_loop
append_nat buf n = buf ++ digits_loop n n

unfoldable pub append_int : Bytes → ℤ → Bytes
unfolding append_nat
append_int buf (pos n) = append_nat buf n
append_int buf (negsuc n) = append_nat (buf ++ (b'-' ∷ [])) (suc n)

unfoldable pub is_digit : ℕ → Bool
is_digit c = leb b'0' c && leb c b'9'

unfoldable pub parse_digits : ℕ → Bytes → Option ℕ
unfolding is_digit
parse_digits acc [] = some acc
parse_digits acc (c ∷ cs) = if is_digit c then parse_digits (acc * 10 + (c - b'0')) cs else none

-- At least one digit, and nothing else.
unfoldable pub parse_nat : Bytes → Option ℕ
unfolding parse_digits
parse_nat [] = none
parse_nat (c ∷ cs) = parse_digits 0 (c ∷ cs)

unfoldable pub negate : ℕ → ℤ
negate zero = pos 0
negate (suc n) = negsuc n

-- `new(big.Int).SetString(s, 10)`: a sign at most, and digits.
unfoldable pub set_string : Bytes → Option ℤ
unfolding parse_nat negate
set_string [] = none
set_string (c ∷ cs) =
    if c == b'-'
    then elim (parse_nat cs) [ none ↦ none | some n ↦ some (negate n) ]
    else if c == b'+'
    then elim (parse_nat cs) [ none ↦ none | some n ↦ some (pos n) ]
    else elim (parse_nat (c ∷ cs)) [ none ↦ none | some n ↦ some (pos n) ]

-- `strconv.Atoi`: the same texts, with a range error outside int64.
unfoldable pub atoi : Bytes → Option ℤ
unfolding set_string
atoi s = elim (set_string s) [
  | none ↦ none
  | some n ↦ if fits_signed (2 ^ 63) n then some n else none
]
