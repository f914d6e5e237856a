-- ===== src/Rencode/RoundTrip/Floats.antt =====
-- rencodeplus/: float32 values, which are written as float64s.
use go_xpra.Prelude.{
  ℕ, zero, suc, ◌-◌, ◌*◌, ◌^◌, ◌/◌, ◌%◌, ◌≤◌, ◌<◌, arith, Bool-cases, inl, inr, ltb, tests,
}
use go_xpra.Rencode.Encode.{normalize, widen_magnitude, widen}

normalize-lt : (f m e : ℕ) → m < 2 ^ 24 → e ≤ 897 → normalize f m e < 2 ^ 63
unfolding normalize
normalize-lt zero m e hm he = omega arith
normalize-lt (suc f) m e hm he = elim (Bool-cases (ltb m (2 ^ 23))) [
  | inl small ↦ rw small (normalize-lt f (2 * m) (e - 1) (omega tests) (omega arith))
  | inr big ↦ rw big (omega arith)
]

widen_magnitude-lt : (e m : ℕ) → e < 256 → m < 2 ^ 23 → widen_magnitude e m < 2 ^ 63
unfolding widen_magnitude
widen_magnitude-lt e m he hm = ground (arith, normalize-lt 23 m 897)

pub widen-lt : (b : ℕ) → b < 2 ^ 32 → widen b < 2 ^ 64
unfolding widen
widen-lt b h =
    omega (arith, widen_magnitude-lt (b / 2 ^ 23 % 256) (b % 2 ^ 23) (omega arith) (omega arith))
