-- ===== src/Rencode/Decode/Ensures.antt =====
-- Postconditions on the decoder's steps.
use go_xpra.Prelude.{refl, Bool, true, false, if◌then◌else◌, ◌≢◌, ◌≡◌, subst}
use go_xpra.Prelude.Result.{Result, ok, err, ◌>>=◌}
use go_xpra.Rencode.Decode.{DecodeError, out_of_fuel}

-- The step kept within its fuel, and `P` holds of what it returns, if it does.
pub data Ensures {A : Type 0} (P : A → Type 0) : Result DecodeError A → Type 0 where
  holds : {a : A} → P a → Ensures P (ok a)
  fails : {e : DecodeError} → e ≢ out_of_fuel → Ensures P (err e)

pub Ensures-bind :
    {A B : Type 0} {P : A → Type 0} {Q : B → Type 0} {m : Result DecodeError A}
    {f : A → Result DecodeError B}
    → Ensures P m
    → ((a : A) → P a → Ensures Q (f a))
    → Ensures Q (m >>= f)
Ensures-bind (holds {a} h) k = k a h
Ensures-bind (fails n) k = fails n

pub Ensures-if :
    {A : Type 0} {P : A → Type 0} (b : Bool) {x y : Result DecodeError A}
    → Ensures P x
    → Ensures P y
    → Ensures P (if b then x else y)
Ensures-if true hx hy = hx
Ensures-if false hx hy = hy

-- Where the first branch needs the test.
pub Ensures-if_true :
    {A : Type 0} {P : A → Type 0} (b : Bool) {x y : Result DecodeError A}
    → (b ≡ true → Ensures P x)
    → Ensures P y
    → Ensures P (if b then x else y)
Ensures-if_true true hx hy = hx refl
Ensures-if_true false hx hy = hy

pub Ensures-mono :
    {A : Type 0} {P Q : A → Type 0} {m : Result DecodeError A}
    → Ensures P m
    → ((a : A) → P a → Q a)
    → Ensures Q m
Ensures-mono (holds {a} h) k = holds (k a h)
Ensures-mono (fails n) k = fails n

pub Ensures-ok :
    {A : Type 0} {P : A → Type 0} {m : Result DecodeError A} {a : A} → Ensures P m → m ≡ ok a → P a
Ensures-ok {P = P} (holds h) e = subst P (cc) h
Ensures-ok (fails n) e = cc

pub Ensures-fuel :
    {A : Type 0} {P : A → Type 0} {m : Result DecodeError A} → Ensures P m → m ≢ err out_of_fuel
Ensures-fuel (holds h) e = cc
Ensures-fuel (fails n) e = n (cc)
