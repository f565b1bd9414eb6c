-- ===== src/Base/Ensures.antt =====
-- A postcondition for the results of calls that may raise, with its rules for bind, guards and conditionals.
use rs_quant.Base.{
  Bool, true, false, ◌≡◌, refl, Result, ok, raise, ◌>>=◌, Option, none, some, or_raise, raise_if,
  if◌then◌else◌,
}
use mathlib.Core.Path.{subst}

-- What holds of a result if there is one.
abbrev pub Ensures : {E A : Type 0} → (A → Type 0) → Result E A → Type 0
Ensures P (ok a) = P a
Ensures P (raise e) = Unit

pub Ensures->>= :
    {E A B : Type 0} (P : B → Type 0) (m : Result E A) (f : A → Result E B)
    → ((a : A) → m ≡ ok a → Ensures P (f a))
    → Ensures P (m >>= f)
Ensures->>= P (ok a) f h = h a refl
Ensures->>= P (raise e) f h = tt

-- A guard raises, or lets the rest run.
pub Ensures-guard :
    {E A : Type 0} (P : A → Type 0) (m : Result E (Unit {0})) (next : Result E A)
    → Ensures P next
    → Ensures P (m >>= λ _. next)
Ensures-guard P (ok a) next h = h
Ensures-guard P (raise e) next h = tt

pub Ensures-if :
    {E A : Type 0} (P : A → Type 0) (c : Bool) (m n : Result E A)
    → Ensures P m
    → Ensures P n
    → Ensures P (if c then m else n)
Ensures-if P true m n hm hn = hm
Ensures-if P false m n hm hn = hn

pub Ensures-weaken :
    {E A : Type 0} (P Q : A → Type 0) (m : Result E A)
    → ((a : A) → P a → Q a)
    → Ensures P m
    → Ensures Q m
Ensures-weaken P Q (ok a) f h = f a h
Ensures-weaken P Q (raise e) f h = tt

-- The postcondition of a call that returned.
pub of_Ensures :
    {E A : Type 0} (P : A → Type 0) {m : Result E A} {a : A} → Ensures P m → m ≡ ok a → P a
of_Ensures P {m} h e = subst (Ensures P) e h

-- A guarded result was not refused.
pub if-ok :
    {E A : Type 0} (c : Bool) (e : E) (m : Result E A) {a : A}
    → (if c then raise e else m) ≡ ok a
    → (c ≡ false) × (m ≡ ok a)
if-ok true e m h = cc
if-ok false e m h = (refl, h)

-- What follows a guard may use that the guard let it pass.
pub Ensures-raise_if :
    {E A : Type 0} (P : A → Type 0) (c : Bool) (e : E) (next : Result E A)
    → (c ≡ false → Ensures P next)
    → Ensures P (raise_if c e >>= λ _. next)
Ensures-raise_if P true e next h = tt
Ensures-raise_if P false e next h = h refl

pub or_raise-ok : {E A : Type 0} (m : Option A) (e : E) {a : A} → or_raise m e ≡ ok a → m ≡ some a
or_raise-ok none e h = cc
or_raise-ok (some a) e h = cc

-- What a single guard before a result says when there is one.
pub guarded-ok :
    {E A : Type 0} (b : Bool) (e : E) {c : A} (d : A)
    → (raise_if b e >>= λ _. ok d) ≡ ok c
    → (b ≡ false) × (c ≡ d)
guarded-ok true e d eq = cc
guarded-ok false e d eq = (refl, cc)
