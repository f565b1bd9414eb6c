-- ===== src/Base/Sort.antt =====
-- Python's `sorted` with a numeric key, as a stable insertion sort, and sorted tuples of
-- distinct keys, as in `tuple(sorted(set(...)))` and `tuple(d[k] for k in sorted(d))`.
use Prim.Native.Nat.{ℕ}
use mathlib.Core.Path.{◌≡◌, refl}
use mathlib.Core.Bool.{Bool, true, false, ◌&&◌, ◌||◌}
use mathlib.Core.List.{List, [], ◌∷◌}
use native.Mathlib.Omega.{arith}
use rs_quant.Base.Tests.{ltb, leb, ◌==◌, if◌then◌else◌}
use rs_quant.Base.Lists.{elem}
use rs_quant.Base.Dict.{Dict, values}

-- `sorted(xs)` by an order that is given as a test.
module _ {ℓ} {A : Type ℓ} (le : A → A → Bool) where
  abbrev pub insert_with : A → List A → List A
  insert_with x [] = x ∷ []
  insert_with x (y ∷ ys) = if le x y then x ∷ y ∷ ys else y ∷ insert_with x ys

  abbrev pub sort_with : List A → List A
  sort_with [] = []
  sort_with (x ∷ xs) = insert_with x (sort_with xs)

-- The order of Python's tuples of numbers.
abbrev pub le_tuple : List ℕ → List ℕ → Bool
le_tuple [] ys = true
le_tuple (x ∷ xs) [] = false
le_tuple (x ∷ xs) (y ∷ ys) = let rest = le_tuple xs ys in if ltb x y then true else x == y && rest

module _ {ℓ} {A : Type ℓ} (key : A → ℕ) where
  abbrev pub insert_sorted : A → List A → List A
  insert_sorted x [] = x ∷ []
  insert_sorted x (y ∷ ys) = if leb (key x) (key y) then x ∷ y ∷ ys else y ∷ insert_sorted x ys

  abbrev pub sort_by : List A → List A
  sort_by [] = []
  sort_by (x ∷ xs) = insert_sorted x (sort_by xs)

-- `tuple(d[k] for k in sorted(d))`
abbrev pub sorted_values {ℓ} : {V : Type ℓ} → Dict V → List V
sorted_values d = values (sort_by (λ e. e.0) d)

-- `tuple(sorted(set((*xs, x))))` on a tuple that is sorted already.
abbrev pub add_sorted : ℕ → List ℕ → List ℕ
add_sorted x [] = x ∷ []
add_sorted x (y ∷ ys) =
    let rest = add_sorted x ys in
    if x == y then y ∷ ys else if ltb x y then x ∷ y ∷ ys else y ∷ rest

-- `tuple(sorted(set(xs)))`
abbrev pub sorted_set : List ℕ → List ℕ
sorted_set [] = []
sorted_set (x ∷ xs) = add_sorted x (sorted_set xs)

pub elem-add_sorted : (k x : ℕ) (xs : List ℕ) → elem k (add_sorted x xs) ≡ (k == x || elem k xs)
elem-add_sorted k x [] = refl
elem-add_sorted k x (y ∷ ys) = ground (arith, elem-add_sorted k x ys)

pub elem-sorted_set : (k : ℕ) (xs : List ℕ) → elem k (sorted_set xs) ≡ elem k xs
elem-sorted_set k [] = refl
elem-sorted_set k (x ∷ xs) =
    ground (arith, elem-add_sorted k x (sorted_set xs), elem-sorted_set k xs)
