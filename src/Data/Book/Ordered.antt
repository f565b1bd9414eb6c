-- ===== src/Data/Book/Ordered.antt =====
-- A side that is sorted by price is strictly sorted, since a dict holds a price once.
use rs_quant.Base.{
  ℕ, zero, suc, ◌≡◌, ◌≢◌, arith, Bool, true, false, none, List, [], ◌∷◌, All, All-map, Bool-cases,
  inl, inr, map,
}
use rs_quant.Base.Dict.{Dict, IsDict, lookup}
use rs_quant.Base.Sort.{insert_with, sort_with}
use rs_quant.Data.Book.Types.{BookLevel}
use rs_quant.Data.Book.Builder.{take, level_at, top, ascending, descending}

module _ {ℓ κ} {A : Type ℓ} (P : A → Type κ) where
  insert_with-All :
      (le : A → A → Bool) (x : A) (ys : List A) → P x → All P ys → All P (insert_with le x ys)
  insert_with-All le x [] p h = (p, tt)
  insert_with-All le x (y ∷ ys) p h = elim (Bool-cases (le x y)) [
    | inl e ↦ rw e (p, h)
    | inr e ↦ rw e (h.0, insert_with-All le x ys p h.1)
  ]

  pub sort_with-All : (le : A → A → Bool) (xs : List A) → All P xs → All P (sort_with le xs)
  sort_with-All le [] h = tt
  sort_with-All le (x ∷ xs) h = insert_with-All le x (sort_with le xs) h.0 (sort_with-All le xs h.1)

  pub take-All : (n : ℕ) (xs : List A) → All P xs → All P (take n xs)
  take-All zero xs h = tt
  take-All (suc n) [] h = tt
  take-All (suc n) (x ∷ xs) h = (h.0, take-All n xs h.1)

-- Every earlier entry stands in `R` to every later one.
abbrev pub Chain {ℓ} : {A : Type ℓ} → (A → A → Type 0) → List A → Type 0
Chain R [] = Unit
Chain R (x ∷ xs) = All (R x) xs × Chain R xs

module _ {ℓ} {A : Type ℓ} (R : A → A → Type 0) where
  pub take-Chain : (n : ℕ) (xs : List A) → Chain R xs → Chain R (take n xs)
  take-Chain zero xs h = tt
  take-Chain (suc n) [] h = tt
  take-Chain (suc n) (x ∷ xs) h = (take-All (R x) n xs h.0, take-Chain n xs h.1)

abbrev Entry : Type 0
Entry = ℕ × ℕ

-- The prices of a dict differ.
abbrev Apart : Entry → Entry → Type 0
Apart e f = e.0 ≢ f.0

absent-All : (k : ℕ) (d : Dict ℕ) → lookup k d ≡ none → All (λ f. k ≢ f.0) d
absent-All k [] h = tt
absent-All k ((j, v) ∷ d) h = (λ e. ground arith, absent-All k d (ground arith))

IsDict-Chain : (d : Dict ℕ) → IsDict d → Chain Apart d
IsDict-Chain [] h = tt
IsDict-Chain ((k, v) ∷ d) h = (absent-All k d h.0, IsDict-Chain d h.1)

module _ (le : Entry → Entry → Bool) (R : Entry → Entry → Type 0)
    (below : (e f : Entry) → le e f ≡ true → e.0 ≢ f.0 → R e f)
    (above : (e f : Entry) → le e f ≡ false → R f e)
    (R-trans : (e f g : Entry) → R e f → R f g → R e g) where
  insert-Chain :
      (x : Entry) (ys : List Entry) → All (Apart x) ys → Chain R ys → Chain R (insert_with le x ys)
  insert-Chain x [] a h = (tt, tt)
  insert-Chain x (y ∷ ys) a h = elim (Bool-cases (le x y)) [
    | inl e ↦ rw e ((below x y e a.0, All-map (λ z. R-trans x y z (below x y e a.0)) ys h.0), h)
    | inr e ↦ rw e (insert_with-All (R y) le x ys (above x y e) h.0, insert-Chain x ys a.1 h.1)
  ]

  sort-Chain : (xs : List Entry) → Chain Apart xs → Chain R (sort_with le xs)
  sort-Chain [] h = tt
  sort-Chain (x ∷ xs) h =
      insert-Chain x (sort_with le xs) (sort_with-All (Apart x) le xs h.0) (sort-Chain xs h.1)

-- The order of a side's levels, best first, as a test of prices.
abbrev pub Better : (ℕ × ℕ → ℕ × ℕ → Bool) → BookLevel → BookLevel → Type 0
Better order l m =
    (order (l.price_ticks, l.size_lots) (m.price_ticks, m.size_lots) ≡ true)
    × (l.price_ticks ≢ m.price_ticks)

map-Chain :
    (order : Entry → Entry → Bool) (xs : List Entry)
    → Chain (λ e f. Better order (level_at e) (level_at f)) xs
    → Chain (Better order) (map level_at xs)
map-Chain order [] h = tt
map-Chain order (x ∷ xs) h = (map-All xs h.0, map-Chain order xs h.1)
  where
    map-All :
        (ys : List Entry)
        → All (λ f. Better order (level_at x) (level_at f)) ys
        → All (Better order (level_at x)) (map level_at ys)
    map-All [] g = tt
    map-All (y ∷ ys) g = (g.0, map-All ys g.1)

module _ (order : Entry → Entry → Bool)
    (total : (e f : Entry) → order e f ≡ false → (order f e ≡ true) × (f.0 ≢ e.0))
    (order-trans : (e f g : Entry)
      → (order e f ≡ true) × (e.0 ≢ f.0)
      → (order f g ≡ true) × (f.0 ≢ g.0)
      → (order e g ≡ true) × (e.0 ≢ g.0)) where
  top-Chain : (depth : ℕ) (d : Dict ℕ) → IsDict d → Chain (Better order) (top order depth d)
  unfolding top
  top-Chain depth d h = map-Chain order (take depth (sort_with order d)) (
      take-Chain (λ e f. Better order (level_at e) (level_at f)) depth (sort_with order d)
        (sort-Chain order (λ e f. Better order (level_at e) (level_at f)) (λ e f p q. (p, q)) total
          order-trans d (IsDict-Chain d h)))

pub descending-Chain :
    (depth : ℕ) (d : Dict ℕ) → IsDict d → Chain (Better descending) (top descending depth d)
descending-Chain =
    top-Chain descending (λ e f h. (ground arith, λ p. ground arith))
      (λ e f g h i. (ground arith, λ p. ground arith))

pub ascending-Chain :
    (depth : ℕ) (d : Dict ℕ) → IsDict d → Chain (Better ascending) (top ascending depth d)
ascending-Chain =
    top-Chain ascending (λ e f h. (ground arith, λ p. ground arith))
      (λ e f g h i. (ground arith, λ p. ground arith))

-- What holds of every entry of a side holds of every level that is shown.
pub top-All :
    (P : BookLevel → Type 0) (order : Entry → Entry → Bool) (depth : ℕ) (d : Dict ℕ)
    → All (λ e. P (level_at e)) d
    → All P (top order depth d)
unfolding top
top-All P order depth d h = map-All (take depth (sort_with order d)) (
    take-All (λ e. P (level_at e)) depth (sort_with order d)
      (sort_with-All (λ e. P (level_at e)) order d h))
  where
    map-All : (ys : List Entry) → All (λ e. P (level_at e)) ys → All P (map level_at ys)
    map-All [] g = tt
    map-All (y ∷ ys) g = (g.0, map-All ys g.1)
