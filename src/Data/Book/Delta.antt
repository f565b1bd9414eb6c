-- ===== src/Data/Book/Delta.antt =====
-- What the levels of one message do to a side.
use rs_quant.Base.{
  ℕ, ◌≡◌, refl, ap, sym, ◌∙◌, arith, false, Option, none, some, List, [], ◌∷◌, ok, if_both,
  Bool-cases, inl, inr, ◌==◌, ==_iff, if◌then◌else◌,
}
use rs_quant.Base.Ensures.{Ensures, Ensures->>=, Ensures-raise_if, of_Ensures}
use rs_quant.Base.Dict.{
  Dict, IsDict, lookup, insert, erase, lookup-insert, lookup-erase_ne, lookup-erase_self,
  insert-IsDict, erase-IsDict,
}
use rs_quant.Base.Int.{ℤ}
use rs_quant.Core.Types.{Ident}
use rs_quant.Data.Json.{Json, integer, text, scalar, array, object, null}
use rs_quant.Data.Book.Types.{BookLevel, duplicate_price_level}
use rs_quant.Data.Book.Levels.{levels, read_levels, has_price, has_repeated_price}
use rs_quant.Data.Book.Builder.{apply_levels}

-- The size of a price after a message, read off the message: its own size, none for zero, and the
-- size before where the message does not name the price.
unfoldable pub updated : ℕ → List BookLevel → Option ℕ → Option ℕ
updated k [] before = before
updated k (l ∷ ls) before =
    let rest = updated k ls before in
    if l.price_ticks == k then (if l.size_lots == 0 then none else some l.size_lots) else rest

levels-distinct :
    (text_of : Ident → Option ℤ) (j : Json)
    → Ensures (λ ls. has_repeated_price ls ≡ false) (levels text_of j)
unfolding levels
levels-distinct text_of (array js) = Ensures->>= _ (read_levels text_of js) _ (λ ls e.
    Ensures-raise_if (λ ls. has_repeated_price ls ≡ false) (has_repeated_price ls)
      duplicate_price_level (ok ls) (λ h. h))
levels-distinct text_of (integer n) = tt
levels-distinct text_of (text s) = tt
levels-distinct text_of (scalar s) = tt
levels-distinct text_of (object fs) = tt
levels-distinct text_of null = tt

one_level :
    (k : ℕ) (l : BookLevel) (side : Dict ℕ)
    → IsDict side
    → lookup k (
        if l.size_lots == 0
        then erase l.price_ticks side
        else insert l.price_ticks l.size_lots side)
      ≡ updated k (l ∷ []) (lookup k side)
unfolding updated
one_level k l side h = elim (Bool-cases (l.size_lots == 0)) [
  | inl e ↦ elim (Bool-cases (l.price_ticks == k)) [
    | inl p ↦
        rw (e, p)
          (ap (λ j. lookup j (erase l.price_ticks side)) (sym ((==_iff l.price_ticks k).0 p))
            ∙ lookup-erase_self l.price_ticks side h)
    | inr p ↦ rw (e, p) (lookup-erase_ne l.price_ticks k side (λ q. ground arith))
  ]
  | inr e ↦ rw e (lookup-insert l.price_ticks k l.size_lots side)
]

one_level-IsDict :
    (l : BookLevel) (side : Dict ℕ)
    → IsDict side
    → IsDict (
        if l.size_lots == 0
        then erase l.price_ticks side
        else insert l.price_ticks l.size_lots side)
one_level-IsDict l side h =
    if_both IsDict (l.size_lots == 0) _ _ (erase-IsDict l.price_ticks side h)
      (insert-IsDict l.price_ticks l.size_lots side h)

updated_absent :
    (k : ℕ) (ls : List BookLevel) (o : Option ℕ) → has_price k ls ≡ false → updated k ls o ≡ o
unfolding updated
updated_absent k [] o h = refl
updated_absent k (l ∷ ls) o h = ground (arith, updated_absent k ls o)

updated_once :
    (k : ℕ) (l : BookLevel) (ls : List BookLevel) (o : Option ℕ)
    → has_price l.price_ticks ls ≡ false
    → updated k ls (updated k (l ∷ []) o) ≡ updated k (l ∷ ls) o
unfolding updated
updated_once k l ls o h = elim (Bool-cases (l.price_ticks == k)) [
  | inl p ↦
      rw p
        (updated_absent k ls _ (ap (λ j. has_price j ls) (sym ((==_iff l.price_ticks k).0 p)) ∙ h))
  | inr p ↦ rw p refl
]

apply_levels_lem :
    (k : ℕ) (ls : List BookLevel) (side : Dict ℕ)
    → IsDict side
    → has_repeated_price ls ≡ false
    → lookup k (apply_levels side ls) ≡ updated k ls (lookup k side)
unfolding apply_levels updated
apply_levels_lem k [] side h n = refl
apply_levels_lem k (l ∷ ls) side h n =
    apply_levels_lem k ls _ (one_level-IsDict l side h) (ground arith)
    ∙ ap (updated k ls) (one_level k l side h)
    ∙ updated_once k l ls (lookup k side) (ground arith)

-- When a message's levels are accepted by `levels`, then applying them to a side gives each price
-- that they name their size, removes it for size zero, and leaves every other price as it was, in
-- whatever order the message lists them.
pub apply_levels_updates :
    (text_of : Ident → Option ℤ) (j : Json) (ls : List BookLevel) (side : Dict ℕ) (k : ℕ)
    → levels text_of j ≡ ok ls
    → IsDict side
    → lookup k (apply_levels side ls) ≡ updated k ls (lookup k side)
apply_levels_updates text_of j ls side k e h =
    apply_levels_lem k ls side h
      (of_Ensures (λ ms. has_repeated_price ms ≡ false) (levels-distinct text_of j) e)
