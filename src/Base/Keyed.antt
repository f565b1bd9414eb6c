-- ===== src/Base/Keyed.antt =====
-- Tuples of values with a numeric key, kept as `tuple(d[k] for k in sorted(d))`: replacing one
-- value, and looking one up.
use Prim.Native.Nat.{ℕ, ◌<◌}
use mathlib.Core.Path.{◌≡◌, refl, ◌∙◌}
use mathlib.Core.Logic.{inl, inr}
use mathlib.Core.Bool.{Bool}
use mathlib.Core.Option.{Option, none, some}
use mathlib.Core.List.{List, [], ◌∷◌}
use native.Mathlib.Omega.{arith}
use rs_quant.Base.Tests.{leb, ◌==◌, if◌then◌else◌, Bool-cases, ==_refl}
use rs_quant.Base.Lists.{find, All}
use rs_quant.Base.Dict.{
  Dict, lookup, insert, values, dict_from, IsDict, insert-IsDict, lookup-insert,
}
use rs_quant.Base.Sort.{insert_sorted, sort_by, sorted_values}

-- `d = {key(y): y for y in xs}; d[key(x)] = x; tuple(d[k] for k in sorted(d))`
unfoldable pub upsert : {A : Type 0} → (A → ℕ) → A → List A → List A
upsert key x xs = sorted_values (insert (key x) x (dict_from key [] xs))

module _ {A : Type 0} (key : A → ℕ) where
  -- The value with a key.
  abbrev pub get : ℕ → List A → Option A
  get k = find (λ x. key x == k)

  -- The keys rise strictly.
  abbrev pub IsKeyed : List A → Type 0
  IsKeyed [] = Unit
  IsKeyed (x ∷ xs) = All (λ y. key x < key y) xs × IsKeyed xs

  -- The first value of the tuple is not there under a larger key.
  get_above : (k : ℕ) (xs : List A) → All (λ y. k < key y) xs → get k xs ≡ none
  get_above k [] h = refl
  get_above k (x ∷ xs) h = ground (arith, get_above k xs h.1)

  -- Each entry of the dict stands under its own key.
  abbrev pub IsOwn : Dict A → Type 0
  IsOwn = All (λ e. key e.1 ≡ e.0)

  pub insert-IsOwn : (x : A) (d : Dict A) → IsOwn d → IsOwn (insert (key x) x d)
  insert-IsOwn x [] h = (refl, tt)
  insert-IsOwn x ((j, w) ∷ d) h = ground (arith, insert-IsOwn x d h.1)

  pub dict_from-IsOwn : (d : Dict A) (xs : List A) → IsOwn d → IsOwn (dict_from key d xs)
  dict_from-IsOwn d [] h = h
  dict_from-IsOwn d (x ∷ xs) h = dict_from-IsOwn (insert (key x) x d) xs (insert-IsOwn x d h)

  pub dict_from-IsDict : (d : Dict A) (xs : List A) → IsDict d → IsDict (dict_from key d xs)
  dict_from-IsDict d [] h = h
  dict_from-IsDict d (x ∷ xs) h =
      dict_from-IsDict (insert (key x) x d) xs (insert-IsDict (key x) x d h)

  -- The last value with a key wins; for a keyed tuple that is the only one.
  pub lookup-dict_from :
      (k : ℕ) (d : Dict A) (xs : List A)
      → IsKeyed xs
      → lookup k (dict_from key d xs) ≡ (elim (get k xs) [ none ↦ lookup k d | some x ↦ some x ])
  lookup-dict_from k d [] h = refl
  lookup-dict_from k d (x ∷ xs) h = ground (
    arith,
    lookup-dict_from k (insert (key x) x d) xs h.1,
    lookup-insert (key x) k x d,
    get_above (key x) xs h.0,
  )

  abbrev entry_key : ℕ × A → ℕ
  entry_key e = e.0

  abbrev sort : Dict A → Dict A
  sort = sort_by entry_key

  lookup-insert_sorted :
      (k : ℕ) (e : ℕ × A) (d : Dict A)
      → lookup k (insert_sorted entry_key e d) ≡ (if e.0 == k then some e.1 else lookup k d)
  lookup-insert_sorted k e [] = refl
  lookup-insert_sorted k e (f ∷ d) = ground (arith, lookup-insert_sorted k e d)

  lookup-sort : (k : ℕ) (d : Dict A) → lookup k (sort d) ≡ lookup k d
  lookup-sort k [] = refl
  lookup-sort k (e ∷ d) = ground (arith, lookup-insert_sorted k e (sort d), lookup-sort k d)

  get-values : (k : ℕ) (d : Dict A) → IsOwn d → get k (values d) ≡ lookup k d
  get-values k [] h = refl
  get-values k ((j, w) ∷ d) h = ground (arith, get-values k d h.1)

  -- A property of entries, kept by the operations.
  module _ (P : ℕ × A → Type 0) where
    All-insert_sorted :
        (e : ℕ × A) (d : Dict A) → P e → All P d → All P (insert_sorted entry_key e d)
    All-insert_sorted e [] p h = (p, tt)
    All-insert_sorted e (f ∷ d) p h = elim (Bool-cases (leb e.0 f.0)) [
      | inl yes' ↦ rw yes' (p, h)
      | inr no' ↦ rw no' (h.0, All-insert_sorted e d p h.1)
    ]

    All-sort : (d : Dict A) → All P d → All P (sort d)
    All-sort [] h = tt
    All-sort (e ∷ d) h = All-insert_sorted e (sort d) h.0 (All-sort d h.1)

  -- The keys of the entries rise strictly.
  abbrev IsRising : Dict A → Type 0
  IsRising [] = Unit
  IsRising (e ∷ d) = All (λ f. e.0 < f.0) d × IsRising d

  above_trans : (a b : ℕ) (d : Dict A) → a < b → All (λ f. b < f.0) d → All (λ f. a < f.0) d
  above_trans a b [] l h = tt
  above_trans a b (f ∷ d) l h = (omega arith, above_trans a b d l h.1)

  insert_sorted-IsRising :
      (e : ℕ × A) (d : Dict A)
      → lookup e.0 d ≡ none
      → IsRising d
      → IsRising (insert_sorted entry_key e d)
  insert_sorted-IsRising e [] n h = (tt, tt)
  insert_sorted-IsRising e (f ∷ d) n h = elim (Bool-cases (leb e.0 f.0)) [
    | inl up ↦ let lt : e.0 < f.0 = ground arith in rw up ((lt, above_trans e.0 f.0 d lt h.0), h)
    | inr down ↦ rw down (
      All-insert_sorted (λ g. f.0 < g.0) e d (ground arith) h.0,
      insert_sorted-IsRising e d (ground arith) h.1,
    )
  ]

  sort-IsRising : (d : Dict A) → IsDict d → IsRising (sort d)
  sort-IsRising [] h = tt
  sort-IsRising (e ∷ d) h =
      insert_sorted-IsRising e (sort d) (lookup-sort e.0 d ∙ h.0) (sort-IsRising d h.1)

  All-values : (P : A → Type 0) (d : Dict A) → All (λ e. P e.1) d → All P (values d)
  All-values P [] h = tt
  All-values P ((j, w) ∷ d) h = (h.0, All-values P d h.1)

  above_values :
      (m : ℕ) (d : Dict A) → IsOwn d → All (λ f. m < f.0) d → All (λ y. m < key y) (values d)
  above_values m [] o h = tt
  above_values m ((j, w) ∷ d) o h = (rw o.0 h.0, above_values m d o.1 h.1)

  values-IsKeyed : (d : Dict A) → IsOwn d → IsRising d → IsKeyed (values d)
  values-IsKeyed [] o h = tt
  values-IsKeyed ((j, w) ∷ d) o h = (rw o.0 (above_values j d o.1 h.0), values-IsKeyed d o.1 h.1)

  insert-All :
      (P : A → Type 0) (k : ℕ) (x : A) (d : Dict A)
      → P x
      → All (λ e. P e.1) d
      → All (λ e. P e.1) (insert k x d)
  insert-All P k x [] p h = (p, tt)
  insert-All P k x ((j, w) ∷ d) p h = elim (Bool-cases (j == k)) [
    | inl same ↦ rw same (p, h.1)
    | inr other ↦ rw other (h.0, insert-All P k x d p h.1)
  ]

  dict_from-All :
      (P : A → Type 0) (d : Dict A) (xs : List A)
      → All (λ e. P e.1) d
      → All P xs
      → All (λ e. P e.1) (dict_from key d xs)
  dict_from-All P d [] h p = h
  dict_from-All P d (x ∷ xs) h p =
      dict_from-All P (insert (key x) x d) xs (insert-All P (key x) x d p.0 h) p.1

  -- `tuple(d[k] for k in sorted(d))` of any dict whose entries stand under their own keys.
  module _ (d : Dict A) (own : IsOwn d) where
    pub sorted_values-IsKeyed : IsDict d → IsKeyed (sorted_values d)
    sorted_values-IsKeyed h =
        values-IsKeyed (sort d) (All-sort (λ e. key e.1 ≡ e.0) d own) (sort-IsRising d h)

    pub get-sorted_values : (k : ℕ) → get k (sorted_values d) ≡ lookup k d
    get-sorted_values k =
        get-values k (sort d) (All-sort (λ e. key e.1 ≡ e.0) d own) ∙ lookup-sort k d

  module _ (x : A) (xs : List A) where
    abbrev entries : Dict A
    entries = insert (key x) x (dict_from key [] xs)

    entries-IsOwn : IsOwn entries
    entries-IsOwn = insert-IsOwn x (dict_from key [] xs) (dict_from-IsOwn [] xs tt)

    entries-IsDict : IsDict entries
    entries-IsDict = insert-IsDict (key x) x (dict_from key [] xs) (dict_from-IsDict [] xs tt)

    -- The result is keyed whatever the tuple was.
    pub upsert-IsKeyed : IsKeyed (upsert key x xs)
    unfolding upsert
    upsert-IsKeyed =
        values-IsKeyed (sort entries) (All-sort (λ e. key e.1 ≡ e.0) entries entries-IsOwn)
          (sort-IsRising entries entries-IsDict)

    pub upsert-All : (P : A → Type 0) → P x → All P xs → All P (upsert key x xs)
    unfolding upsert
    upsert-All P p h = All-values P (sort entries) (
        All-sort (λ e. P e.1) entries
          (insert-All P (key x) x (dict_from key [] xs) p (dict_from-All P [] xs tt h)))

    -- A lookup after an update.
    pub get-upsert :
        (k : ℕ) → IsKeyed xs → get k (upsert key x xs) ≡ (if key x == k then some x else get k xs)
    unfolding upsert
    get-upsert k h = ground (
      arith,
      get-values k (sort entries) (All-sort (λ e. key e.1 ≡ e.0) entries entries-IsOwn),
      lookup-sort k entries,
      lookup-insert (key x) k x (dict_from key [] xs),
      lookup-dict_from k [] xs h,
    )

  -- A value that a search finds is the one under its key.
  pub get-find :
      (p : A → Bool) (xs : List A) {x : A}
      → IsKeyed xs
      → find p xs ≡ some x
      → get (key x) xs ≡ some x
  get-find p [] h e = cc
  get-find p (y ∷ ys) {x} h e = elim (Bool-cases (p y)) [
    | inl hit ↦ (let same : some y ≡ some x = ground arith in ground arith)
    | inr miss ↦
        let found : find p ys ≡ some x = ground arith in
        let later : get (key x) ys ≡ some x = get-find p ys {x = x} h.1 found in
        ground (arith, get_above (key y) ys h.0)
  ]

  skip_first :
      (x : A) (xs ys : List A)
      → All (λ y. key x < key y) ys
      → All (λ y. get (key y) xs ≡ some y) ys
      → All (λ y. get (key y) (x ∷ xs) ≡ some y) ys
  skip_first x xs [] h g = tt
  skip_first x xs (y ∷ ys) h g = (ground (arith, h.0, g.0), skip_first x xs ys h.1 g.1)

  -- Every value of a keyed tuple is found under its key.
  pub get_self : (xs : List A) → IsKeyed xs → All (λ x. get (key x) xs ≡ some x) xs
  get_self [] h = tt
  get_self (x ∷ xs) h = (rw (==_refl (key x)), skip_first x xs xs h.0 (get_self xs h.1))
