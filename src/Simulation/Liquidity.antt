-- ===== src/Simulation/Liquidity.antt =====
-- `LiquidityBudget` of src/quantdesk/simulation/liquidity.py: displayed lots are given out once.
use rs_quant.Base.{
  same_bool, ℕ, ◌+◌, ◌-◌, ◌≡◌, refl, sym, ap, ◌∙◌, arith, Bool, true, false, Option, none, some,
  List, [], ◌∷◌, All, min, Bool-cases, inl, inr, ==_iff, if_both, ◌==◌, ltb, ◌&&◌, if◌then◌else◌,
}
use rs_quant.Base.Dict.{Dict, lookup, insert, erase, lookup-insert}

pub record LiquidityBudget : Type 0 where
  pub consumed_bids : Dict ℕ
  pub consumed_asks : Dict ℕ

abbrev pub new_budget : LiquidityBudget
new_budget = record { consumed_bids = []; consumed_asks = [] }

-- `for price, _size in levels: if price in d: del d[price]`
unfoldable pub release : Dict ℕ → List (ℕ × ℕ) → Dict ℕ
release d [] = d
release d (l ∷ ls) = release (erase l.0 d) ls

unfoldable pub apply_book_update :
    LiquidityBudget → List (ℕ × ℕ) → List (ℕ × ℕ) → Bool → LiquidityBudget
unfolding release
apply_book_update b bids asks true = new_budget
apply_book_update b bids asks false = record {
  consumed_bids = release b.consumed_bids bids;
  consumed_asks = release b.consumed_asks asks;
}

-- `consumed_asks if is_buy else consumed_bids`
abbrev pub consumed : LiquidityBudget → Bool → Dict ℕ
consumed b true = b.consumed_asks
consumed b false = b.consumed_bids

abbrev pub put_consumed : LiquidityBudget → Bool → Dict ℕ → LiquidityBudget
put_consumed b true d = record b { consumed_asks = d }
put_consumed b false d = record b { consumed_bids = d }

abbrev pub get_or_zero : Option ℕ → ℕ
get_or_zero none = 0
get_or_zero (some n) = n

pub record Consumption : Type 0 where
  pub is_buy : Bool
  pub price_ticks : ℕ
  pub requested_lots : ℕ
  pub available_lots : ℕ

unfoldable pub try_consume : LiquidityBudget → Consumption → LiquidityBudget × ℕ
try_consume b c =
    let already = get_or_zero (lookup c.price_ticks (consumed b c.is_buy)) in
    let fillable = min c.requested_lots (c.available_lots - already) in
    if ltb 0 fillable
    then (
      put_consumed b c.is_buy (insert c.price_ticks (already + fillable) (consumed b c.is_buy)),
      fillable,
    )
    else (b, fillable)

abbrev pub is_at : Bool → ℕ → Consumption → Bool
is_at side price c = same_bool side c.is_buy && price == c.price_ticks

-- The lots given out and asked for at one price of one side, over a sequence of calls.
unfoldable pub filled_at : Bool → ℕ → LiquidityBudget → List Consumption → ℕ
filled_at side price b [] = 0
filled_at side price b (c ∷ cs) =
    let r = try_consume b c in
    let rest = filled_at side price r.0 cs in (if is_at side price c then r.1 else 0) + rest

unfoldable pub requested_at : Bool → ℕ → List Consumption → ℕ
requested_at side price [] = 0
requested_at side price (c ∷ cs) =
    let rest = requested_at side price cs in
    (if is_at side price c then c.requested_lots else 0) + rest

abbrev pub held : Bool → ℕ → LiquidityBudget → ℕ
held side price b = get_or_zero (lookup price (consumed b side))

held-put :
    (side s : Bool) (price p v : ℕ) (b : LiquidityBudget)
    → held side price (put_consumed b s (insert p v (consumed b s)))
      ≡ (if same_bool side s && price == p then v else held side price b)
held-put true true price p v b = ground (arith, lookup-insert p price v b.consumed_asks)
held-put false false price p v b = ground (arith, lookup-insert p price v b.consumed_bids)
held-put true false price p v b = refl
held-put false true price p v b = refl

held_here :
    (side s : Bool) (price p : ℕ) (b : LiquidityBudget)
    → (same_bool side s && price == p) ≡ true
    → held side price b ≡ held s p b
held_here true true price p b h = ap (λ k. held true k b) ((==_iff price p).0 h)
held_here false false price p b h = ap (λ k. held false k b) ((==_iff price p).0 h)
held_here true false price p b h = cc
held_here false true price p b h = cc

abbrev fillable_at : LiquidityBudget → Consumption → ℕ
fillable_at b c = min c.requested_lots (c.available_lots - held c.is_buy c.price_ticks b)

given_lem : (b : LiquidityBudget) (c : Consumption) → (try_consume b c).1 ≡ fillable_at b c
unfolding try_consume
given_lem b c = elim (Bool-cases (ltb 0 (fillable_at b c))) [
  | inl e ↦ rw e refl
  | inr e ↦ rw e refl
]

-- A call adds what it gives to what is held at its price, and nothing elsewhere.
held_after :
    (side : Bool) (price : ℕ) (b : LiquidityBudget) (c : Consumption)
    → held side price (try_consume b c).0
      ≡ held side price b + (if is_at side price c then fillable_at b c else 0)
unfolding try_consume
held_after side price b c = elim (Bool-cases (ltb 0 (fillable_at b c))) [
  | inl e ↦ rw e (
      held-put side c.is_buy price c.price_ticks (held c.is_buy c.price_ticks b + fillable_at b c) b
      ∙ added)
  | inr e ↦ rw e (omega (arith, nothing e))
]
  where
    added :
        (if is_at side price c
          then held c.is_buy c.price_ticks b + fillable_at b c
          else held side price b)
        ≡ held side price b + (if is_at side price c then fillable_at b c else 0)
    added = elim (Bool-cases (is_at side price c)) [
      | inl e ↦
          rw e
            (ap (λ n. n + fillable_at b c) (sym (held_here side c.is_buy price c.price_ticks b e)))
      | inr e ↦ rw e (omega arith)
    ]

    nothing :
        ltb 0 (fillable_at b c) ≡ false → (if is_at side price c then fillable_at b c else 0) ≡ 0
    nothing z = if_both (λ n. n ≡ 0) (is_at side price c) (fillable_at b c) 0 (ground arith) refl

-- Every call at one price of one side shows the same displayed lots.
abbrev pub ShowsAt : Bool → ℕ → ℕ → Consumption → Type 0
ShowsAt side price shown c = is_at side price c ≡ true → c.available_lots ≡ shown

-- Between two updates of the book, calls that see the same displayed lots at a price are given, all
-- together, just what they ask for, up to the displayed lots that earlier calls have left; calls at
-- other prices and on the other side make no difference.
pub filled_at_once :
    (side : Bool) (price shown : ℕ) (b : LiquidityBudget) (cs : List Consumption)
    → All (ShowsAt side price shown) cs
    → filled_at side price b cs ≡ min (requested_at side price cs) (shown - held side price b)
unfolding filled_at requested_at
filled_at_once side price shown b [] h = omega arith
filled_at_once side price shown b (c ∷ cs) h = elim (Bool-cases (is_at side price c)) [
  | inl e ↦ rw e (
      omega (
        arith,
        filled_at_once side price shown (try_consume b c).0 cs h.1,
        given_lem b c,
        here e,
        h.0 e,
        held_here side c.is_buy price c.price_ticks b e,
      ))
  | inr e ↦
      rw e (omega (arith, filled_at_once side price shown (try_consume b c).0 cs h.1, elsewhere e))
]
  where
    here :
        is_at side price c ≡ true
        → held side price (try_consume b c).0 ≡ held side price b + fillable_at b c
    here e = held_after side price b c ∙ rw e refl

    elsewhere : is_at side price c ≡ false → held side price (try_consume b c).0 ≡ held side price b
    elsewhere e = held_after side price b c ∙ rw e (omega arith)
