-- ===== src/Simulation/Queue.antt =====
-- `QueueEstimator` of src/quantdesk/simulation/queue.py: the place of resting orders in the queue of
-- their price. The reduction that rounds a float, `round(reduction_lots * fraction)`, is a parameter.
use rs_quant.Base.{
  same_bool, ℕ, ◌+◌, ◌-◌, Bool, not, Option, none, some, List, [], ◌∷◌, min, ◌==◌, leb, ltb, ◌&&◌,
  ◌||◌, if◌then◌else◌,
}
use rs_quant.Base.Dict.{Dict, lookup, insert, erase}
use rs_quant.Core.Types.{Ident}

pub record QueueState : Type 0 where
  pub order_id : Ident
  pub price_ticks : ℕ
  pub is_buy : Bool
  pub queue_ahead_lots : ℕ
  pub own_remaining_lots : ℕ
  pub own_filled_lots : ℕ

abbrev pub rests_at : Bool → ℕ → QueueState → Bool
rests_at is_buy price o = same_bool o.is_buy is_buy && o.price_ticks == price

-- The sum of `own_remaining_lots` of our own orders at the price.
unfoldable pub simulated_ahead : Bool → ℕ → Dict QueueState → ℕ
simulated_ahead is_buy price [] = 0
simulated_ahead is_buy price ((k, o) ∷ d) =
    let rest = simulated_ahead is_buy price d in
    (if rests_at is_buy price o then o.own_remaining_lots else 0) + rest

unfoldable pub add_order : Dict QueueState → Ident → Bool → ℕ → ℕ → ℕ → Dict QueueState
unfolding simulated_ahead
add_order d order_id is_buy price lots displayed =
    insert order_id
      (record {
        order_id = order_id;
        price_ticks = price;
        is_buy = is_buy;
        queue_ahead_lots = displayed + simulated_ahead is_buy price d;
        own_remaining_lots = lots;
        own_filled_lots = 0;
      })
      d

unfoldable pub cancel_order : Dict QueueState → Ident → Dict QueueState × ℕ
cancel_order d order_id = elim (lookup order_id d) [
  | none ↦ (d, 0)
  | some o ↦ (erase order_id d, o.own_remaining_lots)
]

-- One order's part of `apply_trade`: the order that is left, if it is, and its new fill.
unfoldable pub trade_one : Bool → ℕ → ℕ → QueueState → Option QueueState × ℕ
trade_one is_buy price lots o =
    let reaching = lots - o.queue_ahead_lots in
    let fill = min o.own_remaining_lots reaching in
    if not (rests_at (not is_buy) price o)
    then (some o, 0)
    else if leb lots o.queue_ahead_lots
    then (some (record o { queue_ahead_lots = o.queue_ahead_lots - lots }), 0)
    else if o.own_remaining_lots - fill == 0
    then (none, fill)
    else (
      some (record o {
        queue_ahead_lots = 0;
        own_remaining_lots = o.own_remaining_lots - fill;
        own_filled_lots = o.own_filled_lots + fill;
      }),
      fill,
    )

abbrev pub keep_order : Ident → Option QueueState → Dict QueueState → Dict QueueState
keep_order k none d = d
keep_order k (some o) d = (k, o) ∷ d

abbrev pub keep_fill : Ident → ℕ → Dict ℕ → Dict ℕ
keep_fill k fill fs = if ltb 0 fill then (k, fill) ∷ fs else fs

unfoldable pub apply_trade : Dict QueueState → Bool → ℕ → ℕ → Dict QueueState × Dict ℕ
unfolding trade_one
apply_trade [] is_buy price lots = ([], [])
apply_trade ((k, o) ∷ d) is_buy price lots =
    let rest = apply_trade d is_buy price lots in
    let r = trade_one is_buy price lots o in (keep_order k r.0 rest.0, keep_fill k r.1 rest.1)

-- `round(reduction_lots * min(1.0, ahead / depth))`
module _ (rounded : ℕ → ℕ → ℕ → ℕ) where
  unfoldable pub reduce_one : Bool → ℕ → ℕ → ℕ → QueueState → QueueState
  reduce_one is_buy price reduction depth o =
      if rests_at is_buy price o && ltb 0 o.queue_ahead_lots
      then record o {
        queue_ahead_lots = o.queue_ahead_lots - rounded reduction o.queue_ahead_lots depth;
      }
      else o

  unfoldable pub reduce_all : Dict QueueState → Bool → ℕ → ℕ → ℕ → Dict QueueState
  unfolding reduce_one
  reduce_all [] is_buy price reduction depth = []
  reduce_all ((k, o) ∷ d) is_buy price reduction depth =
      (k, reduce_one is_buy price reduction depth o) ∷ reduce_all d is_buy price reduction depth

  unfoldable pub apply_book_depth_reduction :
      Dict QueueState → Bool → ℕ → ℕ → ℕ → Bool → Dict QueueState
  unfolding reduce_all
  apply_book_depth_reduction d is_buy price reduction depth proportional =
      if not proportional || reduction == 0 || depth == 0
      then d
      else reduce_all d is_buy price reduction depth

-- Public trades at one price, and the lots that the order `k` is filled with over all of them.
unfoldable pub trades : Dict QueueState → Bool → ℕ → List ℕ → Dict QueueState
unfolding apply_trade
trades d is_buy price [] = d
trades d is_buy price (lots ∷ ts) = trades (apply_trade d is_buy price lots).0 is_buy price ts

abbrev pub fill_of : Option ℕ → ℕ
fill_of none = 0
fill_of (some n) = n

unfoldable pub filled_by : Dict QueueState → Ident → Bool → ℕ → List ℕ → ℕ
unfolding apply_trade
filled_by d k is_buy price [] = 0
filled_by d k is_buy price (lots ∷ ts) =
    let r = apply_trade d is_buy price lots in
    fill_of (lookup k r.1) + filled_by r.0 k is_buy price ts
