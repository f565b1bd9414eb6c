-- ===== src/Simulation/Trades.antt =====
-- What public trades do to one order of src/quantdesk/simulation/queue.py.
use rs_quant.Base.{
  ℕ, ◌+◌, ◌-◌, ◌≤◌, ◌<◌, ◌≡◌, refl, sym, ap, ◌∙◌, arith, Bool, true, not, Option, none, some, List,
  [], ◌∷◌, min, sum, Bool-cases, inl, inr, ◌==◌, ==_iff, ltb, ◌&&◌, if◌then◌else◌, or_else,
}
use rs_quant.Base.Dict.{Dict, IsDict, lookup}
use rs_quant.Core.Types.{Ident}
use rs_quant.Simulation.Queue.{
  QueueState, rests_at, trade_one, keep_order, keep_fill, apply_trade, trades, filled_by, fill_of,
}

abbrev traded : Bool → ℕ → ℕ → Option QueueState → Option QueueState × ℕ
traded is_buy price lots none = (none, 0)
traded is_buy price lots (some o) = trade_one is_buy price lots o

lookup-keep_order :
    (k j : Ident) (m : Option QueueState) (d : Dict QueueState)
    → lookup k (keep_order j m d) ≡ (if j == k then or_else m (lookup k d) else lookup k d)
lookup-keep_order k j none d = ground arith
lookup-keep_order k j (some o) d = refl

fill-keep_fill :
    (k j : Ident) (n : ℕ) (d : Dict ℕ)
    → fill_of (lookup k (keep_fill j n d)) ≡ (if j == k && ltb 0 n then n else fill_of (lookup k d))
fill-keep_fill k j n d = ground arith

or_none : (m : Option QueueState) → or_else m none ≡ m
or_none none = refl
or_none (some o) = refl

module _ (is_buy : Bool) (price lots : ℕ) where
  abbrev Traded : Dict QueueState → Ident → Type 0
  Traded d k =
      (lookup k (apply_trade d is_buy price lots).0 ≡ (traded is_buy price lots (lookup k d)).0)
      × (fill_of (lookup k (apply_trade d is_buy price lots).1)
          ≡ (traded is_buy price lots (lookup k d)).1)

  -- `apply_trade` treats every order by itself.
  trade_lookup : (d : Dict QueueState) (k : Ident) → IsDict d → Traded d k
  unfolding apply_trade
  trade_lookup [] k h = (refl, refl)
  trade_lookup ((j, o) ∷ d) k h = elim (Bool-cases (j == k)) [
    | inl e ↦
        let gone = ap (λ i. lookup i d) (sym ((==_iff j k).0 e)) ∙ h.0 in
        let before = trade_lookup d k h.1 in
        let n = before.0 ∙ ap (λ m. (traded is_buy price lots m).0) gone in
        let z = before.1 ∙ ap (λ m. (traded is_buy price lots m).1) gone in
        rw e (
          lookup-keep_order k j (trade_one is_buy price lots o).0
                (apply_trade d is_buy price lots).0
              ∙ rw (e, n) (or_none (trade_one is_buy price lots o).0),
          fill-keep_fill k j (trade_one is_buy price lots o).1 (apply_trade d is_buy price lots).1
              ∙ rw e (ground (arith, z)),
        )
    | inr e ↦ rw e (
      lookup-keep_order k j (trade_one is_buy price lots o).0 (apply_trade d is_buy price lots).0
          ∙ rw e (trade_lookup d k h.1).0,
      fill-keep_fill k j (trade_one is_buy price lots o).1 (apply_trade d is_buy price lots).1
          ∙ rw e (trade_lookup d k h.1).1,
    )
  ]

  keep_order-IsDict :
      (k : Ident) (m : Option QueueState) (d : Dict QueueState)
      → lookup k d ≡ none
      → IsDict d
      → IsDict (keep_order k m d)
  keep_order-IsDict k none d n h = h
  keep_order-IsDict k (some o) d n h = (n, h)

  apply_trade-IsDict : (d : Dict QueueState) → IsDict d → IsDict (apply_trade d is_buy price lots).0
  unfolding apply_trade
  apply_trade-IsDict [] h = tt
  apply_trade-IsDict ((j, o) ∷ d) h =
      keep_order-IsDict j (trade_one is_buy price lots o).0 (apply_trade d is_buy price lots).0
        ((trade_lookup d j h.1).0 ∙ ap (λ m. (traded is_buy price lots m).0) h.0)
        (apply_trade-IsDict d h.1)

-- An order after `total` lots were traded at its price.
abbrev pub after_trades : QueueState → ℕ → Option QueueState
after_trades o total =
    if ltb total (o.queue_ahead_lots + o.own_remaining_lots)
    then some (record o {
      queue_ahead_lots = o.queue_ahead_lots - total;
      own_remaining_lots = o.own_remaining_lots - (total - o.queue_ahead_lots);
      own_filled_lots = o.own_filled_lots + (total - o.queue_ahead_lots);
    })
    else none

trade_one_lem :
    (is_buy : Bool) (price lots : ℕ) (o : QueueState)
    → rests_at (not is_buy) price o ≡ true
    → 0 < o.own_remaining_lots
    → ((trade_one is_buy price lots o).0 ≡ after_trades o lots)
      × ((trade_one is_buy price lots o).1 ≡ min o.own_remaining_lots (lots - o.queue_ahead_lots))
unfolding trade_one
trade_one_lem is_buy price lots o h r = (ground arith, ground arith)

abbrev moved : QueueState → ℕ → QueueState
moved o total = record o {
  queue_ahead_lots = o.queue_ahead_lots - total;
  own_remaining_lots = o.own_remaining_lots - (total - o.queue_ahead_lots);
  own_filled_lots = o.own_filled_lots + (total - o.queue_ahead_lots);
}

after_none : (o : QueueState) → 0 < o.own_remaining_lots → some o ≡ after_trades o 0
after_none o r = ground arith

after_more :
    (o : QueueState) (t u : ℕ)
    → t < o.queue_ahead_lots + o.own_remaining_lots
    → after_trades (moved o t) u ≡ after_trades o (t + u)
after_more o t u h = ground arith

module _ (is_buy : Bool) (price : ℕ) (k : Ident) where
  gone_lem :
      (d : Dict QueueState) (ts : List ℕ)
      → IsDict d
      → lookup k d ≡ none
      → (lookup k (trades d is_buy price ts) ≡ none) × (filled_by d k is_buy price ts ≡ 0)
  unfolding trades filled_by
  gone_lem d [] h n = (n, refl)
  gone_lem d (t ∷ ts) h n =
      let r = trade_lookup is_buy price t d k h in
      let rest =
        gone_lem (apply_trade d is_buy price t).0 ts (apply_trade-IsDict is_buy price t d h)
          (r.0 ∙ ap (λ m. (traded is_buy price t m).0) n) in
      (rest.0, omega (arith, rest.1, r.1, ap (λ m. (traded is_buy price t m).1) n))

  -- An order with lots left whose price is traded: it is filled from the lots that get past the queue
  -- ahead of it, and only from those, however they are split into trades. It stays, with its queue
  -- and its remaining lots brought down by what was traded, until it is filled completely, and is
  -- then removed.
  pub trades_fill_after_queue :
      (d : Dict QueueState) (o : QueueState) (ts : List ℕ)
      → IsDict d
      → lookup k d ≡ some o
      → rests_at (not is_buy) price o ≡ true
      → 0 < o.own_remaining_lots
      → (lookup k (trades d is_buy price ts) ≡ after_trades o (sum ts))
        × (filled_by d k is_buy price ts ≡ min o.own_remaining_lots (sum ts - o.queue_ahead_lots))
  unfolding trades filled_by
  trades_fill_after_queue d o [] h e a r = (e ∙ after_none o r, omega arith)
  trades_fill_after_queue d o (t ∷ ts) h e a r =
      elim (Bool-cases (ltb t (o.queue_ahead_lots + o.own_remaining_lots))) [
        | inl c ↦
            let small : t < o.queue_ahead_lots + o.own_remaining_lots = ground arith in
            let rest =
              trades_fill_after_queue next (moved o t) ts keeps (first.0 ∙ rw c refl) a
                (ground arith) in
            (rest.0 ∙ after_more o t (sum ts) (ground arith), omega (arith, rest.1, first.1, small))
        | inr c ↦
            let large : o.queue_ahead_lots + o.own_remaining_lots ≤ t = ground arith in
            let rest = gone_lem next ts keeps (first.0 ∙ rw c refl) in
            (rest.0 ∙ ground arith, omega (arith, rest.1, first.1, large))
      ]
    where
      next : Dict QueueState
      next = (apply_trade d is_buy price t).0

      keeps : IsDict next
      keeps = apply_trade-IsDict is_buy price t d h

      first :
          (lookup k next ≡ after_trades o t)
          × (fill_of (lookup k (apply_trade d is_buy price t).1)
              ≡ min o.own_remaining_lots (t - o.queue_ahead_lots))
      first =
          let u = trade_lookup is_buy price t d k h in
          let v = trade_one_lem is_buy price t o a r in
          (
            u.0 ∙ ap (λ m. (traded is_buy price t m).0) e ∙ v.0,
            u.1 ∙ ap (λ m. (traded is_buy price t m).1) e ∙ v.1,
          )
