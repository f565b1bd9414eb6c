-- ===== src/Portfolio/Ledger/Postings.antt =====
-- The values of balances under postings (`Ledger.apply` of src/quantdesk/portfolio/ledger.py).
use rs_quant.Base.{
  ℕ, ◌≡◌, refl, sym, ap, ◌∙◌, Bool, true, false, Option, none, some, List, [], ◌∷◌, ◌++◌, ◌==◌,
  if◌then◌else◌, arith,
}
use rs_quant.Base.Dict.{Dict, lookup, insert, dict_from, lookup-insert, IsDict}
use rs_quant.Base.Sort.{sorted_values}
use rs_quant.Base.Keyed.{
  get, IsKeyed, IsOwn, insert-IsOwn, dict_from-IsOwn, dict_from-IsDict, lookup-dict_from,
  sorted_values-IsKeyed, get-sorted_values,
}
use rs_quant.Base.Dict.{insert-IsDict}
use rs_quant.Core.Types.{Decimal}
use rs_quant.Portfolio.State.{Balance, LedgerPosting, LedgerTransaction, zero_decimal}
use rs_quant.Portfolio.Amounts.{Values, total, IsDecimal, exact_sum, exact_sum-IsExact}
use rs_quant.Portfolio.Ledger.Facts.{LedgerLibrary}
use rs_quant.Portfolio.Ledger.Book.{balance_key, amount_at, post}

-- A value under a condition.
abbrev pub when : (g : Values) → Bool → g.V → g.V
when g c v = if c then v else g.zero

module _ (py : LedgerLibrary) (g : Values) (value : Decimal → g.V) where
  -- What postings add to the balance with a key.
  unfoldable pub posted : ℕ → List LedgerPosting → g.V
  posted k [] = g.zero
  posted k (p ∷ ps) =
      g.plus (when g (py.place p.account p.asset == k) (value p.amount)) (posted k ps)

  -- What transactions add to it.
  unfoldable pub posted_by : ℕ → List LedgerTransaction → g.V
  unfolding posted
  posted_by k [] = g.zero
  posted_by k (t ∷ ts) = g.plus (posted k t.postings) (posted_by k ts)

  abbrev pub value_of : Option Balance → g.V
  value_of none = g.zero
  value_of (some b) = value b.amount

  pub zero_plus : (a : g.V) → g.plus g.zero a ≡ a
  zero_plus a = g.plus_comm g.zero a ∙ g.plus_zero a

  pub posted_by-append :
      (k : ℕ) (ts : List LedgerTransaction) (t : LedgerTransaction)
      → posted_by k (ts ++ (t ∷ [])) ≡ g.plus (posted_by k ts) (posted k t.postings)
  unfolding posted_by
  posted_by-append k [] t = g.plus_comm (posted k t.postings) g.zero
  posted_by-append k (u ∷ ts) t =
      ap (g.plus (posted k u.postings)) (posted_by-append k ts t)
      ∙ sym (g.plus_assoc (posted k u.postings) (posted_by k ts) (posted k t.postings))

  module _ (h : IsDecimal py.decimals g value) where
    pub value-amount :
        (o : Option Balance)
        → value (elim o [ none ↦ zero_decimal | some b ↦ b.amount ]) ≡ value_of o
    value-amount none = h.value_zero
    value-amount (some b) = refl

    value-sum_two :
        (a b : Decimal) → value (exact_sum py.decimals (a ∷ b ∷ [])) ≡ g.plus (value a) (value b)
    unfolding total
    value-sum_two a b =
        exact_sum-IsExact py.decimals g value (a ∷ b ∷ []) h
        ∙ ap (g.plus (value a)) (g.plus_zero (value b))

    value-changed :
        (c : Bool) (b : Balance) (o : Option Balance) (v : g.V)
        → (c ≡ true → value b.amount ≡ g.plus (value_of o) v)
        → value_of (if c then some b else o) ≡ g.plus (value_of o) (when g c v)
    value-changed true b o v e = e refl
    value-changed false b o v e = sym (g.plus_zero (value_of o))

    lookup-changed :
        (j k : ℕ) (d : Dict Balance) (b : Balance) (v : g.V)
        → value b.amount ≡ g.plus (value_of (lookup j d)) v
        → value_of (lookup k (insert j b d)) ≡ g.plus (value_of (lookup k d)) (when g (j == k) v)
    lookup-changed j k d b v e =
        ap value_of (lookup-insert j k b d)
        ∙ value-changed (j == k) b (lookup k d) v (λ same.
          (let at : j ≡ k = ground arith in e ∙ ap (λ i. g.plus (value_of (lookup i d)) v) at))

    -- Postings add their amounts to the balances.
    pub lookup-post :
        (k : ℕ) (d : Dict Balance) (ps : List LedgerPosting)
        → value_of (lookup k (post py d ps)) ≡ g.plus (value_of (lookup k d)) (posted k ps)
    unfolding post posted
    lookup-post k d [] = sym (g.plus_zero (value_of (lookup k d)))
    lookup-post k d (p ∷ ps) =
        let j = py.place p.account p.asset in
        let b : Balance = record {
          account = p.account;
          asset = p.asset;
          amount = exact_sum py.decimals (amount_at py j d ∷ p.amount ∷ []);
        } in
        let e : value b.amount ≡ g.plus (value_of (lookup j d)) (value p.amount) =
          value-sum_two (amount_at py j d) p.amount
          ∙ ap (λ v. g.plus v (value p.amount)) (value-amount (lookup j d)) in
        lookup-post k (insert j b d) ps
        ∙ ap (λ v. g.plus v (posted k ps)) (lookup-changed j k d b (value p.amount) e)
        ∙ g.plus_assoc (value_of (lookup k d)) (when g (j == k) (value p.amount)) (posted k ps)

    -- The keys of the dict stay those of its entries.
    post-IsOwn :
        (d : Dict Balance) (ps : List LedgerPosting)
        → IsOwn (balance_key py) d
        → IsOwn (balance_key py) (post py d ps)
    unfolding post
    post-IsOwn d [] o = o
    post-IsOwn d (p ∷ ps) o =
        let b : Balance = record {
          account = p.account;
          asset = p.asset;
          amount =
              exact_sum py.decimals (amount_at py (py.place p.account p.asset) d ∷ p.amount ∷ []);
        } in
        post-IsOwn (insert (balance_key py b) b d) ps (insert-IsOwn (balance_key py) b d o)

    post-IsDict : (d : Dict Balance) (ps : List LedgerPosting) → IsDict d → IsDict (post py d ps)
    unfolding post
    post-IsDict d [] o = o
    post-IsDict d (p ∷ ps) o =
        let b : Balance = record {
          account = p.account;
          asset = p.asset;
          amount =
              exact_sum py.decimals (amount_at py (py.place p.account p.asset) d ∷ p.amount ∷ []);
        } in
        post-IsDict (insert (balance_key py b) b d) ps (insert-IsDict (balance_key py b) b d o)

    module _ (bs : List Balance) (ps : List LedgerPosting) where
      abbrev pub balances_after : List Balance
      balances_after = sorted_values (post py (dict_from (balance_key py) [] bs) ps)

      after-IsOwn : IsOwn (balance_key py) (post py (dict_from (balance_key py) [] bs) ps)
      after-IsOwn =
          post-IsOwn (dict_from (balance_key py) [] bs) ps
            (dict_from-IsOwn (balance_key py) [] bs tt)

      pub balances_after-IsKeyed : IsKeyed (balance_key py) balances_after
      balances_after-IsKeyed =
          sorted_values-IsKeyed (balance_key py) (post py (dict_from (balance_key py) [] bs) ps)
            after-IsOwn
            (post-IsDict (dict_from (balance_key py) [] bs) ps
              (dict_from-IsDict (balance_key py) [] bs tt))

      -- The balances after postings.
      pub get-balances_after :
          (k : ℕ)
          → IsKeyed (balance_key py) bs
          → value_of (get (balance_key py) k balances_after)
            ≡ g.plus (value_of (get (balance_key py) k bs)) (posted k ps)
      get-balances_after k keyed =
          let d = dict_from (balance_key py) [] bs in
          let same : lookup k d ≡ get (balance_key py) k bs =
            ground (arith, lookup-dict_from (balance_key py) k [] bs keyed) in
          ap value_of (get-sorted_values (balance_key py) (post py d ps) after-IsOwn k)
          ∙ lookup-post k d ps
          ∙ ap (λ o. g.plus (value_of o) (posted k ps)) same
