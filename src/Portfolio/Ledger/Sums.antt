-- ===== src/Portfolio/Ledger/Sums.antt =====
-- The balances of the ledger are the sums of its transactions' postings, through any events
-- (`Ledger.apply` of src/quantdesk/portfolio/ledger.py).
use rs_quant.Base.{
  ℕ, ◌≡◌, refl, sym, ap, ◌∙◌, not, ◌||◌, some, List, [], ◌∷◌, ◌++◌, ◌==◌, ok, raise_if, arith, All,
  keep, ltb, >>=-eq-ok, eq_opt,
}
use mathlib.Core.Path.{subst}
use rs_quant.Base.Keyed.{get, IsKeyed}
use rs_quant.Core.Types.{Ident, Decimal, truthy}
use rs_quant.Portfolio.State.{
  Balance, LedgerTransaction, LedgerState, AppliedIdentity, EconomicIdentity, ReservationChanged,
}
use rs_quant.Portfolio.Amounts.{Values, IsDecimal}
use rs_quant.Portfolio.Instruments.{InstrumentSpec}
use rs_quant.Portfolio.Ledger.Facts.{
  LedgerLibrary, FinancialPayload, execution_report, cash_transfer, funding_settlement,
  fee_adjusted, adjustment_approved, Supplement, Header, LedgerChange, LedgerPayload,
  FinancialEvent, financial, observed, passive, reservation, reservation_batch, conversion,
  mark_price, unsupported, repeats, all_truthy, other_scope, disordered, identity_required,
  invalid_aliases, reservation_instrument_mismatch,
}
use rs_quant.Portfolio.Ledger.Evidence.{Evidence, evidence}
use rs_quant.Portfolio.Ledger.Book.{
  balance_key, Effects, effects, transaction_of, booked, book_new, book_identified, apply_financial,
  record_adjustment, assets_named,
}
use rs_quant.Portfolio.Ledger.Known.{book_again, identities_of, matches_any}
use rs_quant.Portfolio.Ledger.Reserve.{apply_reservations}
use rs_quant.Portfolio.Ledger.Observe.{apply_conversion, apply_mark}
use rs_quant.Portfolio.Ledger.Apply.{
  apply, apply_payload, recorded_payload, same_ledger_scope, no_supplement,
}
use rs_quant.Portfolio.Ledger.Postings.{
  posted, posted_by, value_of, posted_by-append, balances_after-IsKeyed, get-balances_after,
}
use rs_quant.Portfolio.Ledger.Balanced.{IsBalanced, evidence-IsBalanced, effects-IsBalanced}

pub All-append :
    {A : Type 0} (P : A → Type 0) (xs : List A) (x : A) → All P xs → P x → All P (xs ++ (x ∷ []))
All-append P [] x h p = (p, tt)
All-append P (y ∷ ys) x h p = (h.0, All-append P ys x h.1 p)

module _ (py : LedgerLibrary) (g : Values) (value : Decimal → g.V) where
  -- The balances are those of the transactions, which all balance.
  pub record IsBooked (bs : List Balance) (ts : List LedgerTransaction) : Type 0 where
    pub keyed : IsKeyed (balance_key py) bs
    pub summed :
        (k : ℕ) → value_of py g value (get (balance_key py) k bs) ≡ posted_by py g value k ts
    pub balanced : All (λ t. IsBalanced py g value t.postings) ts

  abbrev pub StateIsBooked : LedgerState → Type 0
  StateIsBooked s = IsBooked s.balances s.transactions

  same_books :
      (s t : LedgerState)
      → t.balances ≡ s.balances
      → t.transactions ≡ s.transactions
      → StateIsBooked s
      → StateIsBooked t
  same_books s t eb et h =
      subst (λ ts. IsBooked t.balances ts) (sym et)
        (subst (λ bs. IsBooked bs s.transactions) (sym eb) h)

  module _ (h : IsDecimal py.decimals g value) where
    booked-IsBooked :
        (t : LedgerTransaction) (f : Effects py) (fingerprint : Ident) (ids : List EconomicIdentity)
        (s : LedgerState)
        → t.postings ≡ f.postings
        → IsBalanced py g value f.postings
        → StateIsBooked s
        → StateIsBooked (booked py t f fingerprint ids s)
    unfolding booked
    booked-IsBooked t f fingerprint ids s same b st = record {
      keyed = balances_after-IsKeyed py g value h s.balances f.postings;
      summed = λ k.
          get-balances_after py g value h s.balances f.postings k st.keyed
          ∙ ap (λ v. g.plus v (posted py g value k f.postings)) (st.summed k)
          ∙ ap (λ ps. g.plus (posted_by py g value k s.transactions) (posted py g value k ps))
              (sym same)
          ∙ sym (posted_by-append py g value k s.transactions t);
      balanced =
          All-append (λ u. IsBalanced py g value u.postings) s.transactions t st.balanced
            (subst (IsBalanced py g value) (sym same) b);
    }

    adjusted-IsBooked :
        (p : FinancialPayload) (extra : Supplement) (id : Ident) (s : LedgerState)
        → StateIsBooked s
        → StateIsBooked (record_adjustment py p extra id s)
    unfolding record_adjustment
    adjusted-IsBooked (execution_report p) extra id s st = st
    adjusted-IsBooked (cash_transfer p) extra id s st = st
    adjusted-IsBooked (funding_settlement p) extra id s st = st
    adjusted-IsBooked (fee_adjusted p) extra id s st = st
    adjusted-IsBooked (adjustment_approved p) extra id s st =
        same_books s (record_adjustment py (adjustment_approved p) extra id s) refl refl st

    book_new-IsBooked :
        (specs : List InstrumentSpec) (event : Header) (p : FinancialPayload) (extra : Supplement)
        (e : Evidence) (fingerprint : Ident) (i : EconomicIdentity) (is : List EconomicIdentity)
        (s : LedgerState) {c : LedgerChange}
        → IsBalanced py g value e.postings
        → StateIsBooked s
        → book_new py specs event p extra e fingerprint i is s ≡ ok c
        → StateIsBooked c.state
    unfolding book_new
    book_new-IsBooked specs event p extra e fingerprint i is s {c} b st eq =
        let (f, x, y) = >>=-eq-ok (effects py specs event p e s) _ eq in
        let t = transaction_of py event e f i is in
        let new = booked py t f fingerprint (i ∷ is) s in
        let same : c.state ≡ record_adjustment py p extra t.transaction_id new = ground arith in
        subst StateIsBooked (sym same) (
          adjusted-IsBooked p extra t.transaction_id new (
            booked-IsBooked t f fingerprint (i ∷ is) s refl
              (effects-IsBalanced py g value h specs event p e s b x) st))

    book_again-same :
        (event : Header) (fingerprint : Ident) (ids : List EconomicIdentity) (r : AppliedIdentity)
        (rs : List AppliedIdentity) (s : LedgerState) {c : LedgerChange}
        → book_again event fingerprint ids r rs s ≡ ok c
        → (c.state.balances ≡ s.balances) × (c.state.transactions ≡ s.transactions)
    unfolding book_again
    book_again-same event fingerprint ids r rs s {c} eq = ground arith

    identified-IsBooked :
        (specs : List InstrumentSpec) (event : Header) (p : FinancialPayload) (extra : Supplement)
        (e : Evidence) (fingerprint : Ident) (is : List EconomicIdentity)
        (rs : List AppliedIdentity) (s : LedgerState) {c : LedgerChange}
        → IsBalanced py g value e.postings
        → StateIsBooked s
        → book_identified py specs event p extra e fingerprint is rs s ≡ ok c
        → StateIsBooked c.state
    unfolding book_identified
    identified-IsBooked specs event p extra e fingerprint is (r ∷ rs) s {c} b st eq =
        let (x, y) = book_again-same event fingerprint is r rs s eq in same_books s c.state x y st
    identified-IsBooked specs event p extra e fingerprint [] [] s b st eq = cc
    identified-IsBooked specs event p extra e fingerprint (i ∷ is) [] s b st eq =
        book_new-IsBooked specs event p extra e fingerprint i is s b st eq

    financial-IsBooked :
        (specs : List InstrumentSpec) (event : Header) (p : FinancialPayload) (extra : Supplement)
        (s : LedgerState) {c : LedgerChange}
        → StateIsBooked s
        → apply_financial py specs event p extra s ≡ ok c
        → StateIsBooked c.state
    unfolding apply_financial
    financial-IsBooked specs event p extra s {c} st eq =
        let (e, x, y) = >>=-eq-ok (evidence py event p extra s) _ eq in
        let (u, x', y') =
          >>=-eq-ok
            (raise_if (not (truthy e.native) || not (assets_named py e.postings)) identity_required)
            _ y in
        let (u', x'', y'') =
          >>=-eq-ok
            (raise_if (not (all_truthy extra.aliases) || repeats (e.native ∷ extra.aliases))
              invalid_aliases)
            _ y' in
        let ids = identities_of s e extra.aliases in
        identified-IsBooked specs event p extra e _ ids (keep (matches_any ids) s.identities) s
          (evidence-IsBalanced py g value h event p extra s x) st y''

    reserved_books :
        (instrument : Ident) (rs : List ReservationChanged) (s : LedgerState) {c : LedgerChange}
        → apply_reservations py instrument rs s ≡ ok c
        → (c.state.balances ≡ s.balances) × (c.state.transactions ≡ s.transactions)
    unfolding apply_reservations
    reserved_books instrument rs s {c} eq = ground arith

    payload-IsBooked :
        (specs : List InstrumentSpec) (event : Header) (p : LedgerPayload) (s : LedgerState)
        {c : LedgerChange}
        → StateIsBooked s
        → apply_payload py specs event p s ≡ ok c
        → StateIsBooked c.state
    unfolding apply_payload apply_conversion apply_mark
    payload-IsBooked specs event (financial p) s st eq =
        financial-IsBooked specs event p no_supplement s st eq
    payload-IsBooked specs event (observed p extra) s st eq =
        financial-IsBooked specs event p extra s st eq
    payload-IsBooked specs event passive s {c} st eq =
        same_books s c.state (ground arith) (ground arith) st
    payload-IsBooked specs event (reservation r) s {c} st eq =
        let (u, x, y) =
          >>=-eq-ok
            (raise_if (not (eq_opt event.instrument_id (some r.instrument_id)))
              reservation_instrument_mismatch)
            (λ x. apply_reservations py r.instrument_id (r ∷ []) s) eq in
        let (a, b) = reserved_books r.instrument_id (r ∷ []) s y in same_books s c.state a b st
    payload-IsBooked specs event (reservation_batch i rs) s {c} st eq =
        let (u, x, y) =
          >>=-eq-ok
            (raise_if (not (eq_opt event.instrument_id (some i))) reservation_instrument_mismatch)
            (λ x. apply_reservations py i rs s) eq in
        let (a, b) = reserved_books i rs s y in same_books s c.state a b st
    payload-IsBooked specs event (conversion r) s {c} st eq =
        same_books s c.state (ground arith) (ground arith) st
    payload-IsBooked specs event (mark_price m) s {c} st eq =
        same_books s c.state (ground arith) (ground arith) st
    payload-IsBooked specs event unsupported s st eq = cc

    pub apply-IsBooked :
        (specs : List InstrumentSpec) (fact : FinancialEvent) (s : LedgerState) {c : LedgerChange}
        → StateIsBooked s
        → apply py specs fact s ≡ ok c
        → StateIsBooked c.state
    unfolding apply
    apply-IsBooked specs fact s {c} st eq =
        let (p, x, y) = >>=-eq-ok (recorded_payload fact.payload fact.supplement) _ eq in
        let (u, x', y') =
          >>=-eq-ok (raise_if (not (same_ledger_scope fact.header s)) other_scope) _ y in
        let (u', x'', y'') =
          >>=-eq-ok
            (raise_if
              (ltb fact.header.available_ns s.available_ns
                || fact.header.engine_seq == 0
                || not (truthy fact.header.event_id))
              disordered)
            _ y' in
        payload-IsBooked specs fact.header p (record s { available_ns = fact.header.available_ns })
          st y''
