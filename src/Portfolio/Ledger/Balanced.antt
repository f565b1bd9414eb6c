-- ===== src/Portfolio/Ledger/Balanced.antt =====
-- Every transaction of the ledger balances, and the balances are the sums of the transactions'
-- postings (`Ledger.apply` of src/quantdesk/portfolio/ledger.py).
use rs_quant.Base.{◌≡◌, sym, ap, ◌∙◌, Bool, true, false, List, [], ◌∷◌, ◌++◌, ◌==◌, ok, arith}
use rs_quant.Base.{>>=-eq-ok}
use mathlib.Core.Path.{subst}
use rs_quant.Core.Types.{Ident, Decimal, ExecutionReport}
use rs_quant.Portfolio.State.{
  Account, realized_pnl, trading_fees, external, funding_income, adjustments, LedgerPosting,
  LedgerState,
}
use rs_quant.Portfolio.Amounts.{Values, IsDecimal}
use rs_quant.Portfolio.Instruments.{InstrumentSpec}
use rs_quant.Portfolio.Ledger.Facts.{
  LedgerLibrary, FinancialPayload, execution_report, cash_transfer, funding_settlement,
  fee_adjusted, adjustment_approved, Supplement, FeeAdjustment, CashTransfer, FundingSettlement,
  LedgerAdjustmentApproved, Header,
}
use rs_quant.Portfolio.Ledger.Evidence.{
  Evidence, evidence, pair, execution_evidence, transfer_evidence, funding_evidence, fee_evidence,
  adjustment_evidence, transferred,
}
use rs_quant.Portfolio.Ledger.Book.{Effects, effects, fill_position}
use rs_quant.Portfolio.Ledger.Postings.{when, zero_plus}

module _ (py : LedgerLibrary) (g : Values) (value : Decimal → g.V) where
  -- The debits less the credits of an asset.
  unfoldable pub net : Ident → List LedgerPosting → g.V
  net asset [] = g.zero
  net asset (p ∷ ps) = g.plus (when g (p.asset == asset) (value p.amount)) (net asset ps)

  unfoldable pub IsBalanced : List LedgerPosting → Type 0
  unfolding net
  IsBalanced ps = (asset : Ident) → net asset ps ≡ g.zero

  net-append :
      (asset : Ident) (ps qs : List LedgerPosting)
      → net asset (ps ++ qs) ≡ g.plus (net asset ps) (net asset qs)
  unfolding net
  net-append asset [] qs = sym (zero_plus py g value (net asset qs))
  net-append asset (p ∷ ps) qs =
      ap (g.plus (when g (p.asset == asset) (value p.amount))) (net-append asset ps qs)
      ∙ sym
          (g.plus_assoc (when g (p.asset == asset) (value p.amount)) (net asset ps) (net asset qs))

  append-IsBalanced :
      (ps qs : List LedgerPosting) → IsBalanced ps → IsBalanced qs → IsBalanced (ps ++ qs)
  unfolding IsBalanced
  append-IsBalanced ps qs hp hq asset =
      net-append asset ps qs
      ∙ ap (λ v. g.plus v (net asset qs)) (hp asset)
      ∙ zero_plus py g value (net asset qs)
      ∙ hq asset

  module _ (h : IsDecimal py.decimals g value) where
    cancels :
        (c : Bool) (d : Decimal)
        → g.plus (when g c (value d)) (g.plus (when g c (value (py.decimals.negate d))) g.zero)
          ≡ g.zero
    cancels false d = zero_plus py g value (g.plus g.zero g.zero) ∙ g.plus_zero g.zero
    cancels true d =
        ap (g.plus (value d)) (g.plus_zero (value (py.decimals.negate d)) ∙ h.value_negate d)
        ∙ g.plus_minus (value d)

    pair-IsBalanced : (asset : Ident) (d : Decimal) (a : Account) → IsBalanced (pair py asset d a)
    unfolding IsBalanced net pair
    pair-IsBalanced asset d a other = cancels (asset == other) d

    execution_pair :
        (event : Header) (p : ExecutionReport) {e : Evidence}
        → execution_evidence py event p ≡ ok e
        → e.postings ≡ pair py p.fee_currency (py.decimals.negate p.fee_amount) trading_fees
    unfolding execution_evidence
    execution_pair event p {e} eq = ground arith

    fee_pair :
        (event : Header) (p : FeeAdjustment) (s : LedgerState) {e : Evidence}
        → fee_evidence py event p s ≡ ok e
        → e.postings ≡ pair py p.asset (py.decimals.negate p.amount) trading_fees
    unfolding fee_evidence
    fee_pair event p s {e} eq = ground arith

    transfer_pair :
        (p : CashTransfer) {e : Evidence}
        → transfer_evidence py p ≡ ok e
        → e.postings ≡ pair py p.asset (transferred py p.direction p.amount) external
    unfolding transfer_evidence
    transfer_pair p {e} eq = ground arith

    funding_pair :
        (event : Header) (p : FundingSettlement) {e : Evidence}
        → funding_evidence py event p ≡ ok e
        → e.postings ≡ pair py p.asset p.amount funding_income
    unfolding funding_evidence
    funding_pair event p {e} eq = ground arith

    adjustment_pair :
        (event : Header) (p : LedgerAdjustmentApproved) (extra : Supplement) {e : Evidence}
        → adjustment_evidence py event p extra ≡ ok e
        → e.postings ≡ pair py p.asset p.amount adjustments
    unfolding adjustment_evidence
    adjustment_pair event p extra {e} eq = ground arith

    paired-IsBalanced :
        (asset : Ident) (d : Decimal) (a : Account) {ps : List LedgerPosting}
        → ps ≡ pair py asset d a
        → IsBalanced ps
    paired-IsBalanced asset d a eq = subst IsBalanced (sym eq) (pair-IsBalanced asset d a)

    pub evidence-IsBalanced :
        (event : Header) (p : FinancialPayload) (extra : Supplement) (s : LedgerState)
        {e : Evidence}
        → evidence py event p extra s ≡ ok e
        → IsBalanced e.postings
    unfolding evidence
    evidence-IsBalanced event (execution_report p) extra s eq =
        paired-IsBalanced p.fee_currency (py.decimals.negate p.fee_amount) trading_fees
          (execution_pair event p eq)
    evidence-IsBalanced event (cash_transfer p) extra s eq =
        paired-IsBalanced p.asset (transferred py p.direction p.amount) external
          (transfer_pair p eq)
    evidence-IsBalanced event (funding_settlement p) extra s eq =
        paired-IsBalanced p.asset p.amount funding_income (funding_pair event p eq)
    evidence-IsBalanced event (fee_adjusted p) extra s eq =
        paired-IsBalanced p.asset (py.decimals.negate p.amount) trading_fees (fee_pair event p s eq)
    evidence-IsBalanced event (adjustment_approved p) extra s eq =
        paired-IsBalanced p.asset p.amount adjustments (adjustment_pair event p extra eq)

    pub effects-IsBalanced :
        (specs : List InstrumentSpec) (event : Header) (p : FinancialPayload) (e : Evidence)
        (s : LedgerState) {f : Effects py}
        → IsBalanced e.postings
        → effects py specs event p e s ≡ ok f
        → IsBalanced f.postings
    unfolding effects
    effects-IsBalanced specs event (execution_report p) e s {f} b eq =
        let (done, x, y) =
          >>=-eq-ok (fill_position py specs event p e.instrument s)
            (λ done. ok (record {
              postings = pair py py.usdt done.realized realized_pnl ++ e.postings;
              position_updates = done.position ∷ [];
              position_legs = done.legs;
            }))
            eq in
        let same : f.postings ≡ pair py py.usdt done.realized realized_pnl ++ e.postings =
          ground arith in
        subst IsBalanced (sym same) (
          append-IsBalanced (pair py py.usdt done.realized realized_pnl) e.postings
            (pair-IsBalanced py.usdt done.realized realized_pnl) b)
    effects-IsBalanced specs event (cash_transfer p) e s {f} b eq =
        subst IsBalanced (ground arith) b
    effects-IsBalanced specs event (funding_settlement p) e s {f} b eq =
        subst IsBalanced (ground arith) b
    effects-IsBalanced specs event (fee_adjusted p) e s {f} b eq = subst IsBalanced (ground arith) b
    effects-IsBalanced specs event (adjustment_approved p) e s {f} b eq =
        subst IsBalanced (ground arith) b
