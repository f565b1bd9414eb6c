-- ===== src/Portfolio/Ledger/Statement.antt =====
-- What the ledger's state says after any events (`Ledger.apply` and `LedgerState.balance` of
-- src/quantdesk/portfolio/ledger.py).
use rs_quant.Base.{◌≡◌, refl, ◌∙◌, List, [], ◌∷◌, Result, ok, raise, All}
use rs_quant.Base.Keyed.{get}
use rs_quant.Core.Types.{Ident, Decimal}
use rs_quant.Portfolio.State.{Account, LedgerState, new_ledger}
use rs_quant.Portfolio.Amounts.{Values, IsDecimal}
use rs_quant.Portfolio.Instruments.{InstrumentSpec}
use rs_quant.Portfolio.Ledger.Facts.{LedgerLibrary, FinancialEvent, LedgerError, LedgerChange}
use rs_quant.Portfolio.Ledger.Book.{balance_key}
use rs_quant.Portfolio.Ledger.Apply.{apply, balance}
use rs_quant.Portfolio.Ledger.Postings.{posted_by, value_of, value-amount}
use rs_quant.Portfolio.Ledger.Balanced.{IsBalanced}
use rs_quant.Portfolio.Ledger.Sums.{StateIsBooked, apply-IsBooked}

-- The state after a call, which one that raises leaves as it was.
abbrev pub state_after : LedgerState → Result LedgerError LedgerChange → LedgerState
state_after s (ok c) = c.state
state_after s (raise e) = s

unfoldable pub run_ledger :
    LedgerLibrary → List InstrumentSpec → List FinancialEvent → LedgerState → LedgerState
unfolding apply
run_ledger py specs [] s = s
run_ledger py specs (fact ∷ facts) s =
    run_ledger py specs facts (state_after s (apply py specs fact s))

module _ (py : LedgerLibrary) (g : Values) (value : Decimal → g.V)
    (h : IsDecimal py.decimals g value) where
  after-IsBooked :
      (s : LedgerState) (r : Result LedgerError LedgerChange)
      → StateIsBooked py g value s
      → ((c : LedgerChange) → r ≡ ok c → StateIsBooked py g value c.state)
      → StateIsBooked py g value (state_after s r)
  after-IsBooked s (ok c) st f = f c refl
  after-IsBooked s (raise e) st f = st

  run-IsBooked :
      (specs : List InstrumentSpec) (facts : List FinancialEvent) (s : LedgerState)
      → StateIsBooked py g value s
      → StateIsBooked py g value (run_ledger py specs facts s)
  unfolding run_ledger
  run-IsBooked specs [] s st = st
  run-IsBooked specs (fact ∷ facts) s st =
      run-IsBooked specs facts (state_after s (apply py specs fact s)) (
        after-IsBooked s (apply py specs fact s) st
          (λ c e. apply-IsBooked py g value h specs fact s st e))

  new-IsBooked : (v e a : Ident) → StateIsBooked py g value (new_ledger v e a)
  unfolding posted_by
  new-IsBooked v e a = record { keyed = tt; summed = λ k. refl; balanced = tt }

  value-balance :
      (account : Account) (asset : Ident) (s : LedgerState)
      → value (balance py account asset s)
        ≡ value_of py g value (get (balance_key py) (py.place account asset) s.balances)
  unfolding balance
  value-balance account asset s =
      value-amount py g value h (get (balance_key py) (py.place account asset) s.balances)

  -- After any events, of which those that raise change nothing, every balance of a ledger that was
  -- new is the exact sum of the postings to its account and asset in all booked transactions.
  pub balance-sums_transactions :
      (specs : List InstrumentSpec) (facts : List FinancialEvent) (v e a : Ident)
      (account : Account) (asset : Ident)
      → (let out = run_ledger py specs facts (new_ledger v e a) in
          value (balance py account asset out)
          ≡ posted_by py g value (py.place account asset) out.transactions)
  balance-sums_transactions specs facts v e a account asset =
      let out = run_ledger py specs facts (new_ledger v e a) in
      value-balance account asset out
      ∙ (run-IsBooked specs facts (new_ledger v e a) (new-IsBooked v e a)).summed
          (py.place account asset)

  -- After any events, every transaction that a new ledger has booked has postings whose debits and
  -- credits cancel exactly in each asset.
  pub transactions-IsBalanced :
      (specs : List InstrumentSpec) (facts : List FinancialEvent) (v e a : Ident)
      → All
          (λ t. IsBalanced py g value t.postings)
          (run_ledger py specs facts (new_ledger v e a)).transactions
  transactions-IsBalanced specs facts v e a =
      (run-IsBooked specs facts (new_ledger v e a) (new-IsBooked v e a)).balanced
