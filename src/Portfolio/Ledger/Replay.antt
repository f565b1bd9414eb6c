-- ===== src/Portfolio/Ledger/Replay.antt =====
-- A financial event that was accepted once is a duplicate when it comes again
-- (`Ledger.apply` of src/quantdesk/portfolio/ledger.py).
use rs_quant.Base.{
  ◌≡◌, refl, sym, ap, ◌∙◌, Bool, true, not, ◌||◌, some, List, [], ◌∷◌, ◌++◌, ◌==◌, ok, raise_if,
  or_raise, map, arith, All, keep, find, >>=-eq-ok, All-map,
}
use mathlib.Core.Path.{subst}
use rs_quant.Base.Ensures.{guarded-ok, or_raise-ok}
use rs_quant.Core.Types.{Ident, truthy}
use rs_quant.Portfolio.State.{EconomicIdentity, AppliedIdentity, LedgerTransaction, LedgerState}
use rs_quant.Portfolio.Instruments.{InstrumentSpec}
use rs_quant.Portfolio.Ledger.Facts.{
  LedgerLibrary, LedgerChange, only_state, Header, FinancialPayload, execution_report,
  cash_transfer, funding_settlement, fee_adjusted, adjustment_approved, Supplement, FeeAdjustment,
  unknown_execution, missing_transaction, invalid_fee_correction, conflicting_duplicate,
}
use rs_quant.Portfolio.Ledger.Evidence.{Evidence, fee_evidence, has_identity, corrected_execution}
use rs_quant.Portfolio.Ledger.Book.{
  book_new, book_identified, booked, record_adjustment, effects, transaction_of,
}
use rs_quant.Portfolio.Ledger.Known.{
  matches_any, is_recorded, applied, alias_update, all_agree, book_again,
}
use rs_quant.Portfolio.Ledger.Matches.{
  keep_none, keep_each, additions, extended, keep-extended, each_recorded, extended-agree,
}

append_nil : {A : Type 0} (xs : List A) → xs ≡ xs ++ []
append_nil [] = refl
append_nil (x ∷ xs) = ap (λ ys. x ∷ ys) (append_nil xs)

-- What a booking keeps and extends; `rs` are the records that matched.
pub record Extends (s out : LedgerState) (ids : List EconomicIdentity) (fingerprint : Ident)
    (rs : List AppliedIdentity) : Type 0 where
  pub same_venue : out.venue ≡ s.venue
  pub same_environment : out.environment ≡ s.environment
  pub same_account : out.account ≡ s.account
  pub same_time : out.available_ns ≡ s.available_ns
  pub more : List LedgerTransaction
  pub grown : out.transactions ≡ s.transactions ++ more
  pub tid : Ident
  pub recorded :
      out.identities
      ≡ s.identities ++ map (applied fingerprint tid) (additions fingerprint tid rs ids)
  pub agree : all_agree fingerprint tid rs ≡ true

again-Extends :
    (event : Header) (fingerprint : Ident) (ids : List EconomicIdentity) (r : AppliedIdentity)
    (rs : List AppliedIdentity) (s : LedgerState) {c : LedgerChange}
    → book_again event fingerprint ids r rs s ≡ ok c
    → Extends s c.state ids fingerprint (r ∷ rs)
unfolding book_again
again-Extends event fingerprint ids r rs s {c} eq =
    let (agreed, same) =
      guarded-ok (not (all_agree fingerprint r.transaction_id (r ∷ rs))) conflicting_duplicate _
        eq in
    record {
      same_venue = ap (λ d. d.state.venue) same;
      same_environment = ap (λ d. d.state.environment) same;
      same_account = ap (λ d. d.state.account) same;
      same_time = ap (λ d. d.state.available_ns) same;
      more = [];
      grown = ap (λ d. d.state.transactions) same ∙ append_nil s.transactions;
      tid = r.transaction_id;
      recorded = ap (λ d. d.state.identities) same;
      agree = ground arith;
    }

nothing_added :
    (event : Header) (fingerprint tid : Ident) (s : LedgerState) (xs : List EconomicIdentity)
    → xs ≡ []
    → Path LedgerChange
        (record {
          state = record s { identities = s.identities ++ map (applied fingerprint tid) xs };
          transactions = [];
          position_updates = [];
          position_legs = [];
          duplicate = true;
          alias_updates = map (alias_update event.event_id tid) xs;
        })
        (only_state true s)
nothing_added event fingerprint tid s [] e =
    ap (λ is. only_state true (record s { identities = is })) (sym (append_nil s.identities))
nothing_added event fingerprint tid s (x ∷ xs) e = cc

module _ (py : LedgerLibrary) where
  abbrev Kept : LedgerState → LedgerState → Type 0
  Kept s t =
      (t.venue ≡ s.venue)
      × (t.environment ≡ s.environment)
      × (t.account ≡ s.account)
      × (t.available_ns ≡ s.available_ns)
      × (t.transactions ≡ s.transactions)
      × (t.identities ≡ s.identities)

  adjusted-Kept :
      (p : FinancialPayload) (extra : Supplement) (id : Ident) (s : LedgerState)
      → Kept s (record_adjustment py p extra id s)
  unfolding record_adjustment
  adjusted-Kept (execution_report p) extra id s = (refl, refl, refl, refl, refl, refl)
  adjusted-Kept (cash_transfer p) extra id s = (refl, refl, refl, refl, refl, refl)
  adjusted-Kept (funding_settlement p) extra id s = (refl, refl, refl, refl, refl, refl)
  adjusted-Kept (fee_adjusted p) extra id s = (refl, refl, refl, refl, refl, refl)
  adjusted-Kept (adjustment_approved p) extra id s = (refl, refl, refl, refl, refl, refl)

  each_new : (ids : List EconomicIdentity) → All (λ i. not (is_recorded [] i) ≡ true) ids
  each_new [] = tt
  each_new (i ∷ ids) = (refl, each_new ids)

  new-Extends :
      (specs : List InstrumentSpec) (event : Header) (p : FinancialPayload) (extra : Supplement)
      (e : Evidence) (fingerprint : Ident) (i : EconomicIdentity) (is : List EconomicIdentity)
      (s : LedgerState) {c : LedgerChange}
      → book_new py specs event p extra e fingerprint i is s ≡ ok c
      → Extends s c.state (i ∷ is) fingerprint []
  unfolding book_new booked
  new-Extends specs event p extra e fingerprint i is s {c} eq =
      let (f, x, y) = >>=-eq-ok (effects py specs event p e s) _ eq in
      let t = transaction_of py event e f i is in
      let new = booked py t f fingerprint (i ∷ is) s in
      let same : c.state ≡ record_adjustment py p extra t.transaction_id new = ground arith in
      let (a, b, d, n, ts, rs) = adjusted-Kept p extra t.transaction_id new in
      record {
        same_venue = ap (λ u. u.venue) same ∙ a;
        same_environment = ap (λ u. u.environment) same ∙ b;
        same_account = ap (λ u. u.account) same ∙ d;
        same_time = ap (λ u. u.available_ns) same ∙ n;
        more = t ∷ [];
        grown = ap (λ u. u.transactions) same ∙ ts;
        tid = t.transaction_id;
        recorded =
            ap (λ u. u.identities) same
            ∙ rs
            ∙ ap (λ xs. s.identities ++ map (applied fingerprint t.transaction_id) xs)
                (sym (keep_each (λ j. not (is_recorded [] j)) (i ∷ is) (each_new (i ∷ is))));
        agree = refl;
      }

  pub identified-Extends :
      (specs : List InstrumentSpec) (event : Header) (p : FinancialPayload) (extra : Supplement)
      (e : Evidence) (fingerprint : Ident) (ids : List EconomicIdentity) (rs : List AppliedIdentity)
      (s : LedgerState) {c : LedgerChange}
      → book_identified py specs event p extra e fingerprint ids rs s ≡ ok c
      → Extends s c.state ids fingerprint rs
  unfolding book_identified
  identified-Extends specs event p extra e fingerprint ids (r ∷ rs) s eq =
      again-Extends event fingerprint ids r rs s eq
  identified-Extends specs event p extra e fingerprint [] [] s eq = cc
  identified-Extends specs event p extra e fingerprint (i ∷ is) [] s eq =
      new-Extends specs event p extra e fingerprint i is s eq

  -- Records that agree and name every identity make the event a duplicate that changes nothing.
  idle_again :
      (specs : List InstrumentSpec) (event : Header) (p : FinancialPayload) (extra : Supplement)
      (e : Evidence) (fingerprint tid : Ident) (i : EconomicIdentity) (is : List EconomicIdentity)
      (rs : List AppliedIdentity) (s : LedgerState)
      → all_agree fingerprint tid rs ≡ true
      → All (λ j. is_recorded rs j ≡ true) (i ∷ is)
      → book_identified py specs event p extra e fingerprint (i ∷ is) rs s ≡ ok (only_state true s)
  unfolding book_identified book_again
  idle_again specs event p extra e fingerprint tid i is [] s agree all' = ground arith
  idle_again specs event p extra e fingerprint tid i is (r ∷ rs) s agree all' =
      let first : r.transaction_id ≡ tid = ground arith in
      let agreed : all_agree fingerprint r.transaction_id (r ∷ rs) ≡ true =
        subst (λ t. all_agree fingerprint t (r ∷ rs) ≡ true) (sym first) agree in
      let none_new : additions fingerprint tid (r ∷ rs) (i ∷ is) ≡ [] =
        keep_none (λ j. not (is_recorded (r ∷ rs) j)) (i ∷ is)
          (All-map (λ j e'. ap not e') (i ∷ is) all') in
      rw agreed (
        ap ok (
          nothing_added event fingerprint r.transaction_id s
            (additions fingerprint tid (r ∷ rs) (i ∷ is)) none_new))

  -- The same evidence of the state that a booking left is a duplicate.
  pub book_idle :
      (specs : List InstrumentSpec) (event : Header) (p : FinancialPayload) (extra : Supplement)
      (e : Evidence) (fingerprint : Ident) (i : EconomicIdentity) (is : List EconomicIdentity)
      (s out : LedgerState)
      → Extends s out (i ∷ is) fingerprint (keep (matches_any (i ∷ is)) s.identities)
      → book_identified py specs event p extra e fingerprint
          (i ∷ is)
          (keep (matches_any (i ∷ is)) out.identities)
          out
        ≡ ok (only_state true out)
  book_idle specs event p extra e fingerprint i is s out x =
      let rs = keep (matches_any (i ∷ is)) s.identities in
      let matched : keep (matches_any (i ∷ is)) out.identities
          ≡ extended fingerprint x.tid rs (i ∷ is) =
        ap (keep (matches_any (i ∷ is))) x.recorded
        ∙ keep-extended fingerprint x.tid s.identities (i ∷ is) in
      ap (λ zs. book_identified py specs event p extra e fingerprint (i ∷ is) zs out) matched
      ∙ idle_again specs event p extra e fingerprint x.tid i is
          (extended fingerprint x.tid rs (i ∷ is)) out
          (extended-agree fingerprint x.tid rs (i ∷ is) x.agree)
          (each_recorded fingerprint x.tid rs (i ∷ is))

  -- Evidence that a state gave is the same in one that extends it.
  find-append :
      {A : Type 0} (q : A → Bool) (xs ys : List A) {x : A}
      → find q xs ≡ some x
      → find q (xs ++ ys) ≡ some x
  find-append q [] ys e = cc
  find-append q (z ∷ zs) ys {x} e = ground (arith, find-append q zs ys {x = x})

  pub fee_again :
      (event : Header) (p : FeeAdjustment) (s out : LedgerState) (ys : List AppliedIdentity)
      (more : List LedgerTransaction) {e : Evidence}
      → out.venue ≡ s.venue
      → out.environment ≡ s.environment
      → out.account ≡ s.account
      → out.identities ≡ s.identities ++ ys
      → out.transactions ≡ s.transactions ++ more
      → fee_evidence py event p s ≡ ok e
      → fee_evidence py event p out ≡ ok e
  unfolding fee_evidence
  fee_again event p s out ys more {e} v n a is ts eq =
      let (i, x1, y1) = >>=-eq-ok (or_raise event.instrument_id invalid_fee_correction) _ eq in
      let bad = not (truthy p.reason) || not (truthy i) in
      let (u, x2, y2) = >>=-eq-ok (raise_if bad invalid_fee_correction) _ y1 in
      let wanted = has_identity py (corrected_execution py s i p.native_execution_id) in
      let (o, x3, y3) = >>=-eq-ok (or_raise (find wanted s.identities) unknown_execution) _ y2 in
      let same_id : LedgerTransaction → Bool = λ t. t.transaction_id == o.transaction_id in
      let (b, x4, y4) =
        >>=-eq-ok (or_raise (find same_id s.transactions) missing_transaction) _ y3 in
      let scope : corrected_execution py out i p.native_execution_id
          ≡ corrected_execution py s i p.native_execution_id =
        rw v (rw n (rw a refl)) in
      let wanted' = has_identity py (corrected_execution py out i p.native_execution_id) in
      let f3 : find wanted' out.identities ≡ some o =
        ap (λ c. find (has_identity py c) out.identities) scope
        ∙ ap (find wanted) is
        ∙ find-append wanted s.identities ys
            (or_raise-ok (find wanted s.identities) unknown_execution x3) in
      let f4 : find same_id out.transactions ≡ some b =
        ap (find same_id) ts
        ∙ find-append same_id s.transactions more
            (or_raise-ok (find same_id s.transactions) missing_transaction x4) in
      let f1 : event.instrument_id ≡ some i =
        or_raise-ok event.instrument_id invalid_fee_correction x1 in
      rw f1 (rw x2 (rw f3 (rw f4 y4)))
