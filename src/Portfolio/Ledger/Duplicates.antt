-- ===== src/Portfolio/Ledger/Duplicates.antt =====
-- A financial event that was accepted once is a duplicate when it comes again
-- (`Ledger.apply` of src/quantdesk/portfolio/ledger.py).
use rs_quant.Base.{
  ℕ, ◌≡◌, sym, ap, ◌∙◌, Bool, true, false, not, ◌||◌, List, ◌∷◌, ◌==◌, ok, raise_if, map, arith,
  keep, >>=-eq-ok, ltb,
}
use rs_quant.Core.Types.{Ident, truthy}
use rs_quant.Portfolio.State.{EconomicIdentity, AppliedIdentity, LedgerState}
use rs_quant.Portfolio.Instruments.{InstrumentSpec}
use rs_quant.Portfolio.Ledger.Facts.{
  LedgerLibrary, LedgerChange, only_state, Header, FinancialPayload, execution_report,
  cash_transfer, funding_settlement, fee_adjusted, adjustment_approved, Supplement, LedgerPayload,
  financial, observed, passive, reservation, reservation_batch, conversion, mark_price, unsupported,
  FinancialEvent, identity_required, invalid_aliases, repeats, all_truthy, other_scope, disordered,
}
use rs_quant.Portfolio.Ledger.Evidence.{Evidence, evidence, economic_value}
use rs_quant.Portfolio.Ledger.Book.{apply_financial, assets_named}
use rs_quant.Portfolio.Ledger.Known.{matches_any, applied, identities_of, scoped_identity}
use rs_quant.Portfolio.Ledger.Apply.{
  apply, apply_payload, recorded_payload, same_ledger_scope, no_supplement,
}
use rs_quant.Portfolio.Ledger.Matches.{additions}
use rs_quant.Portfolio.Ledger.Replay.{Extends, identified-Extends, book_idle, fee_again}

same_identities :
    (s out : LedgerState) (e : Evidence) (aliases : List Ident)
    → out.venue ≡ s.venue
    → out.environment ≡ s.environment
    → out.account ≡ s.account
    → identities_of out e aliases ≡ identities_of s e aliases
unfolding identities_of
same_identities s out e aliases v n a =
    let natives = e.native ∷ aliases in
    ap (λ x. map (scoped_identity x out.environment out.account e) natives) v
    ∙ ap (λ x. map (scoped_identity s.venue x out.account e) natives) n
    ∙ ap (λ x. map (scoped_identity s.venue s.environment x e) natives) a

module _ (py : LedgerLibrary) where
  evidence_again :
      (event : Header) (p : FinancialPayload) (extra : Supplement) (s out : LedgerState)
      {ids : List EconomicIdentity} {fingerprint : Ident} {rs : List AppliedIdentity} {e : Evidence}
      → Extends s out ids fingerprint rs
      → evidence py event p extra s ≡ ok e
      → evidence py event p extra out ≡ ok e
  unfolding evidence
  evidence_again event (execution_report p) extra s out x eq = eq
  evidence_again event (cash_transfer p) extra s out x eq = eq
  evidence_again event (funding_settlement p) extra s out x eq = eq
  evidence_again event (fee_adjusted p) extra s out {ids} {fingerprint} {rs} x eq =
      fee_again py event p s out
        (map (applied fingerprint x.tid) (additions fingerprint x.tid rs ids)) x.more x.same_venue
        x.same_environment x.same_account x.recorded x.grown eq
  evidence_again event (adjustment_approved p) extra s out x eq = eq

  -- What an accepted financial payload leaves, and that the same payload does not change it.
  record Settled (specs : List InstrumentSpec) (event : Header) (p : FinancialPayload)
      (extra : Supplement) (s out : LedgerState) : Type 0 where
    same_venue : out.venue ≡ s.venue
    same_environment : out.environment ≡ s.environment
    same_account : out.account ≡ s.account
    same_time : out.available_ns ≡ s.available_ns
    idle : apply_financial py specs event p extra out ≡ ok (only_state true out)

  financial-Settled :
      (specs : List InstrumentSpec) (event : Header) (p : FinancialPayload) (extra : Supplement)
      (s : LedgerState) {c : LedgerChange}
      → apply_financial py specs event p extra s ≡ ok c
      → Settled specs event p extra s c.state
  unfolding apply_financial identities_of
  financial-Settled specs event p extra s {c} eq =
      let (e, x, y) = >>=-eq-ok (evidence py event p extra s) _ eq in
      let (u, x', y') =
        >>=-eq-ok
          (raise_if (not (truthy e.native) || not (assets_named py e.postings)) identity_required) _
          y in
      let (u', x'', y'') =
        >>=-eq-ok
          (raise_if (not (all_truthy extra.aliases) || repeats (e.native ∷ extra.aliases))
            invalid_aliases)
          _ y' in
      let ids = identities_of s e extra.aliases in
      let fp = py.sign (map (economic_value py) e.signature) in
      let rs = keep (matches_any ids) s.identities in
      let ext : Extends s c.state ids fp rs =
        identified-Extends py specs event p extra e fp ids rs s y'' in
      let ids_same : identities_of c.state e extra.aliases ≡ ids =
        same_identities s c.state e extra.aliases ext.same_venue ext.same_environment
          ext.same_account in
      record {
        same_venue = ext.same_venue;
        same_environment = ext.same_environment;
        same_account = ext.same_account;
        same_time = ext.same_time;
        idle = rw (evidence_again event p extra s c.state ext x) (
            rw x' (rw x'' (rw ids_same (book_idle py specs event p extra e fp _ _ s c.state ext))));
      }

  -- An event whose payload is financial, with or without supplemental evidence.
  abbrev pub is_financial : LedgerPayload → Bool
  is_financial (financial p) = true
  is_financial (observed p extra) = true
  is_financial _ = false

  at_its_time : (s : LedgerState) (t : ℕ) → s.available_ns ≡ t → record s { available_ns = t } ≡ s
  at_its_time s t e = ap (λ u. record s { available_ns = u }) (sym e)

  payload-idle :
      (specs : List InstrumentSpec) (event : Header) (p : LedgerPayload) (s : LedgerState)
      {c : LedgerChange}
      → is_financial p ≡ true
      → apply_payload py specs event p s ≡ ok c
      → (c.state.venue ≡ s.venue)
        × (c.state.environment ≡ s.environment)
        × (c.state.account ≡ s.account)
        × (c.state.available_ns ≡ s.available_ns)
        × (apply_payload py specs event p c.state ≡ ok (only_state true c.state))
  unfolding apply_payload
  payload-idle specs event (financial p) s f eq =
      let r = financial-Settled specs event p no_supplement s eq in
      (r.same_venue, r.same_environment, r.same_account, r.same_time, r.idle)
  payload-idle specs event (observed p extra) s f eq =
      let r = financial-Settled specs event p extra s eq in
      (r.same_venue, r.same_environment, r.same_account, r.same_time, r.idle)
  payload-idle specs event passive s f eq = cc
  payload-idle specs event (reservation r) s f eq = cc
  payload-idle specs event (reservation_batch i rs) s f eq = cc
  payload-idle specs event (conversion r) s f eq = cc
  payload-idle specs event (mark_price m) s f eq = cc
  payload-idle specs event unsupported s f eq = cc

  recorded-is_financial :
      (p : LedgerPayload) (extra : Supplement) {q : LedgerPayload}
      → is_financial p ≡ true
      → recorded_payload p extra ≡ ok q
      → is_financial q ≡ true
  unfolding recorded_payload
  recorded-is_financial p extra {q} f eq = ground arith

  -- A financial event that the ledger has accepted is a duplicate when it is applied again to the
  -- state that it left: the second call is accepted, changes nothing at all, and reports a duplicate
  -- without transactions, positions or aliases.
  pub apply_again :
      (specs : List InstrumentSpec) (fact : FinancialEvent) (s : LedgerState) {c : LedgerChange}
      → is_financial fact.payload ≡ true
      → apply py specs fact s ≡ ok c
      → apply py specs fact c.state ≡ ok (only_state true c.state)
  unfolding apply
  apply_again specs fact s {c} f eq =
      let t = fact.header.available_ns in
      let late : LedgerState → Bool = λ u.
        ltb t u.available_ns || fact.header.engine_seq == 0 || not (truthy fact.header.event_id) in
      let (q, x, y) = >>=-eq-ok (recorded_payload fact.payload fact.supplement) _ eq in
      let (u, x', y') =
        >>=-eq-ok (raise_if (not (same_ledger_scope fact.header s)) other_scope) _ y in
      let (u', x'', y'') = >>=-eq-ok (raise_if (late s) disordered) _ y' in
      let (v, n, a, same_t, idle) =
        payload-idle specs fact.header q (record s { available_ns = t })
          (recorded-is_financial fact.payload fact.supplement f x) y'' in
      let in_scope : raise_if (not (same_ledger_scope fact.header c.state)) other_scope ≡ ok u =
        rw v (rw n (rw a x')) in
      let in_time : raise_if (late c.state) disordered ≡ ok u' = rw same_t (ground arith) in
      rw x (rw in_scope (rw in_time (rw (at_its_time c.state t same_t) idle)))
