-- ===== src/Execution/Permits/Once.antt =====
-- A dispatch permit is consumed at most once (src/quantdesk/execution/router.py).
use rs_quant.Base.{
  ℕ, ◌+◌, ◌≤◌, ◌≡◌, refl, sym, ap, ◌∙◌, Bool, true, false, Option, none, some, List, [], ◌∷◌, ◌==◌,
  Result, ok, raise, if◌then◌else◌, arith, inl, inr, Bool-cases, Option-cases,
}
use rs_quant.Base.Dict.{
  Dict, lookup, insert, erase, IsDict, lookup-insert, lookup-erase_ne, lookup-erase_self,
  insert-IsDict, erase-IsDict,
}
use mathlib.Core.Path.{subst}
use rs_quant.Core.Types.{Ident}
use rs_quant.Execution.OrderState.{GatewayInstruction}
use rs_quant.Execution.Permits.{
  DispatchRow, DispatchPermit, Authority, DispatchError, unissued_permit, Readings, new_authority,
  GatewayPolicy, grant, grant_allowed, may_grant, issue, minted, is_same, consume, handoff_started,
  abort_taken, abort_unsent,
}

-- The calls of the authority that change its permits.
pub data Call : Type 0 where
  grant_call : Readings → DispatchRow → Call
  consume_call : Readings → DispatchPermit → DispatchRow → Call
  handoff_call : DispatchPermit → Call
  abort_call : Readings → DispatchRow → Option DispatchPermit → Call

unfoldable pub after : (ℕ → Ident → Ident) → Authority → Call → Authority
unfolding grant consume handoff_started abort_unsent
after attempt_of s (grant_call r row) = (grant attempt_of r row s).0
after attempt_of s (consume_call r p row) = (consume r p row s).0
after attempt_of s (handoff_call p) = (handoff_started p s).0
after attempt_of s (abort_call r row p) = (abort_unsent r row p s).0

unfoldable pub run : (ℕ → Ident → Ident) → Authority → List Call → Authority
unfolding after
run attempt_of s [] = s
run attempt_of s (c ∷ cs) = run attempt_of (after attempt_of s c) cs

module _ (attempt_of : ℕ → Ident → Ident) (ordinal_of : Ident → ℕ)
    (numbered : (n : ℕ) (id : Ident) → ordinal_of (attempt_of n id) ≡ n) where
  record IsCounted (s : Authority) : Type 0 where
    distinct : IsDict s.issued
    counted :
        (a : Ident) (p : DispatchPermit) → lookup a s.issued ≡ some p → ordinal_of a ≤ s.ordinal

  -- An attempt that has no permit any more.
  record IsSpent (a : Ident) (s : Authority) : Type 0 where
    gone : lookup a s.issued ≡ none
    old : ordinal_of a ≤ s.ordinal

  -- What every call does to the permits that are issued.
  data Change (s t : Authority) : Type 0 where
    kept : t.issued ≡ s.issued → s.ordinal ≤ t.ordinal → Change s t
    taken : (k : Ident) → t.issued ≡ erase k s.issued → s.ordinal ≤ t.ordinal → Change s t
    added :
        (id : Ident) (p : DispatchPermit)
        → t.issued ≡ insert (attempt_of (s.ordinal + 1) id) p s.issued
        → t.ordinal ≡ s.ordinal + 1
        → Change s t

  issue-Change :
      (row : DispatchRow) (p : DispatchPermit) (x : Result DispatchError (Unit {0})) (s : Authority)
      → p.attempt_id ≡ attempt_of (s.ordinal + 1) row.instruction_id
      → Change s (issue p x (record s { ordinal = s.ordinal + 1 })).0
  issue-Change row p (raise e) s h = kept refl (omega arith)
  issue-Change row p (ok u) s h = added row.instruction_id p (ap (λ k. insert k p s.issued) h) refl

  grant-Change :
      (r : Readings) (row : DispatchRow) (x : Result DispatchError GatewayPolicy) (s : Authority)
      → Change s (grant_allowed attempt_of r row x s).0
  grant-Change r row (raise e) s = kept refl (omega arith)
  grant-Change r row (ok policy) s =
      issue-Change row (minted attempt_of (s.ordinal + 1) row policy) _ s refl

  abort-Change :
      (c : Bool) (p : DispatchPermit) (x : Result DispatchError (Unit {0})) (s : Authority)
      → Change s (abort_taken c p x s).0
  abort-Change true p x s = taken p.attempt_id refl (omega arith)
  abort-Change false p x s = kept refl (omega arith)

  after-Change : (s : Authority) (c : Call) → Change s (after attempt_of s c)
  unfolding after grant consume handoff_started abort_unsent
  after-Change s (grant_call r row) = grant-Change r row (may_grant r) s
  after-Change s (consume_call r p row) = taken p.attempt_id refl (omega arith)
  after-Change s (handoff_call p) = kept refl (omega arith)
  after-Change s (abort_call r row none) = kept refl (omega arith)
  after-Change s (abort_call r row (some p)) = abort-Change _ p _ s

  -- A permit that is looked up after a key was taken out was there before.
  found_before :
      (k a : Ident) (d : Dict DispatchPermit) {p : DispatchPermit}
      → IsDict d
      → lookup a (erase k d) ≡ some p
      → lookup a d ≡ some p
  found_before k a d {p} h e = elim (Bool-cases (k == a)) [
    | inl same ↦
        let at : k ≡ a = ground arith in
        let gone : lookup a (erase k d) ≡ none =
          ap (λ x. lookup x (erase k d)) (sym at) ∙ lookup-erase_self k d h in
        cc
    | inr other' ↦ sym (lookup-erase_ne k a d (λ q. ground arith)) ∙ e
  ]

  gone_after :
      (k a : Ident) (d : Dict DispatchPermit)
      → IsDict d
      → lookup a d ≡ none
      → lookup a (erase k d) ≡ none
  gone_after k a d h e = elim (Bool-cases (k == a)) [
    | inl same ↦
        let at : k ≡ a = ground arith in
        ap (λ x. lookup x (erase k d)) (sym at) ∙ lookup-erase_self k d h
    | inr other' ↦ lookup-erase_ne k a d (λ q. ground arith) ∙ e
  ]

  IsCounted-on : (s t : Authority) → Change s t → IsCounted s → IsCounted t
  IsCounted-on s t (kept e o) h = record {
    distinct = subst IsDict (sym e) h.distinct;
    counted = λ a p f.
        (let old : lookup a s.issued ≡ some p = ap (lookup a) (sym e) ∙ f in
          omega (arith, h.counted a p old));
  }
  IsCounted-on s t (taken k e o) h = record {
    distinct = subst IsDict (sym e) (erase-IsDict k s.issued h.distinct);
    counted = λ a p f.
        (let old : lookup a s.issued ≡ some p =
            found_before k a s.issued h.distinct (ap (lookup a) (sym e) ∙ f) in
          omega (arith, h.counted a p old));
  }
  IsCounted-on s t (added id q e o) h =
      let k = attempt_of (s.ordinal + 1) id in
      record {
        distinct = subst IsDict (sym e) (insert-IsDict k q s.issued h.distinct);
        counted = λ a p f.
            (let new : (if k == a then some q else lookup a s.issued) ≡ some p =
                sym (lookup-insert k a q s.issued) ∙ ap (lookup a) (sym e) ∙ f in
              elim (Bool-cases (k == a)) [
                | inl same ↦
                    (let at : k ≡ a = ground arith in
                      let n : ordinal_of a ≡ s.ordinal + 1 =
                        ap ordinal_of (sym at) ∙ numbered (s.ordinal + 1) id in
                      omega (arith, n, o))
                | inr other' ↦
                    (let old : lookup a s.issued ≡ some p = ground arith in
                      omega (arith, h.counted a p old, o))
              ]);
      }

  IsSpent-on : (a : Ident) (s t : Authority) → Change s t → IsCounted s → IsSpent a s → IsSpent a t
  IsSpent-on a s t (kept e o) h d = record {
    gone = ap (lookup a) e ∙ d.gone;
    old = omega (arith, d.old);
  }
  IsSpent-on a s t (taken k e o) h d = record {
    gone = ap (lookup a) e ∙ gone_after k a s.issued h.distinct d.gone;
    old = omega (arith, d.old);
  }
  IsSpent-on a s t (added id q e o) h d =
      let k = attempt_of (s.ordinal + 1) id in
      let differs : (k == a) ≡ false =
        (let n = numbered (s.ordinal + 1) id in
          elim (Bool-cases (k == a)) [
            | inl same ↦
                (let at : k ≡ a = ground arith in
                  let m : ordinal_of a ≡ s.ordinal + 1 = ap ordinal_of (sym at) ∙ n in
                  ground (arith, m, d.old))
            | inr other' ↦ other'
          ]) in
      record {
        gone =
            ap (lookup a) e
            ∙ lookup-insert k a q s.issued
            ∙ ap (λ c. if c then some q else lookup a s.issued) differs
            ∙ d.gone;
        old = omega (arith, d.old, o);
      }

  run-IsCounted : (s : Authority) (cs : List Call) → IsCounted s → IsCounted (run attempt_of s cs)
  unfolding run
  run-IsCounted s [] h = h
  run-IsCounted s (c ∷ cs) h =
      run-IsCounted (after attempt_of s c) cs
        (IsCounted-on s (after attempt_of s c) (after-Change s c) h)

  run-IsSpent :
      (a : Ident) (s : Authority) (cs : List Call)
      → IsCounted s
      → IsSpent a s
      → IsSpent a (run attempt_of s cs)
  unfolding run
  run-IsSpent a s [] h d = d
  run-IsSpent a s (c ∷ cs) h d =
      run-IsSpent a (after attempt_of s c) cs
        (IsCounted-on s (after attempt_of s c) (after-Change s c) h)
        (IsSpent-on a s (after attempt_of s c) (after-Change s c) h d)

  consume_found :
      (r : Readings) (p : DispatchPermit) (row : DispatchRow) (s : Authority)
      {i : GatewayInstruction}
      → (consume r p row s).1 ≡ ok i
      → (q : DispatchPermit) × (lookup p.attempt_id s.issued ≡ some q)
  unfolding consume
  consume_found r p row s {i} e = elim (Option-cases (lookup p.attempt_id s.issued)) [
    | inl missing ↦
        (let refusal : is_same p (lookup p.attempt_id s.issued) ≡ false = ap (is_same p) missing in
          ground arith)
    | inr found ↦ found
  ]

  IsSpent-now :
      (r : Readings) (p : DispatchPermit) (row : DispatchRow) (s : Authority)
      → IsCounted s
      → ordinal_of p.attempt_id ≤ s.ordinal
      → IsSpent p.attempt_id (after attempt_of s (consume_call r p row))
  unfolding after consume
  IsSpent-now r p row s h old' = record {
    gone = lookup-erase_self p.attempt_id s.issued h.distinct;
    old = old';
  }

  consume_gone :
      (r : Readings) (p : DispatchPermit) (row : DispatchRow) (s : Authority)
      → lookup p.attempt_id s.issued ≡ none
      → (consume r p row s).1 ≡ raise unissued_permit
  unfolding consume
  consume_gone r p row s e = rw e refl

  -- Once a permit of a new authority was consumed, after any calls before it, no later call consumes a
  -- permit of the same attempt, whichever calls come between and whatever they read: it is refused as
  -- unissued. The numbers of attempts are read off their identities.
  pub consume_once :
      (before between : List Call) (r r' : Readings) (p p' : DispatchPermit)
      (row row' : DispatchRow) {i : GatewayInstruction}
      → (consume r p row (run attempt_of new_authority before)).1 ≡ ok i
      → p'.attempt_id ≡ p.attempt_id
      → (consume r' p' row'
          (run attempt_of (run attempt_of new_authority before) (consume_call r p row ∷ between))).1
        ≡ raise unissued_permit
  unfolding run
  consume_once before between r r' p p' row row' e same =
      let s = run attempt_of new_authority before in
      let h : IsCounted s =
        run-IsCounted new_authority before (record { distinct = tt; counted = λ a q f. cc }) in
      let (q, found) = consume_found r p row s e in
      let t = after attempt_of s (consume_call r p row) in
      let ht : IsCounted t = IsCounted-on s t (after-Change s (consume_call r p row)) h in
      let gone : IsSpent p.attempt_id t =
        IsSpent-now r p row s h (h.counted p.attempt_id q found) in
      let last = run-IsSpent p.attempt_id t between ht gone in
      consume_gone r' p' row' (run attempt_of t between)
        (ap (λ a. lookup a (run attempt_of t between).issued) same ∙ last.gone)
