-- ===== src/Risk/Flatten.antt =====
-- A flatten workflow reports success only when no lots are left.
use rs_quant.Base.{
  ℕ, ◌↔◌, ◌+◌, ◌-◌, ◌≤◌, ◌≡◌, refl, ap, sym, ◌∙◌, arith, true, Option, none, some, List, [], ◌∷◌,
  Result, ok, raise, Option-cases, inl, inr, if_both, ◌==◌, ==_refl, sum, length, map, ◌>>=◌,
  or_raise, suc,
}
use mathlib.Core.Path.{subst}
use rs_quant.Base.Dict.{lookup, insert, lookup-insert}
use rs_quant.Base.Int.{abs}
use rs_quant.Core.Types.{Ident}
use rs_quant.Risk.Emergency.{
  FlattenState, succeeded, Emergency, FlattenRequest, flatten, flatten_state, updated,
  update_flatten, timed_out, timeout_flatten, EmergencyError, unknown_workflow,
}

-- A call on the workflows.
pub data Call : Type 0 where
  start : FlattenRequest → Call
  update : Ident → ℕ → ℕ → Call
  expire : Ident → Call

abbrev left_by : Emergency → Result EmergencyError (Emergency × FlattenState) → Emergency
left_by e (ok r) = r.0
left_by e (raise x) = e

-- The workflows that a call leaves; one that raises leaves them as they were.
unfoldable pub call : Emergency → Call → Emergency
unfolding flatten update_flatten timeout_flatten
call e (start r) = (flatten e r).0
call e (update w filled least) = left_by e (update_flatten e w filled least)
call e (expire w) = left_by e (timeout_flatten e w)

unfoldable pub calls : Emergency → List Call → Emergency
unfolding call
calls e [] = e
calls e (c ∷ cs) = calls (call e c) cs

-- What a workflow may say of its lots.
pub record IsHonest (s : FlattenState) : Type 0 where
  pub success_is_flat : s.status ≡ succeeded → s.remaining_lots ≡ 0
  pub never_grows : s.remaining_lots ≤ s.position_lots_at_start

-- What holds of a workflow if it is there.
abbrev Honest : Option FlattenState → Type 0
Honest none = Unit
Honest (some s) = IsHonest s

abbrev AllHonest : Emergency → Type 0
AllHonest e = (w : Ident) → Honest (lookup w e)

flatten_state-IsHonest : (r : FlattenRequest) → IsHonest (flatten_state r)
unfolding flatten_state
flatten_state-IsHonest r = record {
  success_is_flat = λ h. ground arith;
  never_grows = ground arith;
}

updated-IsHonest : (s : FlattenState) (n m : ℕ) → IsHonest s → IsHonest (updated s n m)
unfolding updated
updated-IsHonest s n m h =
    let f = h.success_is_flat in
    let g = h.never_grows in
    record { success_is_flat = λ e. ground arith; never_grows = ground arith }

timed_out-IsHonest : (s : FlattenState) → IsHonest s → IsHonest (timed_out s)
unfolding timed_out
timed_out-IsHonest s h = record { success_is_flat = λ e. cc; never_grows = h.never_grows }

insert-AllHonest :
    (e : Emergency) (w : Ident) (s : FlattenState)
    → AllHonest e
    → IsHonest s
    → AllHonest (insert w s e)
insert-AllHonest e w s h g v =
    subst Honest (sym (lookup-insert w v s e))
      (if_both Honest (w == v) (some s) (lookup v e) g (h v))

replace-AllHonest :
    (e : Emergency) (w : Ident) (f : FlattenState → FlattenState)
    → ((s : FlattenState) → IsHonest s → IsHonest (f s))
    → AllHonest e
    → AllHonest
        (left_by e (or_raise (lookup w e) unknown_workflow >>= λ s. ok (insert w (f s) e, f s)))
replace-AllHonest e w f k h = elim (Option-cases (lookup w e)) [
  | inl n ↦ rw n h
  | inr (s, p) ↦ rw p (insert-AllHonest e w (f s) h (k s (subst Honest p (h w))))
]

call-AllHonest : (e : Emergency) (c : Call) → AllHonest e → AllHonest (call e c)
unfolding call flatten update_flatten timeout_flatten
call-AllHonest e (start r) h =
    insert-AllHonest e r.workflow_id (flatten_state r) h (flatten_state-IsHonest r)
call-AllHonest e (update w n m) h =
    replace-AllHonest e w (λ s. updated s n m) (λ s. updated-IsHonest s n m) h
call-AllHonest e (expire w) h = replace-AllHonest e w timed_out timed_out-IsHonest h

calls-AllHonest : (e : Emergency) (cs : List Call) → AllHonest e → AllHonest (calls e cs)
unfolding calls
calls-AllHonest e [] h = h
calls-AllHonest e (c ∷ cs) h = calls-AllHonest (call e c) cs (call-AllHonest e c h)

-- After any calls on workflows of which there were none, in any order and for any number of
-- workflows, a workflow that says SUCCEEDED has no lots left, and none has more lots left than it
-- started with.
pub success_means_flat :
    (cs : List Call) (w : Ident) (s : FlattenState) → lookup w (calls [] cs) ≡ some s → IsHonest s
success_means_flat cs w s e = subst Honest e (calls-AllHonest [] cs (λ v. tt) w)

abbrev fills_of : Ident → ℕ → List ℕ → List Call
fills_of w least fills = map (λ n. update w n least) fills

-- A workflow after some fills.
unfoldable pub after_fills : FlattenState → ℕ → List ℕ → FlattenState
after_fills s least [] = s
after_fills s least (n ∷ ns) = after_fills (updated s n least) least ns

lookup_same : (e : Emergency) (w : Ident) (s : FlattenState) → lookup w (insert w s e) ≡ some s
lookup_same e w s = lookup-insert w w s e ∙ rw (==_refl w) refl

call_update :
    (e : Emergency) (w : Ident) (s : FlattenState) (n m : ℕ)
    → lookup w e ≡ some s
    → call e (update w n m) ≡ insert w (updated s n m) e
unfolding call update_flatten
call_update e w s n m h = rw h refl

fills_lem :
    (e : Emergency) (w : Ident) (s : FlattenState) (least : ℕ) (ns : List ℕ)
    → lookup w e ≡ some s
    → lookup w (calls e (fills_of w least ns)) ≡ some (after_fills s least ns)
unfolding calls call update_flatten after_fills
fills_lem e w s least [] h = h
fills_lem e w s least (n ∷ ns) h =
    ap (λ x. lookup w (calls x (fills_of w least ns))) (call_update e w s n least h)
    ∙ fills_lem (insert w (updated s n least) e) w (updated s n least) least ns
        (lookup_same e w (updated s n least))

updated_lots :
    (s : FlattenState) (n m : ℕ)
    → ((updated s n m).remaining_lots ≡ s.remaining_lots - n)
      × ((updated s n m).attempts ≡ suc s.attempts)
unfolding updated
updated_lots s n m = (ground arith, ground arith)

after_fills_lem :
    (s : FlattenState) (least n : ℕ) (ns : List ℕ)
    → let t = after_fills s least (n ∷ ns) in
      (t.remaining_lots ≡ s.remaining_lots - (n + sum ns))
      × (t.attempts ≡ s.attempts + suc (length ns))
      × (s.remaining_lots ≤ n + sum ns → t.status ≡ succeeded)
unfolding after_fills updated
after_fills_lem s least n [] = (ground arith, ground arith, λ h. ground arith)
after_fills_lem s least n (m ∷ ms) =
    let r = after_fills_lem (updated s n least) least m ms in
    let u = updated_lots s n least in
    (omega (arith, r.0, u.0), omega (arith, r.1, u.1), λ h. r.2 (omega (arith, h, u.0)))

flatten_state_lots :
    (r : FlattenRequest)
    → r.venue_available ≡ true
    → r.data_trustworthy ≡ true
    → ((flatten_state r).remaining_lots ≡ abs r.position_lots) × ((flatten_state r).attempts ≡ 0)
unfolding flatten_state
flatten_state_lots r v d = (ground arith, ground arith)

after_fills-IsHonest :
    (s : FlattenState) (least : ℕ) (ns : List ℕ) → IsHonest s → IsHonest (after_fills s least ns)
unfolding after_fills
after_fills-IsHonest s least [] h = h
after_fills-IsHonest s least (n ∷ ns) h =
    after_fills-IsHonest (updated s n least) least ns (updated-IsHonest s n least h)

-- A flatten that can start, of an open position: after any number of fills, one at least, the lots
-- left are the position's less all the fills, each fill counts as an attempt, and the workflow says
-- SUCCEEDED exactly if the fills cover the position.
pub flatten_tracks_residual :
    (e : Emergency) (r : FlattenRequest) (least n : ℕ) (ns : List ℕ)
    → r.venue_available ≡ true
    → r.data_trustworthy ≡ true
    → (t : FlattenState) × (lookup r.workflow_id
          (calls e (start r ∷ fills_of r.workflow_id least (n ∷ ns)))
        ≡ some t)
      × (t.remaining_lots ≡ abs r.position_lots - (n + sum ns))
      × (t.attempts ≡ suc (length ns))
      × ((t.status ≡ succeeded) ↔ (abs r.position_lots ≤ n + sum ns))
unfolding calls call flatten
flatten_tracks_residual e r least n ns v d =
    let s = flatten_state r in
    let (lots, tries) = flatten_state_lots r v d in
    let (left, count, done) = after_fills_lem s least n ns in
    let honest = after_fills-IsHonest s least (n ∷ ns) (flatten_state-IsHonest r) in
    (
      after_fills s least (n ∷ ns),
      fills_lem (insert r.workflow_id s e) r.workflow_id s least (n ∷ ns)
          (lookup_same e r.workflow_id s),
      omega (arith, left, lots),
      omega (arith, count, tries),
      (
        λ h. omega (arith, honest.success_is_flat h, left, lots),
        λ h. done (omega (arith, h, lots)),
      ),
    )
