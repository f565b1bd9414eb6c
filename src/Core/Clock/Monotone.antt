-- ===== src/Core/Clock/Monotone.antt =====
-- Time never runs backward: for the availability clock, and for what the scheduler dispatches.
use rs_quant.Base.{
  ℕ, ◌+◌, ◌≤◌, ◌≡◌, arith, true, false, List, [], ◌∷◌, All, All-map, Result, ok, raise, Bool-cases,
  inl, inr, ltb, ◌||◌,
}
use rs_quant.Base.Ensures.{Ensures, Ensures->>=, Ensures-raise_if, of_Ensures}
use rs_quant.Base.Int.{ℤ, pos, ltb_ℤ}
use rs_quant.Base.Sort.{insert_with}
use rs_quant.Core.Types.{Ident}
use rs_quant.Core.Clock.{
  availability_regressed, precedes_cause, precedes, ClockError, AvailabilityClock, anchor, observe,
  reanchor, DeterministicScheduler, Entry, ScheduleRequest, new_scheduler, le_entry, schedule, pop,
  pop_from,
}

-- A call of a clock: an observation, or a new anchor.
pub data Reading : Type 0 where
  observed : ℤ → ℤ → Ident → Reading
  anchored : ℤ → ℤ → Ident → Reading

abbrev read : AvailabilityClock → Reading → Result ClockError AvailabilityClock
read c (observed wall monotonic boot) = observe c wall monotonic boot
read c (anchored wall monotonic boot) = reanchor c wall monotonic boot

abbrev left_by : AvailabilityClock → Result ClockError AvailabilityClock → AvailabilityClock
left_by c (ok d) = d
left_by c (raise e) = c

-- The clock after some calls; one that raises leaves it as it was.
unfoldable pub readings : AvailabilityClock → List Reading → AvailabilityClock
readings c [] = c
readings c (r ∷ rs) = readings (left_by c (read c r)) rs

-- What a clock's numbers say of each other.
abbrev IsClock : AvailabilityClock → Type 0
IsClock c =
    (c.monotonic_ns ≤ c.last_monotonic_ns)
    × (c.available_ns + c.monotonic_ns ≡ c.anchor_available_ns + c.last_monotonic_ns)

abbrev Later : AvailabilityClock → AvailabilityClock → Type 0
Later c d = IsClock d × (c.available_ns ≤ d.available_ns)

anchor-IsClock :
    (wall monotonic : ℤ) (boot : Ident) (persisted : ℕ)
    → Ensures (λ d. IsClock d × (persisted ≤ d.available_ns)) (anchor wall monotonic boot persisted)
unfolding anchor
anchor-IsClock wall monotonic boot persisted = ground arith

read-Later : (c : AvailabilityClock) (r : Reading) → IsClock c → Ensures (Later c) (read c r)
unfolding observe reanchor
read-Later c (observed wall monotonic boot) h = ground arith
read-Later c (anchored wall monotonic boot) h =
    Ensures->>= (Later c) (anchor wall monotonic boot c.available_ns) _ (λ d e.
      of_Ensures (λ d. IsClock d × (c.available_ns ≤ d.available_ns))
        (anchor-IsClock wall monotonic boot c.available_ns) e)

left_by-Later :
    (c : AvailabilityClock) (m : Result ClockError AvailabilityClock)
    → IsClock c
    → Ensures (Later c) m
    → Later c (left_by c m)
left_by-Later c (ok d) h l = l
left_by-Later c (raise e) h l = (h, omega arith)

readings-Later : (c : AvailabilityClock) (rs : List Reading) → IsClock c → Later c (readings c rs)
unfolding readings
readings-Later c [] h = (h, omega arith)
readings-Later c (r ∷ rs) h =
    let next = left_by-Later c (read c r) h (read-Later c r h) in
    let rest = readings-Later (left_by c (read c r)) rs next.0 in
    (rest.0, omega (arith, next.1, rest.1))

-- A clock that was anchored never runs backward, whatever observations and new anchors follow,
-- those that raise included; and right after an anchor it is not behind the persisted time.
pub availability_never_falls :
    (wall monotonic : ℤ) (boot : Ident) (persisted : ℕ) (c : AvailabilityClock)
    (rs ss : List Reading)
    → anchor wall monotonic boot persisted ≡ ok c
    → (persisted ≤ c.available_ns)
      × ((readings c rs).available_ns ≤ (readings (readings c rs) ss).available_ns)
availability_never_falls wall monotonic boot persisted c rs ss e =
    let start =
      of_Ensures (λ d. IsClock d × (persisted ≤ d.available_ns))
        (anchor-IsClock wall monotonic boot persisted) e in
    (start.1, (readings-Later (readings c rs) ss (readings-Later c rs start.0).0).1)

-- A call of a scheduler.
pub data Call : Type 0 where
  enter : ScheduleRequest → Call
  dispatch : Call

abbrev left :
    DeterministicScheduler → Result ClockError DeterministicScheduler → DeterministicScheduler
left s (ok t) = t
left s (raise e) = s

-- The scheduler that a pop leaves, and the time that it dispatches.
abbrev left_pop :
    DeterministicScheduler
    → Result ClockError (DeterministicScheduler × Entry)
    → DeterministicScheduler
left_pop s (ok r) = r.0
left_pop s (raise e) = s

abbrev time_of : Result ClockError (DeterministicScheduler × Entry) → List ℕ → List ℕ
time_of (ok r) ts = r.1.available_ns ∷ ts
time_of (raise e) ts = ts

-- The availability times of the events that the calls dispatch, in order.
unfoldable pub dispatched : DeterministicScheduler → List Call → List ℕ
unfolding schedule pop
dispatched s [] = []
dispatched s (enter r ∷ cs) = dispatched (left s (schedule s r)) cs
dispatched s (dispatch ∷ cs) = time_of (pop s) (dispatched (left_pop s (pop s)) cs)

abbrev pub IsRising : List ℕ → Type 0
IsRising [] = Unit
IsRising (t ∷ ts) = All (λ u. t ≤ u) ts × IsRising ts

abbrev IsQueue : ℕ → List Entry → Type 0
IsQueue t [] = Unit
IsQueue t (e ∷ q) = (t ≤ e.available_ns) × IsQueue e.available_ns q

lower-IsQueue : (t u : ℕ) (q : List Entry) → t ≤ u → IsQueue u q → IsQueue t q
lower-IsQueue t u [] l h = tt
lower-IsQueue t u (e ∷ q) l h = (omega (arith, h.0), h.1)

insert-IsQueue :
    (t : ℕ) (e : Entry) (q : List Entry)
    → t ≤ e.available_ns
    → IsQueue t q
    → IsQueue t (insert_with le_entry e q)
insert-IsQueue t e [] l h = (l, tt)
insert-IsQueue t e (f ∷ q) l h = elim (Bool-cases (le_entry e f)) [
  | inl c ↦ rw c (l, (le_entry-true e f c, h.1))
  | inr c ↦ rw c (h.0, insert-IsQueue f.available_ns e q (le_entry-false e f c) h.1)
]
  where
    le_entry-true : (a b : Entry) → le_entry a b ≡ true → a.available_ns ≤ b.available_ns
    le_entry-true a b c = ground arith

    le_entry-false : (a b : Entry) → le_entry a b ≡ false → b.available_ns ≤ a.available_ns
    le_entry-false a b c = ground arith

abbrev Follows : DeterministicScheduler → DeterministicScheduler → Type 0
Follows s t = IsQueue t.last_available_ns t.queue × (s.last_available_ns ≤ t.last_available_ns)

schedule-Follows :
    (s : DeterministicScheduler) (r : ScheduleRequest)
    → IsQueue s.last_available_ns s.queue
    → Ensures (Follows s) (schedule s r)
unfolding schedule
schedule-Follows s r h =
    Ensures-raise_if (Follows s)
      (ltb_ℤ r.source_ordinal (pos 0) || ltb r.available_ns s.last_available_ns)
      availability_regressed _
      (λ g.
        Ensures-raise_if (Follows s) (precedes r.available_ns r.caused_at_ns) precedes_cause (ok _)
          (λ k. (insert-IsQueue s.last_available_ns _ s.queue (ground arith) h, omega arith)))

left-Follows :
    (s : DeterministicScheduler) (m : Result ClockError DeterministicScheduler)
    → IsQueue s.last_available_ns s.queue
    → Ensures (Follows s) m
    → Follows s (left s m)
left-Follows s (ok t) h f = f
left-Follows s (raise e) h f = (h, omega arith)

abbrev Rises : ℕ → List ℕ → Type 0
Rises t ts = All (λ u. t ≤ u) ts × IsRising ts

lower-Rises : (t u : ℕ) (ts : List ℕ) → t ≤ u → Rises u ts → Rises t ts
lower-Rises t u ts l h = (All-map (λ v k. omega arith) ts h.0, h.1)

-- A pop, given that the calls after it dispatch in order.
popped-Rises :
    (cs : List Call) (s : DeterministicScheduler)
    → IsQueue s.last_available_ns s.queue
    → ((t : DeterministicScheduler)
        → IsQueue t.last_available_ns t.queue
        → Rises t.last_available_ns (dispatched t cs))
    → (q : List Entry) → IsQueue s.last_available_ns q
    → Rises s.last_available_ns (time_of (pop_from s q) (dispatched (left_pop s (pop_from s q)) cs))
popped-Rises cs s h later [] g = later s h
popped-Rises cs s h later (e ∷ q) g =
    let rest = later (record s { queue = q; last_available_ns = e.available_ns }) g.1 in
    ((g.0, (lower-Rises s.last_available_ns e.available_ns _ g.0 rest).0), rest)

dispatched-Rises :
    (s : DeterministicScheduler) (cs : List Call)
    → IsQueue s.last_available_ns s.queue
    → Rises s.last_available_ns (dispatched s cs)
unfolding dispatched
dispatched-Rises s [] h = (tt, tt)
dispatched-Rises s (enter r ∷ cs) h =
    let next = left-Follows s (schedule s r) h (schedule-Follows s r h) in
    lower-Rises s.last_available_ns (left s (schedule s r)).last_available_ns _ next.1
      (dispatched-Rises (left s (schedule s r)) cs next.0)
dispatched-Rises s (dispatch ∷ cs) h =
    popped-Rises cs s h (λ t g. dispatched-Rises t cs g) s.queue h

-- Whatever a new scheduler is asked to schedule, and whenever its entries are popped, the
-- availability times of the events that it dispatches never fall.
pub dispatched-IsRising : (cs : List Call) → IsRising (dispatched new_scheduler cs)
dispatched-IsRising cs = (dispatched-Rises new_scheduler cs tt).1
