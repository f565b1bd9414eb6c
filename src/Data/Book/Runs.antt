-- ===== src/Data/Book/Runs.antt =====
-- Any sequence of calls of a book builder.
use rs_quant.Base.{
  ℕ, inl, inr, Bool, true, false, Option, none, some, List, [], ◌∷◌, Result, ok, raise, Bool-cases,
}
use rs_quant.Core.Types.{Ident, truthy}
use rs_quant.Data.Book.Types.{Reason, IncomingEvent, stream_scope_mismatch, stale_feed}
use rs_quant.Data.Book.Sequence.{Contract}
use rs_quant.Data.Book.Builder.{
  Library, BookBuilder, new_builder, invalidate, begin_sync, synced, check_freshness, is_aged,
  BookError,
}
use rs_quant.Data.Book.Apply.{
  apply, ensure_epoch, synced_or_raised, after_epoch, event_scope, in_scope,
}
use rs_quant.Data.Book.Validity.{Served, IsSound, invalidate-IsSound, apply_epoch-IsSound}

-- A call of a builder.
pub data Call : Type 0 where
  sync : Ident → Call
  drop : Reason → Bool → Call
  age : ℕ → Call
  receive : IncomingEvent → Call

module _ (lib : Library) where
  -- The builder that a call leaves, if it raises too.
  unfoldable pub call : BookBuilder → Call → BookBuilder
  unfolding invalidate begin_sync check_freshness apply
  call b (sync e) = (synced_or_raised b (begin_sync b e)).0
  call b (drop r is_stale) = (invalidate b r is_stale).0
  call b (age now) = (check_freshness b now).0
  call b (receive event) = (apply lib b event).0

  unfoldable pub calls : BookBuilder → List Call → BookBuilder
  unfolding call
  calls b [] = b
  calls b (c ∷ cs) = calls (call b c) cs

synced-IsSound : (b : BookBuilder) (e : Ident) → IsSound b → IsSound (synced b e)
synced-IsSound b e h = ((tt, tt), (tt, tt), λ p. cc)

sync-IsSound :
    (b : BookBuilder) (e : Ident) → IsSound b → IsSound (synced_or_raised b (begin_sync b e)).0
unfolding begin_sync
sync-IsSound b e h = elim (Bool-cases (truthy e)) [
  | inl t ↦ rw t (synced-IsSound b e h)
  | inr t ↦ rw t h
]

ensure_epoch-IsSound :
    (b : BookBuilder) (e : Ident) (o : Option Ident) → IsSound b → IsSound (ensure_epoch b e o).0
unfolding begin_sync
ensure_epoch-IsSound b e (some old) h = h
ensure_epoch-IsSound b e none h = sync-IsSound b e h

check_freshness-IsSound :
    (b : BookBuilder) (now : ℕ) → IsSound b → IsSound (check_freshness b now).0
unfolding check_freshness
check_freshness-IsSound b now h = elim (Bool-cases (is_aged b now b.view)) [
  | inl t ↦ rw t (invalidate-IsSound b stale_feed true h)
  | inr t ↦ rw t h
]

module _ (lib : Library) where
  after_epoch-IsSound :
      (event : IncomingEvent) (p : BookBuilder × Result BookError (Unit {0}))
      → IsSound p.0
      → IsSound (after_epoch lib event p).0
  after_epoch-IsSound event (b, ok u) h = apply_epoch-IsSound lib b event h
  after_epoch-IsSound event (b, raise x) h = h

  apply-IsSound :
      (b : BookBuilder) (event : IncomingEvent) → IsSound b → IsSound (apply lib b event).0
  unfolding apply
  apply-IsSound b event h = elim (Bool-cases (in_scope b.scope (event_scope event))) [
    | inl t ↦ rw t (
        after_epoch-IsSound event
          (ensure_epoch (record b { scope = some (event_scope event) }) event.connection_epoch
            b.epoch)
          (ensure_epoch-IsSound (record b { scope = some (event_scope event) })
            event.connection_epoch b.epoch h))
    | inr t ↦ rw t (invalidate-IsSound b stream_scope_mismatch false h)
  ]

  call-IsSound : (b : BookBuilder) (c : Call) → IsSound b → IsSound (call lib b c)
  unfolding call
  call-IsSound b (sync e) h = sync-IsSound b e h
  call-IsSound b (drop r is_stale) h = invalidate-IsSound b r is_stale h
  call-IsSound b (age now) h = check_freshness-IsSound b now h
  call-IsSound b (receive event) h = apply-IsSound b event h

  calls-IsSound : (b : BookBuilder) (cs : List Call) → IsSound b → IsSound (calls lib b cs)
  unfolding calls
  calls-IsSound b [] h = h
  calls-IsSound b (c ∷ cs) h = calls-IsSound (call lib b c) cs (call-IsSound b c h)

  -- A builder serves a view exactly while its state is VALID, whatever calls it has had since it was
  -- made and whether or not they raised. The book of a view has both sides, is not crossed, holds no
  -- level of size zero, and lists each side strictly from its best price.
  pub calls-Served :
      (contract : Contract) (depth max_levels max_age_ns : ℕ) (cs : List Call)
      → let b = calls lib (new_builder contract depth max_levels max_age_ns) cs in
        Served b.state b.view
  unfolding new_builder
  calls-Served contract depth max_levels max_age_ns cs =
      (calls-IsSound (new_builder contract depth max_levels max_age_ns) cs
        ((tt, tt), (tt, tt), λ p. cc)).2
