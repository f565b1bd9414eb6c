-- ===== src/Data/Book/Broken.antt =====
-- A broken book stays broken until the builder is told to synchronise again.
use rs_quant.Base.{
  ℕ, ◌≡◌, refl, Bool, true, false, Option, none, some, is_some, List, [], ◌∷◌, All, Bool-cases, inl,
  inr, eq_opt,
}
use rs_quant.Core.Types.{Ident}
use rs_quant.Data.Book.Types.{
  feed_discontinuity, unknown_book_message, stream_scope_mismatch, stale_feed, Reason,
  IncomingEvent, EventType, data_gap, connection_changed, book_snapshot, book_delta, other_event,
}
use rs_quant.Data.Book.Builder.{Library, BookBuilder, invalidate, check_freshness, is_aged}
use rs_quant.Data.Book.Apply.{
  apply, apply_epoch, apply_type, apply_book, ensure_epoch, after_epoch, event_scope, in_scope,
  is_broken,
}
use rs_quant.Data.Book.Runs.{Call, sync, drop, age, receive, call, calls}

abbrev is_sync : Call → Bool
is_sync (sync e) = true
is_sync _ = false

abbrev IsBroken : BookBuilder → Type 0
IsBroken b = (is_broken b.state ≡ true) × (is_some b.epoch ≡ true)

invalidate-IsBroken :
    (b : BookBuilder) (r : Reason) (is_stale : Bool)
    → is_some b.epoch ≡ true
    → IsBroken (invalidate b r is_stale).0
unfolding invalidate
invalidate-IsBroken b r true h = (refl, h)
invalidate-IsBroken b r false h = (refl, h)

module _ (lib : Library) where
  apply_book-IsBroken :
      (b : BookBuilder) (event : IncomingEvent) (snapshot : Bool)
      → IsBroken b
      → IsBroken (apply_book lib b event snapshot).0
  unfolding apply_book
  apply_book-IsBroken b event snapshot h = rw h.0 h

  apply_type-IsBroken :
      (b : BookBuilder) (event : IncomingEvent) (t : EventType)
      → IsBroken b
      → IsBroken (apply_type lib b event t).0
  unfolding apply_type
  apply_type-IsBroken b event data_gap h = invalidate-IsBroken b feed_discontinuity false h.1
  apply_type-IsBroken b event connection_changed h =
      invalidate-IsBroken b feed_discontinuity false h.1
  apply_type-IsBroken b event book_snapshot h = apply_book-IsBroken b event true h
  apply_type-IsBroken b event book_delta h = apply_book-IsBroken b event false h
  apply_type-IsBroken b event other_event h = invalidate-IsBroken b unknown_book_message false h.1

  apply_epoch-IsBroken :
      (b : BookBuilder) (event : IncomingEvent) → IsBroken b → IsBroken (apply_epoch lib b event).0
  unfolding apply_epoch
  apply_epoch-IsBroken b event h =
      elim (Bool-cases (eq_opt (some event.connection_epoch) b.epoch)) [
        | inl e ↦ rw e (apply_type-IsBroken b event event.event_type h)
        | inr e ↦ rw e h
      ]

  after_epoch-IsBroken :
      (b : BookBuilder) (event : IncomingEvent) (o : Option Ident)
      → is_some o ≡ true
      → IsBroken b
      → IsBroken (after_epoch lib event (ensure_epoch b event.connection_epoch o)).0
  after_epoch-IsBroken b event none p h = cc
  after_epoch-IsBroken b event (some e) p h = apply_epoch-IsBroken b event h

  apply-IsBroken :
      (b : BookBuilder) (event : IncomingEvent) → IsBroken b → IsBroken (apply lib b event).0
  unfolding apply
  apply-IsBroken b event h = elim (Bool-cases (in_scope b.scope (event_scope event))) [
    | inl t ↦
        rw t
          (after_epoch-IsBroken (record b { scope = some (event_scope event) }) event b.epoch h.1 h)
    | inr t ↦ rw t (invalidate-IsBroken b stream_scope_mismatch false h.1)
  ]

  age-IsBroken : (b : BookBuilder) (now : ℕ) → IsBroken b → IsBroken (check_freshness b now).0
  unfolding check_freshness
  age-IsBroken b now h = elim (Bool-cases (is_aged b now b.view)) [
    | inl t ↦ rw t (invalidate-IsBroken b stale_feed true h.1)
    | inr t ↦ rw t h
  ]

  call-IsBroken :
      (b : BookBuilder) (c : Call) → is_sync c ≡ false → IsBroken b → IsBroken (call lib b c)
  unfolding call
  call-IsBroken b (sync e) n h = cc
  call-IsBroken b (drop r is_stale) n h = invalidate-IsBroken b r is_stale h.1
  call-IsBroken b (age now) n h = age-IsBroken b now h
  call-IsBroken b (receive event) n h = apply-IsBroken b event h

  -- A builder that follows a connection and is INVALID or STALE stays so through any calls that do
  -- not synchronise it, such as snapshots and deltas that would be fine in themselves.
  pub broken_until_sync :
      (b : BookBuilder) (cs : List Call)
      → is_broken b.state ≡ true
      → is_some b.epoch ≡ true
      → All (λ c. is_sync c ≡ false) cs
      → is_broken (calls lib b cs).state ≡ true
  unfolding calls
  broken_until_sync b [] h e n = h
  broken_until_sync b (c ∷ cs) h e n =
      let (h', e') = call-IsBroken b c n.0 (h, e) in broken_until_sync (call lib b c) cs h' e' n.1
