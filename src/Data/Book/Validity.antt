-- ===== src/Data/Book/Validity.antt =====
-- What the builder serves: a book that is never empty, never crossed, and in order.
use rs_quant.Base.{
  ℕ, ◌≤◌, ◌<◌, ◌≡◌, ◌≢◌, refl, arith, Bool, true, false, Option, none, some, List, [], ◌∷◌, All,
  All-map, Bool-cases, inl, inr, ltb, ◌==◌, if◌then◌else◌, Result, ok, raise, raise_if, length,
  ◌||◌, ◌&&◌, not, or_raise, eq_opt,
}
use rs_quant.Base.Dict.{Dict, IsDict, insert, erase, insert-IsDict, erase-IsDict}
use rs_quant.Base.Ensures.{Ensures, Ensures->>=, Ensures-guard, Ensures-if}
use rs_quant.Core.Types.{Ident}
use rs_quant.Data.Json.{JsonFields, get_field, is_present}
use rs_quant.Data.Book.Types.{
  BookLevel, BookStatus, valid, checksum_adapter_required, availability_regression, malformed_json,
  snapshot_required, feed_discontinuity, unknown_book_message, same_receipt, Reason, IncomingEvent,
  BookView, EventType, data_gap, connection_changed, book_snapshot, book_delta, other_event,
}
use rs_quant.Data.Book.Sequence.{validate}
use rs_quant.Data.Book.Levels.{levels, highest, lowest, validate_book}
use rs_quant.Data.Book.Builder.{
  Library, BookBuilder, invalidate, apply_levels, ascending, descending, top, accepted, receipt_of,
}
use rs_quant.Data.Book.Apply.{
  fields_of, is_valid, is_broken, sequence_key, prior_key, sequence_text, raise_some, is_identical,
  required, checksum_key, bids_key, asks_key, bid_updates_key, ask_updates_key, Reading, duplicate,
  message, read_book, read_sequenced, read_message, finish_reading, apply_book, apply_type,
  apply_epoch,
}
use rs_quant.Data.Book.Ordered.{Chain, Better, descending-Chain, ascending-Chain, top-All}

abbrev pub IsPositive : Dict ℕ → Type 0
IsPositive d = All (λ e. 0 < e.1) d

abbrev pub IsSide : Dict ℕ → Type 0
IsSide d = IsDict d × IsPositive d

insert-IsPositive : (k v : ℕ) (d : Dict ℕ) → 0 < v → IsPositive d → IsPositive (insert k v d)
insert-IsPositive k v [] p h = (p, tt)
insert-IsPositive k v ((j, w) ∷ d) p h = ground (arith, insert-IsPositive k v d p h.1)

erase-IsPositive : (k : ℕ) (d : Dict ℕ) → IsPositive d → IsPositive (erase k d)
erase-IsPositive k [] h = tt
erase-IsPositive k ((j, w) ∷ d) h = ground (arith, erase-IsPositive k d h.1)

apply_levels-IsSide : (d : Dict ℕ) (ls : List BookLevel) → IsSide d → IsSide (apply_levels d ls)
unfolding apply_levels
apply_levels-IsSide d [] h = h
apply_levels-IsSide d (l ∷ ls) h = elim (Bool-cases (l.size_lots == 0)) [
  | inl e ↦ rw e (
      apply_levels-IsSide (erase l.price_ticks d) ls
        (erase-IsDict l.price_ticks d h.0, erase-IsPositive l.price_ticks d h.1))
  | inr e ↦ rw e (
      apply_levels-IsSide (insert l.price_ticks l.size_lots d) ls (
        insert-IsDict l.price_ticks l.size_lots d h.0,
        insert-IsPositive l.price_ticks l.size_lots d (ground arith) h.1,
      ))
]

highest_lem : (d : Dict ℕ) → All (λ e. e.0 ≤ highest d) d
highest_lem [] = tt
highest_lem (e ∷ d) = (omega arith, All-map (λ f h. omega arith) d (highest_lem d))

lowest_lem : (d : Dict ℕ) → All (λ e. lowest d ≤ e.0) d
lowest_lem [] = tt
lowest_lem (e ∷ []) = (omega arith, tt)
lowest_lem (e ∷ f ∷ d) = (omega arith, All-map (λ g h. omega arith) (f ∷ d) (lowest_lem (f ∷ d)))

abbrev IsCrossfree : Dict ℕ → Dict ℕ → Type 0
IsCrossfree bids asks = (0 < length bids) × (0 < length asks) × (highest bids < lowest asks)

validate_book_lem :
    (bids asks : Dict ℕ) (m : ℕ) → validate_book bids asks m ≡ ok tt → IsCrossfree bids asks
unfolding validate_book
validate_book_lem [] asks m h = ground arith
validate_book_lem (e ∷ bids) [] m h = ground arith
validate_book_lem (e ∷ bids) (f ∷ asks) m h = ground arith

-- A served book: not empty, not crossed, of positive sizes and strictly ordered, best price first.
pub record IsServed (v : BookView) : Type 0 where
  pub has_bids : 0 < v.bid_levels
  pub has_asks : 0 < v.ask_levels
  pub uncrossed : All (λ l. All (λ m. l.price_ticks < m.price_ticks) v.asks) v.bids
  pub positive_bids : All (λ l. 0 < l.size_lots) v.bids
  pub positive_asks : All (λ l. 0 < l.size_lots) v.asks
  pub bids_descend : Chain (Better descending) v.bids
  pub asks_ascend : Chain (Better ascending) v.asks

-- A view is there exactly in the state VALID.
abbrev pub Served : BookStatus → Option BookView → Type 0
Served s none = s ≢ valid
Served s (some v) = (s ≡ valid) × IsServed v

abbrev pub IsSound : BookBuilder → Type 0
IsSound b = IsSide b.bids × IsSide b.asks × Served b.state b.view

uncrossed_lem :
    (depth : ℕ) (bids asks : Dict ℕ)
    → highest bids < lowest asks
    → All
        (λ l. All (λ m. l.price_ticks < m.price_ticks) (top ascending depth asks))
        (top descending depth bids)
uncrossed_lem depth bids asks h =
    top-All (λ l. All (λ m. l.price_ticks < m.price_ticks) (top ascending depth asks)) descending
      depth bids
      (All-map
        (λ e p.
          top-All (λ m. e.0 < m.price_ticks) ascending depth asks
            (All-map (λ f q. omega arith) asks (lowest_lem asks)))
        bids (highest_lem bids))

accepted-IsSound :
    (b : BookBuilder) (event : IncomingEvent) (s : Option Ident) (fp : Ident) (bids asks : Dict ℕ)
    → IsSide bids
    → IsSide asks
    → IsCrossfree bids asks
    → IsSound (accepted b event s fp bids asks)
unfolding accepted
accepted-IsSound b event s fp bids asks hb ha c = (
  hb,
  ha,
  (
    refl,
    record {
      has_bids = c.0;
      has_asks = c.1;
      uncrossed = uncrossed_lem b.depth bids asks c.2;
      positive_bids = top-All (λ l. 0 < l.size_lots) descending b.depth bids hb.1;
      positive_asks = top-All (λ l. 0 < l.size_lots) ascending b.depth asks ha.1;
      bids_descend = descending-Chain b.depth bids hb.0;
      asks_ascend = ascending-Chain b.depth asks ha.0;
    },
  ),
)

pub invalidate-IsSound :
    (b : BookBuilder) (why : Reason) (is_stale : Bool)
    → IsSound b
    → IsSound (invalidate b why is_stale).0
unfolding invalidate
invalidate-IsSound b why true h = (h.0, h.1, λ p. cc)
invalidate-IsSound b why false h = (h.0, h.1, λ p. cc)

-- What a message that is read holds.
abbrev IsRead : Reading → Type 0
IsRead duplicate = Unit
IsRead (message s bids asks) = IsSide bids × IsSide asks × IsCrossfree bids asks

IsSide-start : (b : Bool) (d : Dict ℕ) → IsSide d → IsSide (if b then [] else d)
IsSide-start true d h = (tt, tt)
IsSide-start false d h = h

module _ (lib : Library) where
  read_book-IsRead :
      (b : BookBuilder) (fs : JsonFields) (snapshot : Bool) (s : Option Ident)
      → IsSound b
      → Ensures IsRead (read_book lib b fs snapshot s)
  unfolding read_book
  read_book-IsRead b fs snapshot s h =
      Ensures-guard IsRead
        (raise_if (is_present (get_field checksum_key fs)) checksum_adapter_required) _
        (Ensures->>= IsRead (required (if snapshot then bids_key else bid_updates_key) fs) _ (λ j p.
          Ensures->>= IsRead (levels lib.canonical_text j) _ (λ ls q.
            Ensures->>= IsRead (required (if snapshot then asks_key else ask_updates_key) fs) _
              (λ k r. Ensures->>= IsRead (levels lib.canonical_text k) _ (λ ms t.
                Ensures->>= IsRead
                  (validate_book (apply_levels (if snapshot then [] else b.bids) ls)
                    (apply_levels (if snapshot then [] else b.asks) ms) b.max_levels)
                  _
                  (λ u v. (
                    apply_levels-IsSide (if snapshot then [] else b.bids) ls
                        (IsSide-start snapshot b.bids h.0),
                    apply_levels-IsSide (if snapshot then [] else b.asks) ms
                        (IsSide-start snapshot b.asks h.1),
                    validate_book_lem _ _ b.max_levels v,
                  )))))))

  read_message-IsRead :
      (b : BookBuilder) (event : IncomingEvent) (snapshot : Bool)
      → IsSound b
      → Ensures IsRead (read_message lib b event snapshot)
  unfolding read_message read_sequenced
  read_message-IsRead b event snapshot h =
      Ensures-guard IsRead (raise_if (ltb event.available_ns b.available) availability_regression) _
        (Ensures->>= IsRead (or_raise (lib.loads event.payload) malformed_json) _ (λ j p.
          Ensures-guard IsRead (raise_if (not snapshot && not (is_valid b.state)) snapshot_required)
            _
            (Ensures->>= IsRead (fields_of j) _ (λ fs q.
              Ensures->>= IsRead (required sequence_key fs) _ (λ k r.
                Ensures->>= IsRead (sequence_text k) _ (λ s t.
                  Ensures-if IsRead
                    (is_identical lib b event s
                      && (same_receipt b.receipt (receipt_of event) || not snapshot))
                    (ok duplicate) _ tt
                    (Ensures-guard IsRead
                      (raise_some (
                        if is_identical lib b event s && snapshot
                        then none
                        else validate lib.int_of b.validator b.sequence s (get_field prior_key fs)
                            snapshot))
                      _ (read_book-IsRead b fs snapshot s h))))))))

  finish_reading-IsSound :
      (b : BookBuilder) (event : IncomingEvent) (m : Result Reason Reading)
      → IsSound b
      → Ensures IsRead m
      → IsSound (finish_reading lib b event m).0
  unfolding finish_reading
  finish_reading-IsSound b event (raise why) h r = invalidate-IsSound b why false h
  finish_reading-IsSound b event (ok duplicate) h r = h
  finish_reading-IsSound b event (ok (message s bids asks)) h r =
      accepted-IsSound b event s (lib.sha256 event.payload) bids asks r.0 r.1 r.2

  apply_book-IsSound :
      (b : BookBuilder) (event : IncomingEvent) (snapshot : Bool)
      → IsSound b
      → IsSound (apply_book lib b event snapshot).0
  unfolding apply_book
  apply_book-IsSound b event snapshot h = elim (Bool-cases (is_broken b.state)) [
    | inl e ↦ rw e h
    | inr e ↦ rw e (
        finish_reading-IsSound b event (read_message lib b event snapshot) h
          (read_message-IsRead b event snapshot h))
  ]

  apply_type-IsSound :
      (b : BookBuilder) (event : IncomingEvent) (t : EventType)
      → IsSound b
      → IsSound (apply_type lib b event t).0
  unfolding apply_type
  apply_type-IsSound b event data_gap h = invalidate-IsSound b feed_discontinuity false h
  apply_type-IsSound b event connection_changed h = invalidate-IsSound b feed_discontinuity false h
  apply_type-IsSound b event book_snapshot h = apply_book-IsSound b event true h
  apply_type-IsSound b event book_delta h = apply_book-IsSound b event false h
  apply_type-IsSound b event other_event h = invalidate-IsSound b unknown_book_message false h

  pub apply_epoch-IsSound :
      (b : BookBuilder) (event : IncomingEvent) → IsSound b → IsSound (apply_epoch lib b event).0
  unfolding apply_epoch
  apply_epoch-IsSound b event h = elim (Bool-cases (eq_opt (some event.connection_epoch) b.epoch)) [
    | inl e ↦ rw e (apply_type-IsSound b event event.event_type h)
    | inr e ↦ rw e h
  ]
