-- ===== src/Data/Book/Sequence.antt =====
-- src/quantdesk/data/orderbook/sequence.py: the contracts on native sequences. `int_of` is Python's
-- `int` of a text, none where it raises.
use rs_quant.Base.{Bool, true, false, Option, none, some, ◌==◌, if◌then◌else◌, not, ◌&&◌}
use rs_quant.Base.Int.{ℤ, pos, ◌+ℤ◌, ltb_ℤ, eqb_ℤ}
use rs_quant.Core.Types.{Ident}
use rs_quant.Data.Json.{Json, null, text}
use rs_quant.Data.Book.Types.{
  Reason, missing_sequence, out_of_order_sequence, sequence_gap, prior_sequence_mismatch,
  malformed_sequence, snapshot_feed_rejects_delta,
}

-- `NumericSequence(contiguous)` and `SnapshotSequence`
pub data Contract : Type 0 where
  numeric : Bool → Contract
  snapshots : Contract

-- `prior is not None and prior != previous`
abbrev pub differs_from : Ident → Option Json → Bool
differs_from previous none = false
differs_from previous (some null) = false
differs_from previous (some (text p)) = not (p == previous)
differs_from previous (some _) = true

abbrev pub after_previous :
    (Ident → Option ℤ) → Bool → Option Ident → ℤ → Option Json → Bool → Option Reason
after_previous int_of contiguous none current prior snapshot = none
after_previous int_of contiguous (some previous) current prior snapshot = elim (int_of previous) [
  | none ↦ some malformed_sequence
  | some p ↦
      if not (ltb_ℤ p current)
      then some out_of_order_sequence
      else if not snapshot && contiguous && not (eqb_ℤ current (p +ℤ pos 1))
      then some sequence_gap
      else if not snapshot && differs_from previous prior
      then some prior_sequence_mismatch
      else none
]

unfoldable pub validate :
    (Ident → Option ℤ) → Contract → Option Ident → Option Ident → Option Json → Bool → Option Reason
validate int_of (numeric contiguous) previous none prior snapshot = some missing_sequence
validate int_of (numeric contiguous) previous (some current) prior snapshot =
    elim (int_of current) [
      | none ↦ some malformed_sequence
      | some c ↦
          if ltb_ℤ c (pos 0)
          then some missing_sequence
          else after_previous int_of contiguous previous c prior snapshot
    ]
validate int_of snapshots previous current prior snapshot =
    if snapshot then none else some snapshot_feed_rejects_delta
