-- ===== src/Data/Book/Levels.antt =====
-- `levels` and `validate_book` of src/quantdesk/data/orderbook/validator.py, and `canonical_int` of
-- src/quantdesk/data/canonical.py. `canonical_text` reads a text of the canonical form as a number.
use rs_quant.Base.{
  ℕ, ◌+◌, Bool, true, false, Option, none, some, List, [], ◌∷◌, Result, ok, raise, ◌>>=◌, ◌>>◌,
  raise_if, ◌==◌, ltb, leb, ◌&&◌, ◌||◌, if◌then◌else◌, max, min, length,
}
use rs_quant.Base.Dict.{Dict}
use rs_quant.Base.Int.{ℤ, pos, pos_part, ltb_ℤ}
use rs_quant.Core.Types.{Ident}
use rs_quant.Data.Json.{
  Json, JsonList, JsonFields, integer, text, array, object, end_list, item, end_fields, field,
  get_field,
}
use rs_quant.Data.Book.Types.{
  BookLevel, Reason, not_an_array, malformed_level, not_canonical, below_minimum,
  duplicate_price_level, empty_side, book_overflow, crossed_book,
}

-- "price_ticks" and "size_lots"
abbrev pub price_key : Ident
price_key = 1

abbrev pub size_key : Ident
size_key = 2

abbrev at_least : ℤ → ℤ → Result Reason ℤ
at_least minimum n = if ltb_ℤ n minimum then raise below_minimum else ok n

-- `set(item) <= {"price_ticks", "size_lots"}`
abbrev pub only_level_keys : JsonFields → Bool
only_level_keys end_fields = true
only_level_keys (field k v fs) =
    let rest = only_level_keys fs in (k == price_key || k == size_key) && rest

-- `len({level.price_ticks for level in result}) != len(result)`
abbrev pub has_price : ℕ → List BookLevel → Bool
has_price p [] = false
has_price p (l ∷ ls) = let rest = has_price p ls in l.price_ticks == p || rest

abbrev pub has_repeated_price : List BookLevel → Bool
has_repeated_price [] = false
has_repeated_price (l ∷ ls) = let rest = has_repeated_price ls in has_price l.price_ticks ls || rest

module _ (canonical_text : Ident → Option ℤ) where
  unfoldable pub canonical_int : Json → ℤ → Result Reason ℤ
  canonical_int (integer n) minimum = at_least minimum n
  canonical_int (text s) minimum = elim (canonical_text s) [
    | none ↦ raise not_canonical
    | some n ↦ at_least minimum n
  ]
  canonical_int _ minimum = raise not_canonical

  unfoldable pub level_of : Option Json → Option Json → Result Reason BookLevel
  unfolding canonical_int
  level_of (some p) (some s) = do
    price ← canonical_int p (pos 1)
    size ← canonical_int s (pos 0)
    ok (record { price_ticks = pos_part price; size_lots = pos_part size })
  level_of _ _ = raise malformed_level

  unfoldable pub read_level : Json → Result Reason BookLevel
  unfolding level_of
  read_level (object fs) =
      if only_level_keys fs
      then level_of (get_field price_key fs) (get_field size_key fs)
      else raise malformed_level
  read_level _ = raise malformed_level

  unfoldable pub read_levels : JsonList → Result Reason (List BookLevel)
  unfolding read_level
  read_levels end_list = ok []
  read_levels (item j js) = do l ← read_level j; ls ← read_levels js; ok (l ∷ ls)

  unfoldable pub levels : Json → Result Reason (List BookLevel)
  unfolding read_levels
  levels (array js) = do
    ls ← read_levels js
    raise_if (has_repeated_price ls) duplicate_price_level
    ok ls
  levels _ = raise not_an_array

-- `max(bids)` and `min(asks)` of the keys of a side
abbrev pub highest : Dict ℕ → ℕ
highest [] = 0
highest (e ∷ d) = max e.0 (highest d)

abbrev pub lowest : Dict ℕ → ℕ
lowest [] = 0
lowest (e ∷ []) = e.0
lowest (e ∷ f ∷ d) = min e.0 (lowest (f ∷ d))

abbrev is_empty : Dict ℕ → Bool
is_empty [] = true
is_empty (e ∷ d) = false

unfoldable pub validate_book : Dict ℕ → Dict ℕ → ℕ → Result Reason (Unit {0})
validate_book bids asks max_levels = do
  raise_if (is_empty bids || is_empty asks) empty_side
  raise_if (ltb max_levels (length bids + length asks)) book_overflow
  raise_if (leb (lowest asks) (highest bids)) crossed_book
