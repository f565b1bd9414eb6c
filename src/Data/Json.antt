-- ===== src/Data/Json.antt =====
-- The values that `json.loads` returns, and `canonical_int` of src/quantdesk/data/canonical.py.
use rs_quant.Base.{Bool, true, false, Option, none, some, ◌==◌, if◌then◌else◌}
use rs_quant.Base.Int.{ℤ}
use rs_quant.Core.Types.{Ident}

mutual
  pub data Json : Type 0 where
    null : Json
    integer : ℤ → Json
    text : Ident → Json
    -- a Boolean or a float
    scalar : Ident → Json
    array : JsonList → Json
    object : JsonFields → Json

  pub data JsonList : Type 0 where
    end_list : JsonList
    item : Json → JsonList → JsonList

  pub data JsonFields : Type 0 where
    end_fields : JsonFields
    field : Ident → Json → JsonFields → JsonFields

-- `item.get(key)`, with a missing key apart from a null.
abbrev pub get_field : Ident → JsonFields → Option Json
get_field k end_fields = none
get_field k (field j v fs) = let rest = get_field k fs in if j == k then some v else rest

-- `item.get(key) is not None`
abbrev pub is_present : Option Json → Bool
is_present none = false
is_present (some null) = false
is_present (some v) = true
