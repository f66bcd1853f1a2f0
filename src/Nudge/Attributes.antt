-- ===== src/Nudge/Attributes.antt =====
-- Attribute maps as the exporter sees them. `pcommon.Map` and `pcommon.Value` belong to the pdata
-- library: an attribute stands for the results of the calls that the exporter makes on it, whatever
-- they are, and a map for the pairs that `Range` walks. `Get` returns the first entry of a key.
-- A missing value is a nil pointer: `Int` and `Str` answer zero values on it, all else panics.
use opentelemetry_collector.Prelude.{
  ℕ, String, List, [], ◌∷◌, map, Option, none, some, ◌==◌, if◌then◌else◌,
}
use opentelemetry_collector.Nudge.Result.{Result, ok, panic, nil_dereference, index_out_of_range}

-- an element of a slice value: AsString(), its text under `%v` after AsRaw(), and its text if
-- AsRaw() is a string, and else the empty one
pub record Item : Type 0 where
  pub as_string : String
  pub shown : String
  pub raw_string : String

-- `int_text` is the decimal text of Int(), which may be negative;
-- `items` is the slice of a value whose AsRaw() is a `[]any`
pub record Attribute : Type 0 where
  pub as_string : String
  pub str : String
  pub int : ℕ
  pub int_text : String
  pub items : Option (List Item)

abbrev pub AttributeMap : Type 0
AttributeMap = List (String × Attribute)

-- Map.Get
unfoldable pub get : AttributeMap → String → Option Attribute
get [] key = none
get ((k, v) ∷ m) key = if k == key then some v else get m key

-- GetKeys
unfoldable pub get_keys : AttributeMap → List String
get_keys m = map (λ (e : String × Attribute). e.0) m

-- The methods of a value that may be missing.
abbrev pub as_string : Option Attribute → Result String
as_string none = panic nil_dereference
as_string (some v) = ok v.as_string

abbrev pub int : Option Attribute → ℕ
int none = 0
int (some v) = v.int

abbrev pub int_text : Option Attribute → String
int_text none = "0"
int_text (some v) = v.int_text

abbrev pub str : Option Attribute → String
str none = ""
str (some v) = v.str

-- v.Slice().AsRaw(), which panics on a value that is no slice
abbrev pub slice_items : Attribute → Result (List Item)
slice_items v = elim v.items [ none ↦ panic nil_dereference | some xs ↦ ok xs ]

-- `switch AsRaw().(type)` of AddAllExtendedcodes: a slice gives its element 0
abbrev first_item : List Item → Result String
first_item [] = panic index_out_of_range
first_item (x ∷ xs) = ok x.as_string

abbrev pub header_value : Attribute → Result String
header_value v = elim v.items [ none ↦ ok v.as_string | some xs ↦ first_item xs ]
