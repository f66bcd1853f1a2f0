-- ===== src/Nudge/Codes/Insert.antt =====
-- `InsertExtCode` and `InsertExtendedCode` against a dictionary: they set one key.
use opentelemetry_collector.Prelude.{
  ℕ, suc, ◌+◌, String, Bool, true, false, List, [], ◌∷◌, ◌++◌, Option, none, some, ◌≡◌, refl, ◌∙◌,
  ap, arith, ◌==◌, eq_iff, inl, inr, if◌then◌else◌, Bool-cases,
}
use opentelemetry_collector.Nudge.Extension.{ExtensionLinux, find_from}
use opentelemetry_collector.Nudge.Attributes.{AttributeMap, Attribute, get}
use opentelemetry_collector.Nudge.Model.{KeyValue, LayerDetail, Transaction}
use opentelemetry_collector.Nudge.Send.{set}
use opentelemetry_collector.Nudge.Codes.{
  has_key, code_of, put_code, insert_ext_code, insert_extended_code,
}

-- the value of the first code with a key
unfoldable pub value_of : String → List KeyValue → Option String
value_of key [] = none
value_of key (kv ∷ kvs) = if kv.key == key then some kv.value else value_of key kvs

-- an optional value that goes to one key
unfoldable pub updated : String → Option String → List KeyValue → String → Option String
unfolding value_of
updated key_x none codes k = value_of k codes
updated key_x (some v) codes k = if key_x == k then some v else value_of k codes

-- put_code without the library's search
unfoldable put_plain : List KeyValue → String → String → List KeyValue
put_plain [] key value = code_of key value ∷ []
put_plain (kv ∷ kvs) key value =
    let rest = put_plain kvs key value in
    if kv.key == key then code_of kv.key value ∷ kvs else kv ∷ rest

-- what put_code makes of a search that starts at an index
abbrev placed : List KeyValue → String → String → Option (KeyValue × ℕ) → List KeyValue
placed codes key value (some (kv, i)) = set codes i (code_of kv.key value)
placed codes key value none = codes ++ code_of key value ∷ []

-- the result of a search from the next index
abbrev later : Option (KeyValue × ℕ) → Option (KeyValue × ℕ)
later none = none
later (some (kv, i)) = some (kv, suc i)

next : (i : ℕ) → i + 1 ≡ suc i
next i = omega arith

find_from-suc :
    (kvs : List KeyValue) (i : ℕ) (p : KeyValue → Bool)
    → find_from (i + 1) kvs p ≡ later (find_from i kvs p)
unfolding find_from
find_from-suc [] i p = refl
find_from-suc (kv ∷ kvs) i p = elim (Bool-cases (p kv)) [
  | inl e ↦ rw (e, find_from) (ap (λ n. some (kv, n)) (next i))
  | inr e ↦ rw (e, find_from) (find_from-suc kvs (i + 1) p)
]

placed-later :
    (kv : KeyValue) (kvs : List KeyValue) (key value : String) (f : Option (KeyValue × ℕ))
    → placed (kv ∷ kvs) key value (later f) ≡ kv ∷ placed kvs key value f
placed-later kv kvs key value none = refl
placed-later kv kvs key value (some (kv', i)) = refl

placed-plain :
    (codes : List KeyValue) (key value : String)
    → placed codes key value (find_from 0 codes (has_key key)) ≡ put_plain codes key value
unfolding find_from put_plain
placed-plain [] key value = refl
placed-plain (kv ∷ kvs) key value = elim (Bool-cases (kv.key == key)) [
  | inl e ↦ rw (e, find_from, put_plain) refl
  | inr e ↦
      rw (e, find_from, put_plain)
        (ap (placed (kv ∷ kvs) key value) (find_from-suc kvs 0 (has_key key))
          ∙ placed-later kv kvs key value (find_from 0 kvs (has_key key))
          ∙ ap (λ r. kv ∷ r) (placed-plain kvs key value))
]

value_of-put_plain :
    (codes : List KeyValue) (key value k : String)
    → value_of k (put_plain codes key value) ≡ (if key == k then some value else value_of k codes)
unfolding value_of put_plain
value_of-put_plain [] key value k = refl
value_of-put_plain (kv ∷ kvs) key value k =
    ground
      (arith, eq_iff kv.key key, eq_iff kv.key k, eq_iff key k, value_of-put_plain kvs key value k)

module _ (ext : ExtensionLinux) where
  put_code-plain :
      (codes : List KeyValue) (key value : String)
      → put_code ext codes key value ≡ put_plain codes key value
  unfolding put_code
  put_code-plain codes key value =
      as_placed (ext.find KeyValue codes (has_key key))
      ∙ ap (placed codes key value) (ext.find_lem KeyValue codes (has_key key))
      ∙ placed-plain codes key value
    where
      as_placed :
          (f : Option (KeyValue × ℕ))
          → elim f [
            | some (kv, i) ↦ set codes i (code_of kv.key value)
            | none ↦ codes ++ code_of key value ∷ []
          ]
            ≡ placed codes key value f
      as_placed none = refl
      as_placed (some (kv, i)) = refl

  value_of-put_code :
      (codes : List KeyValue) (key value k : String)
      → value_of k (put_code ext codes key value)
        ≡ (if key == k then some value else value_of k codes)
  value_of-put_code codes key value k =
      ap (value_of k) (put_code-plain codes key value) ∙ value_of-put_plain codes key value k

  -- What the attribute says: its text, if there is one.
  abbrev pub text_of : AttributeMap → String → Option String
  text_of attr key = elim (get attr key) [ none ↦ none | some v ↦ some v.as_string ]

  -- InsertExtCode, read as a dictionary, sets `key_x` to the text of the attribute `key` and leaves
  -- all other codes as they were; without that attribute it changes none.
  pub insert_ext_code-value_of :
      (key key_x k : String) (attr : AttributeMap) (detail : LayerDetail)
      → value_of k ((insert_ext_code ext key key_x attr detail).0).ext_codes
        ≡ updated key_x (text_of attr key) detail.ext_codes k
  unfolding insert_ext_code updated
  insert_ext_code-value_of key key_x k attr detail = by_attr (get attr key)
    where
      by_attr :
          (o : Option Attribute)
          → value_of k
              ((elim o as (λ _. LayerDetail × Bool) [
                | some v ↦ (
                  record detail { ext_codes = put_code ext detail.ext_codes key_x v.as_string },
                  true,
                )
                | none ↦ (detail, false)
              ]).0
                ).ext_codes
            ≡ updated key_x (elim o [ none ↦ none | some v ↦ some v.as_string ]) detail.ext_codes k
      by_attr none = refl
      by_attr (some v) = value_of-put_code detail.ext_codes key_x v.as_string k

  -- InsertExtendedCode does the same to the codes of a transaction.
  pub insert_extended_code-value_of :
      (key key_x k : String) (attr : AttributeMap) (t : Transaction)
      → value_of k ((insert_extended_code ext key key_x attr t).0).extended_codes
        ≡ updated key_x (text_of attr key) t.extended_codes k
  unfolding insert_extended_code updated
  insert_extended_code-value_of key key_x k attr t = by_attr (get attr key)
    where
      by_attr :
          (o : Option Attribute)
          → value_of k
              ((elim o as (λ _. Transaction × Bool) [
                | some v ↦ (
                  record t { extended_codes = put_code ext t.extended_codes key_x v.as_string },
                  true,
                )
                | none ↦ (t, false)
              ]).0
                ).extended_codes
            ≡ updated key_x (elim o [ none ↦ none | some v ↦ some v.as_string ]) t.extended_codes k
      by_attr none = refl
      by_attr (some v) = value_of-put_code t.extended_codes key_x v.as_string k
