-- ===== src/Nudge/Names.antt =====
-- `GetNameType`, `GetInstrumentType` and `MapToString`.

use text.Mathlib.TextLemmas.{nil-append, append_assoc as text_append_assoc}
use text.Mathlib.TextPositions.{len-append, slice-append_left}
use opentelemetry_collector.Prelude.{
  ◌-◌, String, len, slice, List, [], ◌∷◌, map, Option, none, some, ◌+++◌, ◌≡◌, refl, ap, ◌∙◌, arith,
  join, split, Bool, Bool-cases, if◌then◌else◌, ℕ, any, ltb, ◌==◌, false, inl, replace_first, inr,
  true,
}
use opentelemetry_collector.Nudge.Extension.{ExtensionLinux}
use opentelemetry_collector.Nudge.Attributes.{AttributeMap, Attribute, get_keys}
use opentelemetry_collector.Nudge.Result.{Result, ok, panic, slice_bounds, ◌>>=◌}

abbrev tail : List String → List String
tail [] = []
tail (x ∷ xs) = xs

-- GetInstrumentType on the name of a scope
unfoldable pub get_instrument_type : ExtensionLinux → String → Option String
get_instrument_type ext name = elim (split b'/' name) [
  | [] ↦ none
  | x ∷ xs ↦ elim xs [
    | [] ↦ none
    | y ∷ ys ↦ some (ext.to_upper_case1 (join "-" (tail (split b'-' y))))
  ]
]

-- the keys that end in a suffix of five bytes, each without its first occurrence of that suffix
unfoldable pub prefixes : String → List String → Result (List String)
prefixes suffix [] = ok []
prefixes suffix (e ∷ es) =
    let rest = prefixes suffix es in
    if ltb (len e) 5
    then panic slice_bounds
    else (rest >>= λ ps.
        ok (if slice e (len e - 5) (len e) == suffix then replace_first e suffix "" ∷ ps else ps))

abbrev is_member : ExtensionLinux → List String → String → Bool
is_member ext ts t = elim (ext.find String ts (λ u. u == t)) [ none ↦ false | some f ↦ true ]

abbrev found_name : Option (String × ℕ) → Option String
found_name none = none
found_name (some (t, i)) = some t

-- GetNameType; `none` is the negative index
unfoldable pub get_name_type : ExtensionLinux → AttributeMap → Result (Option String)
unfolding prefixes get_keys
get_name_type ext attributes = do
  names ← prefixes ".name" (get_keys attributes)
  types ← prefixes ".type" (get_keys attributes)
  ok (found_name (ext.find String names (is_member ext types)))

-- Some key has less than five bytes.
abbrev pub has_short : List String → Bool
has_short ks = any (λ k. ltb (len k) 5) ks

-- What prefixes returns, by the lengths of the keys.
abbrev pub FailsIf : {A : Type 0} → Bool → Result A → Type 0
FailsIf {A} true r = r ≡ panic slice_bounds
FailsIf {A} false r = (a : A) × (r ≡ ok a)

-- One more step, which fails under the same condition.
FailsIf-bind :
    {A B : Type 0} (b : Bool) (r : Result A) (f : A → Result B)
    → FailsIf b r
    → (b ≡ false → (a : A) → FailsIf b (f a))
    → FailsIf b (r >>= f)
FailsIf-bind true r f h k = ap (λ r. r >>= f) h
FailsIf-bind false r f (a, e) k = let q = k refl a in (q.0, ap (λ r. r >>= f) e ∙ q.1)

returns : {A : Type 0} (b : Bool) (a : A) → b ≡ false → FailsIf b (ok a)
returns true a e = cc
returns false a e = (a, refl)

prefixes-FailsIf :
    (suffix : String) (ks : List String) → FailsIf (has_short ks) (prefixes suffix ks)
unfolding prefixes
prefixes-FailsIf suffix [] = ([], refl)
prefixes-FailsIf suffix (k ∷ ks) = elim (Bool-cases (ltb (len k) 5)) [
  | inl short ↦ rw short refl
  | inr long ↦ rw long (
      FailsIf-bind (has_short ks) (prefixes suffix ks) _ (prefixes-FailsIf suffix ks)
        (λ e ps. returns (has_short ks) _ e))
]

-- GetNameType panics on every map that has a key of less than five bytes, and on no other.
pub get_name_type-FailsIf :
    (ext : ExtensionLinux) (attributes : AttributeMap)
    → FailsIf (has_short (get_keys attributes)) (get_name_type ext attributes)
unfolding get_name_type
get_name_type-FailsIf ext attributes =
    let short = has_short (get_keys attributes) in
    FailsIf-bind short (prefixes ".name" (get_keys attributes)) _
      (prefixes-FailsIf ".name" (get_keys attributes))
      (λ _ names.
        FailsIf-bind short (prefixes ".type" (get_keys attributes)) _
          (prefixes-FailsIf ".type" (get_keys attributes)) (λ e types. returns short _ e))

-- the loop of MapToString
unfoldable pub shown_entries : String → AttributeMap → String
shown_entries s [] = s
shown_entries s ((k, v) ∷ m) = shown_entries (s +++ (k +++ " = " +++ v.as_string +++ " , ")) m

-- MapToString
unfoldable pub map_to_string : AttributeMap → String
unfolding shown_entries
map_to_string [] = ""
map_to_string (e ∷ m) = let s = shown_entries "" (e ∷ m) in slice s 0 (len s - len " , ")

-- an entry of a map as text
abbrev pub entry : String × Attribute → String
entry e = e.0 +++ " = " +++ e.1.as_string

shown_entries-join :
    (s : String) (e : String × Attribute) (m : AttributeMap)
    → shown_entries s (e ∷ m) ≡ (s +++ join " , " (map entry (e ∷ m))) +++ " , "
unfolding shown_entries
shown_entries-join s (k, v) [] = simp text_append_assoc
shown_entries-join s (k, v) (e ∷ m) =
    shown_entries-join (s +++ (k +++ " = " +++ v.as_string +++ " , ")) e m ∙ simp text_append_assoc

without_end : (s : String) → slice (s +++ " , ") 0 (len (s +++ " , ") - len " , ") ≡ s
without_end s = ap (slice (s +++ " , ") 0) is_len ∙ slice-append_left s " , "
  where
    is_len : len (s +++ " , ") - len " , " ≡ len s
    is_len = omega (arith, len-append s " , ")

-- MapToString shows the entries of a map, as `key = value`, with ` , ` between them.
pub map_to_string-join : (m : AttributeMap) → map_to_string m ≡ join " , " (map entry m)
unfolding map_to_string
map_to_string-join [] = refl
map_to_string-join (e ∷ m) =
    ap (λ s. slice s 0 (len s - len " , ")) (shown_entries-join "" e m)
    ∙ without_end ("" +++ join " , " (map entry (e ∷ m)))
    ∙ nil-append (join " , " (map entry (e ∷ m)))
