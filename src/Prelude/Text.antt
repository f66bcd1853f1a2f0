-- ===== src/Prelude/Text.antt =====
-- The functions of Go's `strings` and `path` that the program calls, over native texts.
use Prim.Native.Nat.{ℕ, zero, suc, ◌+◌}
use Prim.Native.Char.{Char, code}
use mathlib.Core.Bool.{Bool, true, false, ◌&&◌}
use opentelemetry_collector.Prelude.Tests.{eqb, leb, if◌then◌else◌}
use Prim.Native.String
use Prim.Native.String.{String, len, slice}
use mathlib.Core.Option.{none, some, Option}
use mathlib.Core.List.{List, [], ◌∷◌}
use text.Mathlib.Text.{find?}

infixr 65 ◌+++◌
-- Concatenation of texts, `++` being that of lists.
abbrev pub ◌+++◌ : String → String → String
◌+++◌ = String.◌++◌

-- strings.Replace(s, old, new, 1), for `old` that is not empty
abbrev pub replace_first : String → String → String → String
replace_first s old new = elim (find? s old) [
  | none ↦ s
  | some i ↦ slice s 0 i +++ new +++ slice s (i + len old) (len s)
]

-- strings.Join(parts, sep)
abbrev pub join : String → List String → String
join sep [] = ""
join sep (x ∷ []) = x
join sep (x ∷ y ∷ ys) = x +++ sep +++ join sep (y ∷ ys)

-- the characters of a native text that a test accepts, by their numbers
abbrev pub code_is : ℕ → Char → Bool
code_is n c = eqb (code c) n

abbrev on_head : Char → List String → List String
on_head c [] = String.◌∷◌ c String.[] ∷ []
on_head c (x ∷ xs) = String.◌∷◌ c x ∷ xs

-- strings.Split(s, sep), for a separator of one character
abbrev pub split : ℕ → String → List String
split sep String.[] = String.[] ∷ []
split sep (String.◌∷◌ c s) =
    let rest = split sep s in if code_is sep c then String.[] ∷ rest else on_head c rest

-- strings.ReplaceAll(s, old, new), for an old of one character
abbrev pub replace_char : ℕ → String → String → String
replace_char old new String.[] = String.[]
replace_char old new (String.◌∷◌ c s) =
    let rest = replace_char old new s in if code_is old c then new +++ rest else String.◌∷◌ c rest

-- strings.Replace(s, old, "", -1), for `old` that is not empty, in at most `fuel` steps; each step
-- takes at least one character, so `len s` steps are enough
abbrev pub remove_all : ℕ → String → String → String
remove_all zero s old = s
remove_all (suc fuel) s old = elim (find? s old) [
  | none ↦ s
  | some i ↦ slice s 0 i +++ remove_all fuel (slice s (i + len old) (len s)) old
]

-- the number of a character in lower case, where that is of ASCII: U+0130 and the sign for Kelvin are
-- the only characters outside ASCII with such a lower case; every other one keeps its number
abbrev pub lower : Char → ℕ
lower c =
    if leb b'A' (code c) && leb (code c) b'Z'
    then code c + 32
    else if eqb (code c) 304
    then b'i'
    else if eqb (code c) 8490
    then b'k'
    else code c

-- strings.ToLower(s) == strings.ToLower(t), where one of them is a text of ASCII
abbrev pub equal_lower : String → String → Bool
equal_lower String.[] String.[] = true
equal_lower String.[] (String.◌∷◌ d t) = false
equal_lower (String.◌∷◌ c s) String.[] = false
equal_lower (String.◌∷◌ c s) (String.◌∷◌ d t) = eqb (lower c) (lower d) && equal_lower s t

-- strings.SplitN(s, sep, 2), for a separator of one character: the text before the first one, and
-- the text behind it if there is one
abbrev pub cut : ℕ → String → String × Option String
cut sep String.[] = ("", none)
cut sep (String.◌∷◌ c s) =
    let r = cut sep s in if code_is sep c then ("", some s) else (String.◌∷◌ c r.0, r.1)
