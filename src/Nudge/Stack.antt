-- ===== src/Nudge/Stack.antt =====
-- The two texts of a stack trace: the regular expressions that nudge.go replaces in it.
pub mod Steps
pub mod Calls
use Prim.Native.Char.{Char, code}
use opentelemetry_collector.Prelude.{
  ℕ, zero, suc, String, len, Bool, ◌&&◌, ◌||◌, List, map, Option, none, some, eqb, if◌then◌else◌,
  ◌+++◌, join, replace_char, lower,
}
use opentelemetry_collector.Nudge.Attributes.{Item}

-- `\s`
abbrev pub is_space : Char → Bool
is_space c =
    eqb (code c) 9 || eqb (code c) 10 || eqb (code c) 12 || eqb (code c) 13 || eqb (code c) 32

abbrev pub skip_space : String → String
skip_space String.[] = String.[]
skip_space (String.◌∷◌ c s) = let rest = skip_space s in if is_space c then rest else String.◌∷◌ c s

-- what follows `at` and spaces, if a text begins with that
abbrev pub after_at : String → Option String
after_at String.[] = none
after_at (String.◌∷◌ c String.[]) = none
after_at (String.◌∷◌ c (String.◌∷◌ d s)) =
    if eqb (lower c) b'a' && eqb (lower d) b't' then some (skip_space s) else none

-- the matches of `(?i)\n\s*at\s*` replaced by `#`; each step takes at least one character, so the
-- length of the text is enough fuel
abbrev pub mark_calls : ℕ → String → String
mark_calls zero s = s
mark_calls (suc fuel) String.[] = String.[]
mark_calls (suc fuel) (String.◌∷◌ c s) =
    let plain = mark_calls fuel s in
    if eqb (code c) 10
    then elim (after_at (skip_space s)) [
      | none ↦ String.◌∷◌ c plain
      | some rest ↦ "#" +++ mark_calls fuel rest
    ]
    else String.◌∷◌ c plain

-- A trace that is a slice of lines, and the two forms of a trace.
unfoldable pub trace_of : List Item → String
trace_of xs = join "\n" (map (λ (i : Item). i.raw_string) xs)

unfoldable pub stacktrace : String → String
stacktrace s = mark_calls (len s) s

unfoldable pub jvm_stacktrace : String → String
jvm_stacktrace s = replace_char 10 "\r\n\t" s
