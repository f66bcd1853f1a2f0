-- ===== src/Nudge/Stack/Calls.antt =====
-- What the replacement in a stack trace is, by the matches of its regular expression.
use opentelemetry_collector.Nudge.Stack.{after_at, skip_space, is_space, stacktrace, lower}
use opentelemetry_collector.Nudge.Stack.Steps.{
  stacktrace-step, skip_space-shorter, after_at-shorter, len-cons,
}
use Prim.Native.Char.{Char, code}
use opentelemetry_collector.Prelude.{
  ℕ, zero, suc, ◌≤◌, String, len, true, false, ◌&&◌, none, some, ◌+++◌, ◌≡◌, refl, sym, ap, subst,
  ◌⊎◌, inl, inr, arith, Bool-cases, Option-cases, eqb,
}

-- `\s`: a tab, a line feed, a form feed, a carriage return or a space.
abbrev pub IsSpace : Char → Type 0
IsSpace c = (code c ≡ 9) ⊎ ((code c ≡ 10) ⊎ ((code c ≡ 12) ⊎ ((code c ≡ 13) ⊎ (code c ≡ 32))))

-- `\s*` matches a beginning of the first text, and the second one is what follows.
pub data Spaces : String → String → Type 0 where
  here : {s : String} → Spaces s s
  more : {c : Char} {s rest : String} → IsSpace c → Spaces s rest → Spaces (String.◌∷◌ c s) rest

-- `(?i)\n\s*at\s*` matches a beginning of the first text, and the second one is what follows.
abbrev pub IsCall : String → String → Type 0
IsCall String.[] rest = ⊥
IsCall (String.◌∷◌ n s) rest =
    (code n ≡ 10)
    × ((c : Char) × (d : Char) × (t : String) × Spaces s (String.◌∷◌ c (String.◌∷◌ d t))
        × ((code c ≡ b'a') ⊎ (code c ≡ b'A'))
        × ((code d ≡ b't') ⊎ (code d ≡ b'T'))
        × Spaces t rest)

abbrev pub BeginsWithSpace : String → Type 0
BeginsWithSpace String.[] = ⊥
BeginsWithSpace (String.◌∷◌ c s) = IsSpace c

-- The matches, each the first one from the left and as long as it can be, replaced by `#`.
pub data Replaced : String → String → Type 0 where
  ends : Replaced "" ""
  call :
      {s rest out : String}
      → IsCall s rest
      → ¬ BeginsWithSpace rest
      → Replaced rest out
      → Replaced s ("#" +++ out)
  other :
      {c : Char} {s out : String}
      → ((rest : String) → ¬ IsCall (String.◌∷◌ c s) rest)
      → Replaced s out
      → Replaced (String.◌∷◌ c s) (String.◌∷◌ c out)

is_space-IsSpace : (c : Char) → is_space c ≡ true → IsSpace c
is_space-IsSpace c h = ground arith

is_space-not_IsSpace : (c : Char) → is_space c ≡ false → ¬ IsSpace c
is_space-not_IsSpace c h k = ground arith

IsSpace-is_space : (c : Char) → IsSpace c → is_space c ≡ true
IsSpace-is_space c h = ground arith

skip_space-Spaces : (s : String) → Spaces s (skip_space s)
skip_space-Spaces String.[] = here
skip_space-Spaces (String.◌∷◌ c s) = elim (Bool-cases (is_space c)) [
  | inl e ↦ rw e (more (is_space-IsSpace c e) (skip_space-Spaces s))
  | inr e ↦ rw e here
]

skip_space-end : (s : String) → ¬ BeginsWithSpace (skip_space s)
skip_space-end String.[] = λ h. h
skip_space-end (String.◌∷◌ c s) = elim (Bool-cases (is_space c)) [
  | inl e ↦ rw e (skip_space-end s)
  | inr e ↦ rw e (is_space-not_IsSpace c e)
]

-- Two texts with spaces between their beginnings have the same rest after all spaces.
Spaces-skip_space : (s rest : String) → Spaces s rest → skip_space s ≡ skip_space rest
Spaces-skip_space s _ here = refl
Spaces-skip_space _ rest (more {c} {s} h k) = rw (IsSpace-is_space c h) (Spaces-skip_space s rest k)

after_at-letters :
    (s rest : String)
    → after_at s ≡ some rest
    → (c : Char) × (d : Char) × (t : String) × (s ≡ String.◌∷◌ c (String.◌∷◌ d t))
      × ((code c ≡ b'a') ⊎ (code c ≡ b'A'))
      × ((code d ≡ b't') ⊎ (code d ≡ b'T'))
      × (skip_space t ≡ rest)
after_at-letters String.[] rest h = absurd (cc)
after_at-letters (String.◌∷◌ c String.[]) rest h = absurd (cc)
after_at-letters (String.◌∷◌ c (String.◌∷◌ d t)) rest h =
    elim (Bool-cases (eqb (lower c) b'a' && eqb (lower d) b't')) [
      | inl e ↦ (c, d, t, refl, ground arith, ground arith, ground arith)
      | inr e ↦ absurd (ground arith)
    ]

after_at-found :
    (c d : Char) (t : String)
    → ((code c ≡ b'a') ⊎ (code c ≡ b'A'))
    → ((code d ≡ b't') ⊎ (code d ≡ b'T'))
    → after_at (skip_space (String.◌∷◌ c (String.◌∷◌ d t))) ≡ some (skip_space t)
after_at-found c d t h k =
    let letter : is_space c ≡ false = ground arith in
    let first : eqb (lower c) b'a' ≡ true = ground arith in
    let second : eqb (lower d) b't' ≡ true = ground arith in rw (letter, first, second) refl

-- No match at a line feed that `at` does not follow.
missing-IsCall :
    (c : Char) (s rest : String) → after_at (skip_space s) ≡ none → ¬ IsCall (String.◌∷◌ c s) rest
missing-IsCall c s rest h (line, (a, t, u, spaces, first, second, _)) =
    let same = ap after_at (Spaces-skip_space s _ spaces) in
    let found = after_at-found a t u first second in cc

found-IsCall :
    (c : Char) (s rest : String)
    → eqb (code c) 10 ≡ true
    → after_at (skip_space s) ≡ some rest
    → IsCall (String.◌∷◌ c s) rest × (¬ BeginsWithSpace rest)
found-IsCall c s rest e h =
    let (a, t, u, at, first, second, same) = after_at-letters (skip_space s) rest h in
    (
      (
        ground arith,
        (
          a,
          t,
          u,
          subst (Spaces s) at (skip_space-Spaces s),
          first,
          second,
          subst (Spaces u) same (skip_space-Spaces u),
        ),
      ),
      subst (λ r. ¬ BeginsWithSpace r) same (skip_space-end u),
    )

replaced_within : (n : ℕ) (s : String) → len s ≤ n → Replaced s (stacktrace s)
unfolding stacktrace
replaced_within n String.[] h = ends
replaced_within zero (String.◌∷◌ c s) h = let l = len-cons c s in absurd (omega arith)
replaced_within (suc n) (String.◌∷◌ c s) h =
    let l = len-cons c s in
    let rest_of_line = replaced_within n s (omega arith) in
    subst (Replaced (String.◌∷◌ c s)) (sym (stacktrace-step c s))
      (elim (Bool-cases (eqb (code c) 10)) [
        | inr e ↦ rw e (other (λ rest k. let line = k.0 in absurd (ground arith)) rest_of_line)
        | inl e ↦ elim (Option-cases (after_at (skip_space s))) [
          | inl m ↦ rw (e, m) (other (λ rest. missing-IsCall c s rest m) rest_of_line)
          | inr (rest, m) ↦
              let (called, longest) = found-IsCall c s rest e m in
              let spaces = skip_space-shorter s in
              let shorter = after_at-shorter (skip_space s) rest m in
              rw (e, m) (call called longest (replaced_within n rest (omega arith)))
        ]
      ])

-- The text of a stack trace is the trace with the matches of `(?i)\n\s*at\s*` replaced by `#`: from
-- the left, and each as long as it can be.
pub stacktrace-Replaced : (s : String) → Replaced s (stacktrace s)
stacktrace-Replaced s = replaced_within (len s) s (omega arith)
