-- ===== src/Nudge/Stack/Steps.antt =====
-- The fuel of the replacement in a stack trace is enough.
use Prim.Native.String.len.{cons}
use text.Mathlib.TextPositions.{len_utf8-pos}
use Prim.Native.Char.{len_utf8}
use opentelemetry_collector.Nudge.Stack.{
  after_at, skip_space, is_space, lower, mark_calls, stacktrace,
}
use Prim.Native.Char.{Char, code}
use opentelemetry_collector.Prelude.{
  ℕ, zero, suc, ◌+◌, ◌≤◌, ◌<◌, String, len, Bool, true, false, ◌&&◌, Option, none, some, ◌+++◌,
  if◌then◌else◌, ◌≡◌, refl, ap, ◌∙◌, inl, inr, arith, Bool-cases, eqb,
}

pub len-cons : (c : Char) (s : String) → len s < len (String.◌∷◌ c s)
len-cons c s =
    let e : len (String.◌∷◌ c s) ≡ len_utf8 c + len s = cons c s in
    let w = (len_utf8-pos c).1 in omega arith

taken : (b : Bool) (t rest : String) → (if b then some t else none) ≡ some rest → t ≡ rest
taken true t rest h = cc
taken false t rest h = absurd (cc)

pub skip_space-shorter : (s : String) → len (skip_space s) ≤ len s
skip_space-shorter String.[] = omega arith
skip_space-shorter (String.◌∷◌ c s) =
    let rest = skip_space-shorter s in
    let longer = len-cons c s in
    elim (Bool-cases (is_space c)) [ inl e ↦ rw e (omega arith) | inr e ↦ rw e (omega arith) ]

pub after_at-shorter : (s rest : String) → after_at s ≡ some rest → len rest ≤ len s
after_at-shorter String.[] rest h = absurd (cc)
after_at-shorter (String.◌∷◌ c String.[]) rest h = absurd (cc)
after_at-shorter (String.◌∷◌ c (String.◌∷◌ d s)) rest h =
    let skipped = skip_space-shorter s in
    let longer = len-cons d s in
    let longest = len-cons c (String.◌∷◌ d s) in
    let same = ap len (taken (eqb (lower c) b'a' && eqb (lower d) b't') (skip_space s) rest h) in
    omega arith

-- What a step does, with what it calls for the rest of the text.
abbrev pub step : (String → String) → Char → String → String
step go c s =
    if eqb (code c) 10
    then elim (after_at (skip_space s)) [ none ↦ String.◌∷◌ c (go s) | some rest ↦ "#" +++ go rest ]
    else String.◌∷◌ c (go s)

-- Two ways to go on that agree on every shorter text.
step-same :
    (go go' : String → String) (c : Char) (s : String)
    → ((t : String) → len t ≤ len s → go t ≡ go' t)
    → step go c s ≡ step go' c s
step-same go go' c s h = elim (Bool-cases (eqb (code c) 10)) [
  | inr e ↦ rw e (ap (λ t. String.◌∷◌ c t) (h s (omega arith)))
  | inl e ↦ rw e (
      by_rest (after_at (skip_space s)) (λ rest r.
        let spaces = skip_space-shorter s in
        let at = after_at-shorter (skip_space s) rest r in omega arith))
]
  where
    by_rest :
        (o : Option String)
        → ((rest : String) → o ≡ some rest → len rest ≤ len s)
        → elim o as (λ _. String) [ none ↦ String.◌∷◌ c (go s) | some rest ↦ "#" +++ go rest ]
          ≡ elim o as (λ _. String) [ none ↦ String.◌∷◌ c (go' s) | some rest ↦ "#" +++ go' rest ]
    by_rest none k = ap (λ t. String.◌∷◌ c t) (h s (omega arith))
    by_rest (some rest) k = ap (λ t. "#" +++ t) (h rest (k rest refl))

-- The replacement with enough fuel does not depend on the fuel.
mark_calls-enough : (n m : ℕ) (s : String) → len s ≤ n → len s ≤ m → mark_calls n s ≡ mark_calls m s
mark_calls-enough zero zero s h k = refl
mark_calls-enough zero (suc m) String.[] h k = refl
mark_calls-enough (suc n) zero String.[] h k = refl
mark_calls-enough (suc n) (suc m) String.[] h k = refl
mark_calls-enough zero (suc m) (String.◌∷◌ c s) h k = let l = len-cons c s in absurd (omega arith)
mark_calls-enough (suc n) zero (String.◌∷◌ c s) h k = let l = len-cons c s in absurd (omega arith)
mark_calls-enough (suc n) (suc m) (String.◌∷◌ c s) h k =
    let l = len-cons c s in
    step-same (mark_calls n) (mark_calls m) c s
      (λ t le. mark_calls-enough n m t (omega arith) (omega arith))

-- The replacement in a stack trace never runs out of fuel: it satisfies the equation of the
-- replacement without fuel. A line break that `at` follows, with spaces around it, becomes `#` and
-- the rest is replaced in the same way; every other character stays.
pub stacktrace-step : (c : Char) (s : String) → stacktrace (String.◌∷◌ c s) ≡ step stacktrace c s
unfolding stacktrace
stacktrace-step c s =
    let l = len-cons c s in
    let n = len (String.◌∷◌ c s) in
    mark_calls-enough n (suc n) (String.◌∷◌ c s) (omega arith) (omega arith)
    ∙ step-same (mark_calls n) stacktrace c s
        (λ t le. mark_calls-enough n (len t) t (omega arith) (omega arith))
