-- ===== src/Nudge/Result.antt =====
-- A Go function that may panic.
use opentelemetry_collector.Prelude.{◌≡◌, refl, ap, ◌∙◌, subst, Option, none, some, List, [], ◌∷◌}

pub data Fault : Type 0 where
  nil_dereference index_out_of_range slice_bounds : Fault

pub data Result {ℓ} (A : Type ℓ) : Type ℓ where
  ok : A → Result A
  panic : Fault → Result A

infixl 5 ◌>>=◌
abbrev pub ◌>>=◌ {ℓ κ} : {A : Type ℓ} {B : Type κ} → Result A → (A → Result B) → Result B
ok a >>= f = f a
panic e >>= f = panic e

-- A property of what is returned; a panic returns nothing.
pub data Ensures {ℓ} {A : Type ℓ} (P : A → Type ℓ) : Result A → Type ℓ where
  returned : {a : A} → P a → Ensures P (ok a)
  panicked : {e : Fault} → Ensures P (panic e)

module _ {ℓ} {A B : Type ℓ} where
  pub Ensures-bind :
      (P : B → Type ℓ) (r : Result A) (f : A → Result B)
      → ((a : A) → Ensures P (f a))
      → Ensures P (r >>= f)
  Ensures-bind P (ok a) f h = h a
  Ensures-bind P (panic e) f h = panicked

  -- The same, with a property of the first result.
  pub Ensures-then :
      (Q : A → Type ℓ) (P : B → Type ℓ) {r : Result A} {f : A → Result B}
      → Ensures Q r
      → ((a : A) → Q a → Ensures P (f a))
      → Ensures P (r >>= f)
  Ensures-then Q P (returned q) h = h _ q
  Ensures-then Q P panicked h = panicked

pub Ensures-imp {ℓ} :
    {A : Type ℓ} (P Q : A → Type ℓ) {r : Result A}
    → ((a : A) → P a → Q a)
    → Ensures P r
    → Ensures Q r
Ensures-imp P Q f (returned p) = returned (f _ p)
Ensures-imp P Q f panicked = panicked

pub Ensures-both {ℓ} :
    {A : Type ℓ} (P Q : A → Type ℓ) {R : A → Type ℓ} {r : Result A}
    → ((a : A) → P a → Q a → R a)
    → Ensures P r
    → Ensures Q r
    → Ensures R r
Ensures-both P Q f (returned p) (returned q) = returned (f _ p q)
Ensures-both P Q f panicked k = panicked

-- A property of whatever is returned, from a proof about each result.
pub Ensures-all {ℓ} :
    {A : Type ℓ} (P : A → Type ℓ) (r : Result A) → ((a : A) → r ≡ ok a → P a) → Ensures P r
Ensures-all P (ok a) f = returned (f a refl)
Ensures-all P (panic e) f = panicked

pub Ensures-ok {ℓ} :
    {A : Type ℓ} (P : A → Type ℓ) {r : Result A} (a : A) → r ≡ ok a → Ensures P r → P a
Ensures-ok P a e (returned p) = subst P (cc) p
Ensures-ok P a e panicked = cc

-- The function panics.
abbrev pub Panics {ℓ} : {A : Type ℓ} → Result A → Type ℓ
Panics r = (f : Fault) × (r ≡ panic f)

module _ {ℓ} {A B : Type ℓ} where
  pub Panics-left : (r : Result A) (f : A → Result B) → Panics r → Panics (r >>= f)
  Panics-left r f (e, h) = (e, ap (λ q. q >>= f) h)

  pub Panics-right : (r : Result A) (f : A → Result B) → ((a : A) → Panics (f a)) → Panics (r >>= f)
  Panics-right (ok a) f h = h a
  Panics-right (panic e) f h = (e, refl)

-- The function returns.
abbrev pub Returns {ℓ} : {A : Type ℓ} → Result A → Type ℓ
Returns {A} r = (a : A) × (r ≡ ok a)

pub Returns-bind {ℓ} :
    {A B : Type ℓ} (r : Result A) (f : A → Result B)
    → Returns r
    → ((a : A) → Returns (f a))
    → Returns (r >>= f)
Returns-bind r f (a, e) h = let q = h a in (q.0, ap (λ r. r >>= f) e ∙ q.1)

-- A pointer that is dereferenced.
abbrev pub deref {ℓ} : {A : Type ℓ} → Option A → Result A
deref none = panic nil_dereference
deref (some a) = ok a

-- xs[0]
abbrev pub first {ℓ} : {A : Type ℓ} → List A → Result A
first [] = panic index_out_of_range
first (x ∷ xs) = ok x
