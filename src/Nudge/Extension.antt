-- ===== src/Nudge/Extension.antt =====
-- The package `extensionlinux`, which the repository uses and does not contain: its functions are
-- parameters. They carry the names of JavaScript's array methods, and the laws below are what the
-- code relies on. The pair of a value and an index that `Find` returns is an option here: `none`
-- is the zero value with a negative index.
use opentelemetry_collector.Prelude.{
  ℕ, zero, suc, ◌+◌, String, Bool, List, [], ◌∷◌, ◌++◌, map, Option, none, some, ◌≡◌, ◌==◌,
  if◌then◌else◌, any,
}

module _ {A : Type 0} where
  -- The first element that passes a test, with its index, counted from `i`.
  unfoldable pub find_from : ℕ → List A → (A → Bool) → Option (A × ℕ)
  find_from i [] p = none
  find_from i (x ∷ xs) p = if p x then some (x, i) else find_from (i + 1) xs p

  -- The elements that pass a test.
  unfoldable pub keep_if : (A → Bool) → List A → List A
  keep_if p [] = []
  keep_if p (x ∷ xs) = if p x then x ∷ keep_if p xs else keep_if p xs

  -- A list without its element at an index.
  unfoldable pub remove_at : List A → ℕ → List A
  remove_at [] i = []
  remove_at (x ∷ xs) zero = xs
  remove_at (x ∷ xs) (suc i) = x ∷ remove_at xs i

  -- The index of a search's result.
  abbrev pub index_of : Option (A × ℕ) → Option ℕ
  index_of none = none
  index_of (some (x, i)) = some i

pub record ExtensionLinux : Type 1 where
  pub find : (A : Type 0) → List A → (A → Bool) → Option (A × ℕ)
  pub find_index : (A : Type 0) → List A → (A → Bool) → Option ℕ
  pub map_text : List String → (String → String) → List String
  pub filter : List String → (String → Bool) → List String
  pub splice : (A : Type 0) → List A → ℕ → ℕ → List A
  pub append_unique : List String → String → List String
  pub includes_one_field : List String → List String → Bool
  pub starts_with : String → String → Bool
  pub to_upper_case1 : String → String
  pub find_lem : (A : Type 0) (xs : List A) (p : A → Bool) → find A xs p ≡ find_from 0 xs p
  pub find_index_lem :
      (A : Type 0) (xs : List A) (p : A → Bool) → find_index A xs p ≡ index_of (find_from 0 xs p)
  pub map_text_lem : (xs : List String) (f : String → String) → map_text xs f ≡ map f xs
  pub filter_lem : (xs : List String) (p : String → Bool) → filter xs p ≡ keep_if p xs
  pub includes_one_field_lem :
      (xs ys : List String) → includes_one_field xs ys ≡ any (λ y. any (λ x. x == y) xs) ys
  pub splice_lem : (A : Type 0) (xs : List A) (i : ℕ) → splice A xs i 1 ≡ remove_at xs i
  pub append_unique_lem :
      (xs : List String) (x : String)
      → append_unique xs x ≡ (if any (λ y. y == x) xs then xs else xs ++ x ∷ [])
