-- ===== src/Nudge/Translate/Search.antt =====
-- What the search of an array by a test finds, with the array taken apart at the place.
use opentelemetry_collector.Prelude.{
  ℕ, ◌+◌, Bool, true, false, List, [], ◌∷◌, ◌++◌, Option, none, some, ◌≡◌, refl, ap, inl, inr,
  arith, Bool-cases, length, any,
}
use opentelemetry_collector.Nudge.Extension.{ExtensionLinux, find_from}
use opentelemetry_collector.Nudge.Send.{set}

-- The first element that passes the test, between those before it and those after it; `i` is its
-- index, counted from `n`.
pub data Found {A : Type 0} (p : A → Bool) (n : ℕ) (xs : List A) : Option (A × ℕ) → Type 0 where
  found :
      {i : ℕ} (before : List A) (x : A) (after : List A)
      → xs ≡ before ++ x ∷ after
      → i ≡ n + length before
      → any p before ≡ false
      → p x ≡ true
      → Found p n xs (some (x, i))
  missing : any p xs ≡ false → Found p n xs none

module _ {A : Type 0} where
  Found-cons :
      (p : A → Bool) (n : ℕ) (y : A) (xs : List A) (r : Option (A × ℕ))
      → p y ≡ false
      → Found p (n + 1) xs r
      → Found p n (y ∷ xs) r
  Found-cons p n y xs _ e (found before x after q i h k) =
      found (y ∷ before) x after (ap (λ l. y ∷ l) q) (omega arith) (ground arith) k
  Found-cons p n y xs _ e (missing h) = missing (ground arith)

  find_from-Found : (p : A → Bool) (n : ℕ) (xs : List A) → Found p n xs (find_from n xs p)
  unfolding find_from
  find_from-Found p n [] = missing refl
  find_from-Found p n (x ∷ xs) = elim (Bool-cases (p x)) [
    | inl e ↦ rw (e, find_from) (found [] x xs refl (omega arith) refl e)
    | inr e ↦
        rw (e, find_from)
          (Found-cons p n x xs (find_from (n + 1) xs p) e (find_from-Found p (n + 1) xs))
  ]

  pub find-Found :
      (ext : ExtensionLinux) (p : A → Bool) (xs : List A) → Found p 0 xs (ext.find A xs p)
  find-Found ext p xs = rw (ext.find_lem A xs p) (find_from-Found p 0 xs)

  pub set-place :
      (xs : List A) (y v : A) (zs : List A) → set (xs ++ y ∷ zs) (length xs) v ≡ xs ++ v ∷ zs
  set-place [] y v zs = refl
  set-place (x ∷ xs) y v zs = ap (λ l. x ∷ l) (set-place xs y v zs)
