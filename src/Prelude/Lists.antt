-- ===== src/Prelude/Lists.antt =====
-- Lists with native lengths and indices, and predicates on every or some element of a list.
use Prim.Native.Nat.{ℕ, zero, suc, ◌+◌}
use mathlib.Core.Path.{◌≡◌, refl, sym, ap, subst}
use mathlib.Core.Bool.{Bool, true, false, ◌&&◌, ◌||◌}
use mathlib.Core.Option.{Option, none, some}
use mathlib.Core.List.{List, [], ◌∷◌, ◌++◌, map}
use native.Mathlib.Omega.{arith}

module _ {ℓ} {A : Type ℓ} where
  abbrev pub length : List A → ℕ
  length [] = 0
  length (x ∷ xs) = suc (length xs)

  abbrev pub get_elem? : List A → ℕ → Option A
  get_elem? [] i = none
  get_elem? (x ∷ xs) zero = some x
  get_elem? (x ∷ xs) (suc i) = get_elem? xs i

  pub length-append : (xs ys : List A) → length (xs ++ ys) ≡ length xs + length ys
  length-append [] ys = omega arith
  length-append (x ∷ xs) ys = omega (arith, length-append xs ys)

  abbrev pub all : (A → Bool) → List A → Bool
  all p [] = true
  all p (x ∷ xs) = p x && all p xs

  abbrev pub any : (A → Bool) → List A → Bool
  any p [] = false
  any p (x ∷ xs) = p x || any p xs

module _ {ℓ κ} {A : Type ℓ} {B : Type κ} where
  abbrev pub concat_map : (A → List B) → List A → List B
  concat_map f [] = []
  concat_map f (x ∷ xs) = f x ++ concat_map f xs

module _ {ℓ κ} {A : Type ℓ} (P : A → Type κ) where
  -- Every element of a list.
  abbrev pub All : List A → Type κ
  All [] = Unit
  All (x ∷ xs) = P x × All xs

  pub All-append : (xs ys : List A) → All xs → All ys → All (xs ++ ys)
  All-append [] ys h k = k
  All-append (x ∷ xs) ys (p, h) k = (p, All-append xs ys h k)

module _ {ℓ κ μ} {A : Type ℓ} {P : A → Type κ} {Q : A → Type μ} where
  pub All-imp : ((x : A) → P x → Q x) → (xs : List A) → All P xs → All Q xs
  All-imp f [] h = tt
  All-imp f (x ∷ xs) h = (f x h.0, All-imp f xs h.1)

-- `x` is an element of a list, with the place kept.
pub data In {ℓ} {A : Type ℓ} (x : A) : List A → Type ℓ where
  here : {y : A} {ys : List A} → x ≡ y → In x (y ∷ ys)
  there : {y : A} {ys : List A} → In x ys → In x (y ∷ ys)

module _ {ℓ} {A : Type ℓ} {x : A} where
  pub In-append_left : {xs : List A} (ys : List A) → In x xs → In x (xs ++ ys)
  In-append_left ys (here e) = here e
  In-append_left ys (there h) = there (In-append_left ys h)

  pub In-append_right : (xs : List A) {ys : List A} → In x ys → In x (xs ++ ys)
  In-append_right [] h = h
  In-append_right (z ∷ xs) h = there (In-append_right xs h)

  -- What holds of every element holds of an element.
  pub All-In {κ} : (P : A → Type κ) {xs : List A} → All P xs → In x xs → P x
  All-In P h (here e) = subst P (sym e) h.0
  All-In P h (there k) = All-In P h.1 k

module _ {ℓ κ} {A : Type ℓ} {B : Type κ} where
  pub In-concat_map :
      (f : A → List B) {x : A} {xs : List A} {y : B} → In x xs → In y (f x) → In y (concat_map f xs)
  In-concat_map f {y} (here {ys = zs} e) k =
      In-append_left (concat_map f zs) (subst (λ w. In y (f w)) e k)
  In-concat_map f (there {y = z} h) k = In-append_right (f z) (In-concat_map f h k)

  pub In-map : (f : A → B) {x : A} {xs : List A} → In x xs → In (f x) (map f xs)
  In-map f (here e) = here (ap f e)
  In-map f (there h) = there (In-map f h)

  -- A claim for the image of each element of a list holds of all that the list is mapped to.
  pub All-concat_map {μ} :
      (P : B → Type μ) (f : A → List B) (xs : List A)
      → ((x : A) → In x xs → All P (f x))
      → All P (concat_map f xs)
  All-concat_map P f [] h = tt
  All-concat_map P f (x ∷ xs) h =
      All-append P (f x) (concat_map f xs) (h x (here refl))
        (All-concat_map P f xs (λ y k. h y (there k)))
