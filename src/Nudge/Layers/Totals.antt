-- ===== src/Nudge/Layers/Totals.antt =====
-- What the aggregates of a layer say of its calls.
use opentelemetry_collector.Prelude.{
  ℕ, zero, suc, ◌+◌, length, subst, String, Bool, false, List, [], ◌∷◌, ◌++◌, map, Option, none,
  some, ◌≡◌, refl, sym, ◌∙◌, ap, arith, All, All-append, Bool-cases, inl, inr, add64, min64, slt,
}
use opentelemetry_collector.Nudge.Extension.{ExtensionLinux, find_from}
use opentelemetry_collector.Nudge.Model.{Layer, LayerDetail, get_or_zero}
use opentelemetry_collector.Nudge.Send.{set}
use opentelemetry_collector.Nudge.Layers.{is_named, new_layer, open_layer, add_error, close_layer}

-- `int64` numbers added up in their order
abbrev pub total : ℕ → List ℕ → ℕ
total acc [] = acc
total acc (n ∷ ns) = total (add64 acc n) ns

total-snoc : (acc n : ℕ) (ns : List ℕ) → total acc (ns ++ n ∷ []) ≡ add64 (total acc ns) n
total-snoc acc n [] = refl
total-snoc acc n (m ∷ ns) = total-snoc (add64 acc m) n ns

-- A number of each call.
abbrev pub of_calls : (LayerDetail → Option ℕ) → List LayerDetail → List ℕ
of_calls f ds = map (λ d. get_or_zero (f d)) ds

of_calls-snoc :
    (f : LayerDetail → Option ℕ) (ds : List LayerDetail) (d : LayerDetail)
    → of_calls f (ds ++ d ∷ []) ≡ of_calls f ds ++ get_or_zero (f d) ∷ []
of_calls-snoc f [] d = refl
of_calls-snoc f (c ∷ ds) d = ap (λ ns. get_or_zero (f c) ∷ ns) (of_calls-snoc f ds d)

-- The count and the time of a layer are the sums of those of its calls.
pub record IsTotalled (l : Layer) : Type 0 where
  pub counted : get_or_zero l.count ≡ total 0 (of_calls (λ d. d.count) l.calls)
  pub timed : get_or_zero l.time ≡ total 0 (of_calls (λ d. d.time) l.calls)

pub new_layer-IsTotalled : (name : String) → IsTotalled (new_layer name)
unfolding new_layer
new_layer-IsTotalled name = record { counted = refl; timed = refl }

pub add_error-IsTotalled : (l : Layer) → IsTotalled l → IsTotalled (add_error l)
unfolding add_error
add_error-IsTotalled l h = record { counted = h.counted; timed = h.timed }

sum-snoc :
    (f : LayerDetail → Option ℕ) (ds : List LayerDetail) (d : LayerDetail) (n : ℕ)
    → n ≡ total 0 (of_calls f ds)
    → add64 n (get_or_zero (f d)) ≡ total 0 (of_calls f (ds ++ d ∷ []))
sum-snoc f ds d n h =
    ap (λ m. add64 m (get_or_zero (f d))) h
    ∙ sym (ap (total 0) (of_calls-snoc f ds d) ∙ total-snoc 0 (get_or_zero (f d)) (of_calls f ds))

pub close_layer-IsTotalled :
    (d : LayerDetail) (l : Layer) → IsTotalled l → IsTotalled (close_layer d l)
unfolding close_layer
close_layer-IsTotalled d l h = record {
  counted = sum-snoc (λ d. d.count) l.calls d _ h.counted;
  timed = sum-snoc (λ d. d.time) l.calls d _ h.timed;
}

module _ (P : Layer → Type 0) where
  abbrev FoundIs : Option (Layer × ℕ) → Type 0
  FoundIs none = Unit {0}
  FoundIs (some (l, j)) = P l

  find_from-FoundIs :
      (i : ℕ) (ls : List Layer) (p : Layer → Bool) → All P ls → FoundIs (find_from i ls p)
  unfolding find_from
  find_from-FoundIs i [] p h = tt
  find_from-FoundIs i (l ∷ ls) p h = elim (Bool-cases (p l)) [
    | inl e ↦ rw (e, find_from) (h.0)
    | inr e ↦ rw (e, find_from) (find_from-FoundIs (i + 1) ls p h.1)
  ]

  pub set-All : (ls : List Layer) (i : ℕ) (l : Layer) → All P ls → P l → All P (set ls i l)
  set-All [] i l h k = tt
  set-All (m ∷ ls) zero l h k = (k, h.1)
  set-All (m ∷ ls) (suc i) l h k = (h.0, set-All ls i l h.1 k)

  pub open_layer-All :
      (ext : ExtensionLinux) (ls : List Layer) (name : String)
      → All P ls
      → P (new_layer name)
      → All P (open_layer ext ls name).0 × P (open_layer ext ls name).1.0
  unfolding open_layer
  open_layer-All ext ls name h k = by_found (ext.find Layer ls (is_named name)) (
      subst FoundIs (sym (ext.find_lem Layer ls (is_named name)))
        (find_from-FoundIs 0 ls (is_named name) h))
    where
      by_found :
          (f : Option (Layer × ℕ))
          → FoundIs f
          → let opened = elim f as (λ _. List Layer × (Layer × ℕ)) [
            | some (l, i) ↦ (ls, (l, i))
            | none ↦ (ls ++ new_layer name ∷ [], (new_layer name, length ls))
          ] in
            All P opened.0 × P opened.1.0
      by_found none q = (All-append P ls (new_layer name ∷ []) h (k, tt), k)
      by_found (some (l, i)) q = (h, q)

-- The minimum of a layer is missing or is not positive.
abbrev pub IsNotPositive : Layer → Type 0
IsNotPositive l = slt 0 (get_or_zero l.min) ≡ false

min64-not_positive : (a b : ℕ) → slt 0 a ≡ false → slt 0 (min64 a b) ≡ false
min64-not_positive a b h = ground arith

pub new_layer-IsNotPositive : (name : String) → IsNotPositive (new_layer name)
unfolding new_layer
new_layer-IsNotPositive name = refl

pub add_error-IsNotPositive : (l : Layer) → IsNotPositive l → IsNotPositive (add_error l)
unfolding add_error
add_error-IsNotPositive l h = h

pub close_layer-IsNotPositive :
    (d : LayerDetail) (l : Layer) → IsNotPositive l → IsNotPositive (close_layer d l)
unfolding close_layer
close_layer-IsNotPositive d l h = min64-not_positive (get_or_zero l.min) (get_or_zero d.time) h
