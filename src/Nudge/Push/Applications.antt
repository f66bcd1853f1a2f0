-- ===== src/Nudge/Push/Applications.antt =====
-- The application ids that `pushTraces` collects from the buffer.
use opentelemetry_collector.Prelude.{
  String, Bool, true, false, not, ◌&&◌, ◌||◌, List, [], ◌∷◌, ◌++◌, ◌≡◌, refl, subst, arith, any,
  ◌==◌, eq_iff, Bool-cases, inl, inr,
}
use opentelemetry_collector.Nudge.Model.{TransactionNudge}
use opentelemetry_collector.Nudge.Push.{collect_ids, application_ids}

abbrev pub contains : List String → String → Bool
contains xs s = any (λ u. u == s) xs

abbrev pub distinct : List String → Bool
distinct [] = true
distinct (x ∷ xs) = not (contains xs x) && distinct xs

-- Some buffered transaction belongs to the application `id`.
abbrev pub used : List TransactionNudge → String → Bool
used ts id = any (λ (t : TransactionNudge). t.tag.application_id == id) ts

pub contains-append :
    (xs ys : List String) (s : String) → contains (xs ++ ys) s ≡ (contains xs s || contains ys s)
contains-append [] ys s = refl
contains-append (x ∷ xs) ys s = ground (arith, contains-append xs ys s)

eq_sym : (s t : String) → (s == t) ≡ (t == s)
eq_sym s t = ground (arith, eq_iff s t, eq_iff t s)

contains-eq :
    (xs : List String) (s t : String)
    → contains xs s ≡ true
    → (s == t) ≡ true
    → contains xs t ≡ true
contains-eq xs s t h e = subst (λ u. contains xs u ≡ true) ((eq_iff s t).0 e) h

pub distinct-snoc :
    (xs : List String) (s : String)
    → distinct xs ≡ true
    → contains xs s ≡ false
    → distinct (xs ++ s ∷ []) ≡ true
distinct-snoc [] s h k = refl
distinct-snoc (x ∷ xs) s h k =
    ground (arith, distinct-snoc xs s, contains-append xs (s ∷ []) x, eq_sym s x)

collect_ids-contains :
    (ids : List String) (ts : List TransactionNudge) (s : String)
    → contains (collect_ids ids ts) s ≡ (contains ids s || used ts s)
unfolding collect_ids
collect_ids-contains ids [] s = ground arith
collect_ids-contains ids (t ∷ ts) s = elim (Bool-cases (contains ids t.tag.application_id)) [
  | inl e ↦
      rw (e, collect_ids)
        (ground (arith, collect_ids-contains ids ts s, contains-eq ids t.tag.application_id s))
  | inr e ↦
      rw (e, collect_ids)
        (ground (
          arith,
          collect_ids-contains (ids ++ t.tag.application_id ∷ []) ts s,
          contains-append ids (t.tag.application_id ∷ []) s,
        ))
]

collect_ids-distinct :
    (ids : List String) (ts : List TransactionNudge)
    → distinct ids ≡ true
    → distinct (collect_ids ids ts) ≡ true
unfolding collect_ids
collect_ids-distinct ids [] h = h
collect_ids-distinct ids (t ∷ ts) h = elim (Bool-cases (contains ids t.tag.application_id)) [
  | inl e ↦ rw (e, collect_ids) (collect_ids-distinct ids ts h)
  | inr e ↦
      rw (e, collect_ids) (collect_ids-distinct _ ts (distinct-snoc ids t.tag.application_id h e))
]

-- The ids that pushTraces collects before its rounds are the application ids of the buffered
-- transactions, the empty one included: all of them, no others, and each once.
pub application_ids-exact :
    (ts : List TransactionNudge)
    → ((s : String) → contains (application_ids ts) s ≡ used ts s)
      × (distinct (application_ids ts) ≡ true)
unfolding application_ids
application_ids-exact ts = (λ s. collect_ids-contains [] ts s, collect_ids-distinct [] ts refl)
