-- ===== src/Nudge/Creation/Ids.antt =====
-- The ids of the raw data that goes to `export`.
use opentelemetry_collector.Prelude.{
  ℕ, ◌+◌, Bool, true, false, List, [], ◌∷◌, Option, none, some, if◌then◌else◌, ◌≡◌, refl, ap, ◌∙◌,
  inl, inr, Bool-cases, Option-cases,
}
use opentelemetry_collector.Prelude.{add64}
use opentelemetry_collector.Nudge.Host.{System}
use opentelemetry_collector.Nudge.Creation.{Creator, create_rawdata, id_of, reset_rawdata}

-- What a push leaves of the raw data: it is created if there is none, and goes to `export`, which
-- resets it, if it could be encoded.
abbrev after_push : System → Bool → Creator → Creator
after_push s encoded c = if encoded then reset_rawdata (create_rawdata s c) else create_rawdata s c

-- The ids of the raw data that a sequence of pushes gives to `export`, by whether each could be
-- encoded.
abbrev pub exported : (ℕ → System) → List Bool → Creator → List (Option ℕ)
exported systems [] c = []
exported systems (encoded ∷ bs) c =
    let rest = exported (λ n. systems (n + 1)) bs (after_push (systems 0) encoded c) in
    if encoded then id_of (create_rawdata (systems 0) c) ∷ rest else rest

-- Numbers that follow one another, as `int64`, one for each push whose raw data could be encoded.
abbrev pub numbered : ℕ → List Bool → List (Option ℕ)
numbered n [] = []
numbered n (true ∷ bs) = some n ∷ numbered (add64 n 1) bs
numbered n (false ∷ bs) = numbered n bs

-- the id of the raw data of the next push
abbrev pub next_id : Creator → ℕ
next_id c = elim c.rawdata [ none ↦ add64 c.cmpt 1 | some content ↦ c.cmpt ]

create_rawdata-id :
    (s : System) (c : Creator)
    → (id_of (create_rawdata s c) ≡ some (next_id c))
      × ((create_rawdata s c).cmpt ≡ next_id c)
      × (next_id (create_rawdata s c) ≡ next_id c)
unfolding create_rawdata
create_rawdata-id s c = elim (Option-cases c.rawdata) [
  | inr (content, e) ↦ rw (e, create_rawdata) (rw (e, next_id, id_of) (refl, refl, refl))
  | inl e ↦ elim (Bool-cases c.insert_resource) [
    | inl b ↦ rw (e, create_rawdata, b) (refl, refl, refl)
    | inr b ↦ rw (e, create_rawdata, b) (refl, refl, refl)
  ]
]

-- After a push that calls `export`, the next id is one more; after one that does not, it is the same.
after_push-id :
    (s : System) (encoded : Bool) (c : Creator)
    → next_id (after_push s encoded c) ≡ (if encoded then add64 (next_id c) 1 else next_id c)
after_push-id s true c = ap (λ n. add64 n 1) (create_rawdata-id s c).1
after_push-id s false c = (create_rawdata-id s c).2

-- The ids of the raw data that pushes give to `export` are consecutive `int64` numbers, in the order
-- of the pushes, whatever the host answers and whatever becomes of the requests: raw data whose
-- encoding fails keeps its id for the next push, and raw data that went to `export` does not.
pub exported-numbered :
    (systems : ℕ → System) (bs : List Bool) (c : Creator)
    → exported systems bs c ≡ numbered (next_id c) bs
exported-numbered systems [] c = refl
exported-numbered systems (true ∷ bs) c =
    let c' = after_push (systems 0) true c in
    ap (λ i. i ∷ exported (λ n. systems (n + 1)) bs c') (create_rawdata-id (systems 0) c).0
    ∙ ap (λ ids. some (next_id c) ∷ ids)
        (exported-numbered (λ n. systems (n + 1)) bs c'
          ∙ ap (λ n. numbered n bs) (after_push-id (systems 0) true c))
exported-numbered systems (false ∷ bs) c =
    exported-numbered (λ n. systems (n + 1)) bs (after_push (systems 0) false c)
    ∙ ap (λ n. numbered n bs) (after_push-id (systems 0) false c)
