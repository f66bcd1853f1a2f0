-- ===== src/Nudge/Spans/Agents.antt =====
-- The dictionary of user agents in the raw data: the server branch numbers each agent by its
-- position. An id is an `int32`.
use opentelemetry_collector.Prelude.{
  ℕ, suc, ◌+◌, ◌%◌, ◌^◌, String, Bool, true, false, ◌||◌, List, [], ◌∷◌, ◌++◌, Option, none, some,
  ◌==◌, if◌then◌else◌, ◌≡◌, refl, ap, ◌∙◌, subst, inl, inr, arith, Bool-cases, eq_iff, length, any,
  get_elem?,
}
use opentelemetry_collector.Nudge.Extension.{ExtensionLinux, find_from}
use opentelemetry_collector.Nudge.Model.{DictionaryEntry, RawData, TransactionNudge}

abbrev pub is_agent : String → DictionaryEntry → Bool
is_agent agent e = e.name == agent

abbrev id_of : Option (DictionaryEntry × ℕ) → ℕ
id_of none = 0
id_of (some (e, i)) = e.id

-- the dictionary with an agent, and the id of the agent
unfoldable pub add_agent : ExtensionLinux → List DictionaryEntry → String → List DictionaryEntry × ℕ
add_agent ext entries agent =
    let id = length entries % 2 ^ 32 in
    if any (is_agent agent) entries
    then (entries, id_of (ext.find DictionaryEntry entries (is_agent agent)))
    else (entries ++ record { name = agent; id = id } ∷ [], id)

abbrev pub entries_of : Option (List DictionaryEntry) → List DictionaryEntry
entries_of none = []
entries_of (some es) = es

-- the branch on the user agent of a request
unfoldable pub set_agent :
    ExtensionLinux → String → RawData → TransactionNudge → RawData × TransactionNudge
unfolding add_agent
set_agent ext agent raw t =
    let added = add_agent ext (entries_of raw.user_agent) agent in
    (
      record raw { user_agent = some added.0 },
      record t {
        transaction = record t.transaction { user_agent = some agent; useragent_id = some added.1 };
      },
    )

-- The ids count up from `n`, and no name occurs twice.
abbrev pub NumberedFrom : ℕ → List DictionaryEntry → Type 0
NumberedFrom n [] = Unit {0}
NumberedFrom n (e ∷ es) =
    (e.id ≡ n % 2 ^ 32) × (any (is_agent e.name) es ≡ false) × NumberedFrom (n + 1) es

any-snoc :
    (es : List DictionaryEntry) (e : DictionaryEntry) (p : DictionaryEntry → Bool)
    → any p (es ++ e ∷ []) ≡ (any p es || p e)
any-snoc [] e p = ground arith
any-snoc (d ∷ es) e p = ground (arith, any-snoc es e p)

NumberedFrom-snoc :
    (n : ℕ) (es : List DictionaryEntry) (agent : String)
    → NumberedFrom n es
    → any (is_agent agent) es ≡ false
    → NumberedFrom n (es ++ record { name = agent; id = (n + length es) % 2 ^ 32 } ∷ [])
NumberedFrom-snoc n [] agent h a = (ap (λ k. k % 2 ^ 32) (omega arith), refl, tt)
NumberedFrom-snoc n (e ∷ es) agent h a = (
  h.0,
  any-snoc es _ (is_agent e.name) ∙ ground (arith, eq_iff e.name agent, eq_iff agent e.name),
  subst (λ k. NumberedFrom (n + 1) (es ++ record { name = agent; id = k % 2 ^ 32 } ∷ []))
      (omega arith) (NumberedFrom-snoc (n + 1) es agent h.2 (ground arith)),
)

-- An entry of a dictionary for an agent, at its position.
abbrev pub IsAt : List DictionaryEntry → String → ℕ → ℕ → Type 0
IsAt es agent n id =
    (k : ℕ) × (e : DictionaryEntry) × (get_elem? es k ≡ some e)
    × (e.name ≡ agent)
    × (e.id ≡ id)
    × (id ≡ (n + k) % 2 ^ 32)

find-IsAt :
    (n i : ℕ) (es : List DictionaryEntry) (agent : String)
    → NumberedFrom n es
    → any (is_agent agent) es ≡ true
    → IsAt es agent n (id_of (find_from i es (is_agent agent)))
unfolding find_from
find-IsAt n i [] agent h a = cc
find-IsAt n i (e ∷ es) agent h a = elim (Bool-cases (e.name == agent)) [
  | inl q ↦
      rw (q, find_from)
        (0, e, refl, (eq_iff e.name agent).0 q, refl, h.0 ∙ ap (λ k. k % 2 ^ 32) (omega arith))
  | inr q ↦
      let (k, d, at, name, id, number) = find-IsAt (n + 1) (i + 1) es agent h.2 (ground arith) in
      rw (q, find_from) (suc k, d, at, name, id, number ∙ ap (λ k. k % 2 ^ 32) (omega arith))
]

snoc-IsAt :
    (es : List DictionaryEntry) (e : DictionaryEntry)
    → get_elem? (es ++ e ∷ []) (length es) ≡ some e
snoc-IsAt [] e = refl
snoc-IsAt (d ∷ es) e = snoc-IsAt es e

-- If the entries of a dictionary have their positions as ids, modulo 2 ^ 32, and no name twice, the
-- same holds when an agent is added; and then the id that is returned is that of an entry of the
-- agent, at the position that the id names.
pub add_agent-NumberedFrom :
    (ext : ExtensionLinux) (es : List DictionaryEntry) (agent : String)
    → NumberedFrom 0 es
    → NumberedFrom 0 (add_agent ext es agent).0
      × IsAt (add_agent ext es agent).0 agent 0 (add_agent ext es agent).1
unfolding add_agent
add_agent-NumberedFrom ext es agent h = elim (Bool-cases (any (is_agent agent) es)) [
  | inl q ↦
      rw (q, add_agent, ext.find_lem DictionaryEntry es (is_agent agent))
        (h, find-IsAt 0 0 es agent h q)
  | inr q ↦
      rw (q, add_agent)
        (
          subst (λ k. NumberedFrom 0 (es ++ record { name = agent; id = k % 2 ^ 32 } ∷ []))
              (omega arith) (NumberedFrom-snoc 0 es agent h q),
          (
            length es,
            record { name = agent; id = length es % 2 ^ 32 },
            snoc-IsAt es _,
            refl,
            refl,
            ap (λ k. k % 2 ^ 32) (omega arith),
          ),
        )
]
