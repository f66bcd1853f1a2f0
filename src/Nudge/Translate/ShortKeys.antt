-- ===== src/Nudge/Translate/ShortKeys.antt =====
-- The panic of a translation whose request has a span with a short attribute key.
use opentelemetry_collector.Prelude.{
  String, Bool, true, false, ◌||◌, List, [], ◌∷◌, ◌++◌, Option, ◌≡◌, refl, sym, ◌∙◌, ◌⊎◌, inl, inr,
  arith, any, concat_map,
}
use opentelemetry_collector.Nudge.Result.{Result, slice_bounds, Panics, Panics-left, Panics-right}
use opentelemetry_collector.Nudge.Attributes.{get_keys}
use opentelemetry_collector.Nudge.Names.{
  get_name_type, get_instrument_type, has_short, FailsIf, get_name_type-FailsIf,
}
use opentelemetry_collector.Nudge.Spans.{Span}
use opentelemetry_collector.Nudge.Spans.Opening.{Environment}
use opentelemetry_collector.Nudge.Translate.{
  Translation, Scope, Resource, translate_span, translate_spans, translate_scopes, translate,
}
use opentelemetry_collector.Nudge.Translate.Runs.{spans_of}

-- A span has an attribute whose key has less than five bytes.
abbrev pub short_keyed : Span → Bool
short_keyed span = has_short (get_keys span.original)

any-append : (p : Span → Bool) (xs ys : List Span) → any p (xs ++ ys) ≡ (any p xs || any p ys)
any-append p [] ys = refl
any-append p (x ∷ xs) ys = ground (arith, any-append p xs ys)

or-cases : (a b : Bool) → (a || b) ≡ true → (a ≡ true) ⊎ (b ≡ true)
or-cases true b h = inl refl
or-cases false b h = inr h

fails : {A : Type 0} (b : Bool) (r : Result A) → b ≡ true → FailsIf b r → Panics r
fails true r e h = (slice_bounds, h)
fails false r e h = cc

module _ (env : Environment) where
  translate_span-Panics :
      (instrument : Option String) (tr : Translation) (span : Span)
      → short_keyed span ≡ true
      → Panics (translate_span env instrument tr span)
  unfolding translate_span
  translate_span-Panics instrument tr span h =
      Panics-left (get_name_type env.ext span.original) _
        (fails (short_keyed span) _ h (get_name_type-FailsIf env.ext span.original))

  translate_spans-Panics :
      (instrument : Option String) (spans : List Span) (tr : Translation)
      → any short_keyed spans ≡ true
      → Panics (translate_spans env instrument spans tr)
  unfolding translate_spans
  translate_spans-Panics instrument [] tr h = cc
  translate_spans-Panics instrument (span ∷ spans) tr h =
      elim (or-cases (short_keyed span) (any short_keyed spans) h) [
        | inl e ↦
            Panics-left (translate_span env instrument tr span) _
              (translate_span-Panics instrument tr span e)
        | inr e ↦
            Panics-right (translate_span env instrument tr span) _
              (λ q. translate_spans-Panics instrument spans q e)
      ]

  translate_scopes-Panics :
      (ss : List Scope) (tr : Translation)
      → any short_keyed (concat_map (λ (s : Scope). s.spans) ss) ≡ true
      → Panics (translate_scopes env ss tr)
  unfolding translate_scopes
  translate_scopes-Panics [] tr h = cc
  translate_scopes-Panics (s ∷ ss) tr h =
      let instrument = get_instrument_type env.ext s.name in
      elim (or-cases (any short_keyed s.spans)
        (any short_keyed (concat_map (λ (s : Scope). s.spans) ss))
        (sym (any-append short_keyed s.spans _) ∙ h)) [
          | inl e ↦
              Panics-left (translate_spans env instrument s.spans tr) _
                (translate_spans-Panics instrument s.spans tr e)
          | inr e ↦
              Panics-right (translate_spans env instrument s.spans tr) _
                (λ q. translate_scopes-Panics ss q e)
        ]

  -- A request with a span that has an attribute key of fewer than five bytes is never translated:
  -- the translation panics, whatever the buffer and the raw data are.
  pub translate-Panics :
      (rs : List Resource) (tr : Translation)
      → any short_keyed (spans_of rs) ≡ true
      → Panics (translate env rs tr)
  unfolding translate
  translate-Panics [] tr h = cc
  translate-Panics (r ∷ rs) tr h =
      elim (or-cases (any short_keyed (concat_map (λ (s : Scope). s.spans) r.scopes))
        (any short_keyed (spans_of rs))
        (sym (any-append short_keyed (concat_map (λ (s : Scope). s.spans) r.scopes) _) ∙ h)) [
          | inl e ↦
              Panics-left (translate_scopes env r.scopes tr) _
                (translate_scopes-Panics r.scopes tr e)
          | inr e ↦ Panics-right (translate_scopes env r.scopes tr) _ (λ q. translate-Panics rs q e)
        ]
