-- ===== src/Nudge/Codes/Filter.antt =====
-- The codes of headers under a filter of the configuration.
use opentelemetry_collector.Nudge.Result.{ok}
use opentelemetry_collector.Nudge.Codes.{header_prefixes}
use opentelemetry_collector.Nudge.Model.{KeyValue}
use opentelemetry_collector.Nudge.Attributes.{AttributeMap}
use opentelemetry_collector.Nudge.Codes.Http.{
  fixed_headers, growing_attributes, growing_headers, header_code, fixed_attributes, is_wanted,
}
use opentelemetry_collector.Nudge.Extension.{ExtensionLinux, find_from, index_of}
use opentelemetry_collector.Prelude.{
  ℕ, ◌+◌, String, Bool, false, List, [], ◌∷◌, none, ◌≡◌, ◌≢◌, refl, ap, ◌∙◌, arith, All, append-nil,
  equal_lower,
}

-- Every entry of a filter is another text than both prefixes of headers, in lower case.
abbrev pub NamesNeither : List String → Type 0
NamesNeither filter_header =
    All (λ header. All (λ name. equal_lower header name ≡ false) filter_header) header_prefixes

find_from-none :
    {A : Type 0} (i : ℕ) (xs : List A) (p : A → Bool)
    → All (λ x. p x ≡ false) xs
    → find_from i xs p ≡ none
unfolding find_from
find_from-none i [] p h = refl
find_from-none i (x ∷ xs) p h = rw h.0 (find_from-none (i + 1) xs p h.1)

is_wanted-other :
    (ext : ExtensionLinux) (filter_header : List String) (header : String)
    → filter_header ≢ []
    → All (λ name. equal_lower header name ≡ false) filter_header
    → is_wanted ext filter_header header ≡ false
is_wanted-other ext [] header k n = absurd (k refl)
is_wanted-other ext (name ∷ names) header k n =
    let same = equal_lower header in
    let missing =
      ext.find_index_lem String (name ∷ names) same
      ∙ ap index_of (find_from-none 0 (name ∷ names) same n) in
    rw (is_wanted, missing) refl

module _ (ext : ExtensionLinux) (filter_header : List String) where
  header_code-none :
      (attributes : AttributeMap) (seen : List KeyValue) (att header : String)
      → is_wanted ext filter_header header ≡ false
      → header_code ext filter_header attributes seen att header ≡ ok []
  unfolding header_code
  header_code-none attributes seen att header n = rw n (ground arith)

  growing_headers-none :
      (attributes : AttributeMap) (att : String) (headers : List String) (codes : List KeyValue)
      → All (λ header. is_wanted ext filter_header header ≡ false) headers
      → growing_headers ext filter_header attributes att headers codes ≡ ok codes
  unfolding growing_headers
  growing_headers-none attributes att [] codes n = refl
  growing_headers-none attributes att (header ∷ headers) codes n =
      rw (header_code-none attributes codes att header n.0, append-nil codes)
        (growing_headers-none attributes att headers codes n.1)

  fixed_headers-none :
      (attributes : AttributeMap) (seen : List KeyValue) (att : String) (headers : List String)
      (codes : List KeyValue)
      → All (λ header. is_wanted ext filter_header header ≡ false) headers
      → fixed_headers ext filter_header attributes seen att headers codes ≡ ok codes
  unfolding fixed_headers
  fixed_headers-none attributes seen att [] codes n = refl
  fixed_headers-none attributes seen att (header ∷ headers) codes n =
      rw (header_code-none attributes seen att header n.0, append-nil codes)
        (fixed_headers-none attributes seen att headers codes n.1)

  unwanted-none :
      (attributes : AttributeMap) (seen : List KeyValue) (atts : List String)
      (codes : List KeyValue)
      → All (λ header. is_wanted ext filter_header header ≡ false) header_prefixes
      → (growing_attributes ext filter_header attributes atts codes ≡ ok codes)
        × (fixed_attributes ext filter_header attributes seen atts codes ≡ ok codes)
  unfolding growing_attributes fixed_attributes
  unwanted-none attributes seen [] codes n = (refl, refl)
  unwanted-none attributes seen (att ∷ atts) codes n =
      let rest = unwanted-none attributes seen atts codes n in
      (
        rw (growing_headers-none attributes att header_prefixes codes n) rest.0,
        rw (fixed_headers-none attributes seen att header_prefixes codes n) rest.1,
      )

  -- With a filter that is not empty and no entry of which is one of the two prefixes of headers in
  -- lower case, as with names of headers, no header becomes a code, neither of a layer detail nor of
  -- a transaction, whatever the attributes are, and the loops over them never panic.
  pub filter_header-none :
      (attributes : AttributeMap) (seen : List KeyValue) (atts : List String)
      (codes : List KeyValue)
      → filter_header ≢ []
      → NamesNeither filter_header
      → (growing_attributes ext filter_header attributes atts codes ≡ ok codes)
        × (fixed_attributes ext filter_header attributes seen atts codes ≡ ok codes)
  filter_header-none attributes seen atts codes k n = unwanted-none attributes seen atts codes (
    is_wanted-other ext filter_header "http.request.header." k n.0,
    (is_wanted-other ext filter_header "http.response.header." k n.1.0, tt),
  )
