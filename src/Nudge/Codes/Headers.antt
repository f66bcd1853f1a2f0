-- ===== src/Nudge/Codes/Headers.antt =====
-- The keys of the codes that AddAllExtendedcodesLayerDetails leaves in a layer detail.
use text.Mathlib.TextPositions.{slice-append_left}
use opentelemetry_collector.Nudge.Result.{Ensures, returned, Ensures-bind, Ensures-then}
use opentelemetry_collector.Nudge.Translate.Search.{Found, missing, found, find-Found}
use opentelemetry_collector.Nudge.Push.Applications.{contains, distinct, distinct-snoc}
use opentelemetry_collector.Nudge.Codes.Http.{
  unseen_code, growing_attributes, growing_headers, header_code, is_wanted, lacks, client_of,
  status_codes, add_all_extendedcodes_layer_details, client_codes,
}
use opentelemetry_collector.Nudge.Codes.{
  has_key, AttributeMap, deref, header_value, code_of, header_prefixes, Semconv, suffix,
  find_address,
}
use opentelemetry_collector.Nudge.Model.{KeyValue}
use opentelemetry_collector.Nudge.Extension.{ExtensionLinux, index_of}
use mathlib.Core.List.{map-append, append-nil, append_assoc}
use opentelemetry_collector.Nudge.Attributes.{get, get_keys}
use opentelemetry_collector.Prelude.{
  ℕ, String, len, slice, Bool, true, false, ◌&&◌, ◌||◌, List, [], ◌∷◌, ◌++◌, map, Option, none,
  some, ◌==◌, ◌+++◌, ◌≡◌, refl, sym, ap, ◌∙◌, subst, inl, inr, arith, All, Bool-cases, Option-cases,
  eq_iff, any,
}

abbrev pub keys_of : List KeyValue → List String
keys_of codes = map (λ (kv : KeyValue). kv.key) codes

contains-keys :
    (codes : List KeyValue) (key : String) → contains (keys_of codes) key ≡ any (has_key key) codes
contains-keys [] key = refl
contains-keys (kv ∷ codes) key = ap (λ b. has_key key kv || b) (contains-keys codes key)

module _ (ext : ExtensionLinux) (filter_header : List String) where
  abbrev IsDistinct : List KeyValue → Type 0
  IsDistinct codes = distinct (keys_of codes) ≡ true

  find_index-missing :
      (codes : List KeyValue) (key : String)
      → ext.find_index KeyValue codes (has_key key) ≡ none
      → any (has_key key) codes ≡ false
  find_index-missing codes key h =
      by_search (ext.find KeyValue codes (has_key key)) (find-Found ext (has_key key) codes) (
        ap index_of (ext.find_lem KeyValue codes (has_key key))
        ∙ sym (ext.find_index_lem KeyValue codes (has_key key))
        ∙ h)
    where
      by_search :
          (f : Option (KeyValue × ℕ))
          → Found (has_key key) 0 codes f
          → index_of f ≡ none
          → any (has_key key) codes ≡ false
      by_search _ (missing n) e = n
      by_search _ (found before t after e j n p) i = cc

  -- No key occurs twice, and none is that of an IPv6 address.
  pub record IsPlain (codes : List KeyValue) : Type 0 where
    pub distinct_keys : IsDistinct codes
    pub no_six : any (has_key "http.clientip6") codes ≡ false

  -- A code with a new key.
  IsDistinct-snoc :
      (codes : List KeyValue) (key value : String)
      → IsDistinct codes
      → any (has_key key) codes ≡ false
      → IsDistinct (codes ++ code_of key value ∷ [])
  IsDistinct-snoc codes key value h n =
      subst (λ ks. distinct ks ≡ true)
        (sym (map-append (λ (kv : KeyValue). kv.key) codes (code_of key value ∷ [])))
        (distinct-snoc (keys_of codes) key h (contains-keys codes key ∙ n))

  any-snoc :
      (codes : List KeyValue) (kv : KeyValue) (p : KeyValue → Bool)
      → any p (codes ++ kv ∷ []) ≡ (any p codes || p kv)
  any-snoc [] kv p = ground arith
  any-snoc (c ∷ codes) kv p = ground (arith, any-snoc codes kv p)

  two_codes :
      (codes : List KeyValue) (key key' value value' : String)
      → IsDistinct codes
      → any (has_key key) codes ≡ false
      → any (has_key key') codes ≡ false
      → (key == key') ≡ false
      → IsDistinct (codes ++ code_of key value ∷ code_of key' value' ∷ [])
  two_codes codes key key' value value' h n n' d =
      subst IsDistinct (append_assoc codes (code_of key value ∷ []) (code_of key' value' ∷ [])) (
        IsDistinct-snoc (codes ++ code_of key value ∷ []) key' value'
          (IsDistinct-snoc codes key value h n)
          (any-snoc codes (code_of key value) (has_key key') ∙ rw (n', d) refl))

  unseen_code-IsPlain :
      (attributes : AttributeMap) (codes : List KeyValue) (att key : String)
      → (key == "http.clientip6") ≡ false
      → IsPlain codes
      → Ensures
          (λ new. IsPlain (codes ++ new))
          (unseen_code ext filter_header attributes codes att key)
  unfolding unseen_code
  unseen_code-IsPlain attributes codes att key k h =
      elim (Option-cases (ext.find_index KeyValue codes (has_key key))) [
        | inr (i, e) ↦ rw (e, unseen_code) (returned (subst IsPlain (sym (append-nil codes)) h))
        | inl e ↦
            rw (e, unseen_code)
              (Ensures-bind _ (deref (get attributes att)) _ (λ v.
                Ensures-bind _ (header_value v) _ (λ value. returned (record {
                  distinct_keys =
                      IsDistinct-snoc codes key value h.distinct_keys
                        (find_index-missing codes key e);
                  no_six =
                      any-snoc codes (code_of key value) (has_key "http.clientip6")
                      ∙ rw (h.no_six, k) refl;
                }))))
      ]

  -- A key that begins with a prefix of another kind.
  prefix_key :
      (header rest key : String)
      → (slice key 0 (len header) == header) ≡ false
      → (header +++ rest == key) ≡ false
  prefix_key header rest key n = elim (Bool-cases (header +++ rest == key)) [
    | inr e ↦ e
    | inl e ↦
        let same = ap (λ s. slice s 0 (len header)) (sym ((eq_iff (header +++ rest) key).0 e)) in
        let begins = (eq_iff _ header).1 (same ∙ slice-append_left header rest) in cc
  ]

  header_code-IsPlain :
      (attributes : AttributeMap) (codes : List KeyValue) (att header : String)
      → (slice "http.clientip6" 0 (len header) == header) ≡ false
      → IsPlain codes
      → Ensures
          (λ new. IsPlain (codes ++ new))
          (header_code ext filter_header attributes codes att header)
  unfolding header_code
  header_code-IsPlain attributes codes att header n h =
      elim (Bool-cases (ext.starts_with att header && is_wanted ext filter_header header)) [
        | inl e ↦
            rw (e, header_code)
              (Ensures-then (λ key. (key == "http.clientip6") ≡ false) _
                (Ensures-bind _ (suffix att (len header)) _
                  (λ rest. returned (prefix_key header _ "http.clientip6" n)))
                (λ key k. unseen_code-IsPlain attributes codes att key k h))
        | inr e ↦ rw (e, header_code) (returned (subst IsPlain (sym (append-nil codes)) h))
      ]

  growing_headers-IsPlain :
      (attributes : AttributeMap) (att : String) (headers : List String) (codes : List KeyValue)
      → All (λ header. (slice "http.clientip6" 0 (len header) == header) ≡ false) headers
      → IsPlain codes
      → Ensures IsPlain (growing_headers ext filter_header attributes att headers codes)
  unfolding growing_headers
  growing_headers-IsPlain attributes att [] codes n h = returned h
  growing_headers-IsPlain attributes att (header ∷ headers) codes n h =
      Ensures-then (λ new. IsPlain (codes ++ new)) IsPlain
        (header_code-IsPlain attributes codes att header n.0 h)
        (λ new k. growing_headers-IsPlain attributes att headers (codes ++ new) n.1 k)

  growing_attributes-IsPlain :
      (attributes : AttributeMap) (atts : List String) (codes : List KeyValue)
      → IsPlain codes
      → Ensures IsPlain (growing_attributes ext filter_header attributes atts codes)
  unfolding growing_attributes
  growing_attributes-IsPlain attributes [] codes h = returned h
  growing_attributes-IsPlain attributes (att ∷ atts) codes h =
      Ensures-then IsPlain IsPlain
        (growing_headers-IsPlain attributes att header_prefixes codes (refl, (refl, tt)) h)
        (λ codes' k. growing_attributes-IsPlain attributes atts codes' k)

  lacks-any :
      (codes : List KeyValue) (key : String)
      → lacks ext filter_header codes key ≡ true
      → any (has_key key) codes ≡ false
  lacks-any codes key h =
      by_search (ext.find KeyValue codes (has_key key)) (find-Found ext (has_key key) codes) h
    where
      by_search :
          (f : Option (KeyValue × ℕ))
          → Found (has_key key) 0 codes f
          → elim f as (λ _. Bool) [ none ↦ true | some r ↦ false ] ≡ true
          → any (has_key key) codes ≡ false
      by_search _ (missing n) e = n
      by_search _ (found before t after e j n p) i = cc

  module _ (keys : Semconv) where
    client_of-IsDistinct :
        (attributes : AttributeMap) (codes : List KeyValue)
        → IsPlain codes
        → IsDistinct (codes ++ (client_of ext filter_header keys attributes codes).0)
    unfolding client_codes
    client_of-IsDistinct attributes codes h =
        elim (Option-cases (get attributes keys.net_peer_ip_key)) [
          | inl e ↦ rw (client_of, e) (subst IsDistinct (sym (append-nil codes)) h.distinct_keys)
          | inr (v, e) ↦ elim (Bool-cases (lacks ext filter_header codes "http.clientip")) [
            | inr l ↦
                rw (client_of, e, l) (subst IsDistinct (sym (append-nil codes)) h.distinct_keys)
            | inl l ↦ elim (Option-cases (find_address v.as_string)) [
              | inl m ↦
                  rw (client_of, e, l, client_codes, m)
                    (IsDistinct-snoc codes "http.clientip" v.as_string h.distinct_keys
                      (lacks-any codes _ l))
              | inr (m, f) ↦
                  rw (client_of, e, l, client_codes, f)
                    (two_codes codes "http.clientip" "http.clientip6" _ _ h.distinct_keys
                      (lacks-any codes _ l) h.no_six refl)
            ]
          ]
        ]

    status_codes-IsDistinct :
        (attributes : AttributeMap) (codes : List KeyValue)
        → IsDistinct codes
        → IsDistinct (codes ++ status_codes ext filter_header keys attributes codes)
    status_codes-IsDistinct attributes codes h =
        elim (Option-cases (get attributes keys.http_status_code_key)) [
          | inl e ↦ rw (status_codes, e) (subst IsDistinct (sym (append-nil codes)) h)
          | inr (v, e) ↦ elim (Bool-cases (lacks ext filter_header codes "http.status")) [
            | inr l ↦ rw (status_codes, e, l) (subst IsDistinct (sym (append-nil codes)) h)
            | inl l ↦
                rw (status_codes, e, l)
                  (IsDistinct-snoc codes "http.status" v.as_string h (lacks-any codes _ l))
          ]
        ]

    -- AddAllExtendedcodesLayerDetails adds no key that there is already: if no key occurs twice in
    -- the codes of a layer detail and none is `http.clientip6`, no key occurs twice when it
    -- returns, whatever headers the attributes hold in whatever spellings.
    pub layer_details-IsDistinct :
        (attributes : AttributeMap) (codes : List KeyValue)
        → IsPlain codes
        → Ensures
            (λ codes'. distinct (keys_of codes') ≡ true)
            (add_all_extendedcodes_layer_details ext filter_header keys attributes codes)
    unfolding add_all_extendedcodes_layer_details
    layer_details-IsDistinct attributes codes h =
        Ensures-then IsPlain _ (growing_attributes-IsPlain attributes (get_keys attributes) codes h)
          (λ c1 k. returned (
            status_codes-IsDistinct attributes
              (c1 ++ (client_of ext filter_header keys attributes c1).0)
              (client_of-IsDistinct attributes c1 k)))
