-- ===== src/Nudge/Spans/Params.antt =====
-- The parameters that the server branch reads from the URL of a request.
use Prim.Native.Char.{Char, code}
use Prim.Native.String
use text.Mathlib.TextEquality.{Char-path}
use text.Mathlib.TextLemmas.{nil-append}
use opentelemetry_collector.Prelude.{
  ◌≤◌, String, Bool, true, false, ◌&&◌, List, [], ◌∷◌, Option, none, some, ◌+++◌, ◌≡◌, refl, ap,
  ◌∙◌, inl, inr, arith, Bool-cases, eqb, length, cut,
}
use opentelemetry_collector.Nudge.Model.{Param}

abbrev typed_param : String → String → Param
typed_param key value = record { key = key; value = value; param_type = some "string" }

-- a piece of the query: its key, and its value if it has a `=`
abbrev piece_param : String × Option String → Param
piece_param (key, none) = typed_param key ""
piece_param (key, some value) = typed_param key value

abbrev pieces_params : String × Option String → List Param
pieces_params (e, none) = piece_param (cut b'=' e) ∷ []
pieces_params (e, some rest) = piece_param (cut b'=' e) ∷ piece_param (cut b'=' rest) ∷ []

abbrev address_params : String × Option String → List Param
address_params (path, none) = typed_param "url" path ∷ []
address_params (path, some query) = typed_param "url" path ∷ pieces_params (cut b'&' query)

-- the parameters of a URL: what stands before its query, and at most two pieces of the query
unfoldable pub url_params : String → List Param
url_params url = address_params (cut b'?' url)

-- what the parameters stand for, written as a URL
abbrev pub query_text : List Param → String
query_text [] = ""
query_text (p ∷ []) = p.key +++ "=" +++ p.value
query_text (p ∷ q ∷ ps) = (p.key +++ "=" +++ p.value) +++ "&" +++ query_text (q ∷ ps)

abbrev pub url_text : List Param → String
url_text [] = ""
url_text (p ∷ []) = p.value
url_text (p ∷ q ∷ ps) = p.value +++ "?" +++ query_text (q ∷ ps)

-- The two texts that cut leaves, put together again.
abbrev glued : String → String × Option String → String
glued sep (a, none) = a
glued sep (a, some b) = a +++ sep +++ b

glued-on :
    (c : Char) (sep : String) (r : String × Option String)
    → glued sep (String.◌∷◌ c r.0, r.1) ≡ String.◌∷◌ c (glued sep r)
glued-on c sep (a, none) = refl
glued-on c sep (a, some b) = String.append.cons c a (sep +++ b)

single : (d : Char) (s : String) → "" +++ (String.◌∷◌ d String.[] +++ s) ≡ String.◌∷◌ d s
single d s =
    nil-append (String.◌∷◌ d String.[] +++ s)
    ∙ String.append.cons d String.[] s
    ∙ ap (λ t. String.◌∷◌ d t) (nil-append s)

glued-cut : (d : Char) (s : String) → glued (String.◌∷◌ d String.[]) (cut (code d) s) ≡ s
glued-cut d String.[] = refl
glued-cut d (String.◌∷◌ c s) = elim (Bool-cases (eqb (code c) (code d))) [
  | inl e ↦ rw e (single d s ∙ ap (λ k. String.◌∷◌ k s) (Char-path d c (ground arith)))
  | inr e ↦ rw e (glued-on c _ (cut (code d) s) ∙ ap (λ t. String.◌∷◌ c t) (glued-cut d s))
]

-- Each piece of the query that is read has a `=`.
abbrev has_value : String × Option String → Bool
has_value (key, none) = false
has_value (key, some value) = true

abbrev pieces_have : String × Option String → Bool
pieces_have (e, none) = has_value (cut b'=' e)
pieces_have (e, some rest) = has_value (cut b'=' e) && has_value (cut b'=' rest)

abbrev address_has : String × Option String → Bool
address_has (path, none) = true
address_has (path, some query) = pieces_have (cut b'&' query)

abbrev pub has_values : String → Bool
has_values url = address_has (cut b'?' url)

piece_text :
    (r : String × Option String)
    → has_value r ≡ true
    → query_text (piece_param r ∷ []) ≡ glued "=" r
piece_text (key, none) h = cc
piece_text (key, some value) h = refl

pieces_text :
    (r : String × Option String) → pieces_have r ≡ true → query_text (pieces_params r) ≡ glued "&" r
pieces_text (e, none) h = piece_text (cut b'=' e) h ∙ glued-cut "=" e
pieces_text (e, some rest) h =
    let p = piece_text (cut b'=' e) (ground arith) ∙ glued-cut "=" e in
    let q = piece_text (cut b'=' rest) (ground arith) ∙ glued-cut "=" rest in
    ap (λ s. s +++ "&" +++ query_text (piece_param (cut b'=' rest) ∷ [])) p
    ∙ ap (λ s. e +++ "&" +++ s) q

url_text-pieces :
    (path : String) (r : String × Option String)
    → url_text (typed_param "url" path ∷ pieces_params r)
      ≡ path +++ "?" +++ query_text (pieces_params r)
url_text-pieces path (e, none) = refl
url_text-pieces path (e, some rest) = refl

address_text :
    (r : String × Option String) → address_has r ≡ true → url_text (address_params r) ≡ glued "?" r
address_text (path, none) h = refl
address_text (path, some query) h =
    url_text-pieces path (cut b'&' query)
    ∙ ap (λ s. path +++ "?" +++ s) (pieces_text (cut b'&' query) h ∙ glued-cut "&" query)

-- The parameters of a URL whose pieces all have a `=` give the URL back: the path, a `?`, and the
-- pieces as `key=value` with `&` between them.
pub url_params-url_text : (url : String) → has_values url ≡ true → url_text (url_params url) ≡ url
unfolding url_params
url_params-url_text url h = address_text (cut b'?' url) h ∙ glued-cut "?" url

-- However many pieces the query of a URL has, it gives one to three parameters, the first of which
-- is named `url`.
pub url_params-length :
    (url : String)
    → (p : Param) × (ps : List Param) × (url_params url ≡ p ∷ ps)
      × (p.key ≡ "url")
      × (length ps ≤ 2)
unfolding url_params
url_params-length url = by_address (cut b'?' url)
  where
    by_pieces : (r : String × Option String) → length (pieces_params r) ≤ 2
    by_pieces (e, none) = omega arith
    by_pieces (e, some rest) = omega arith

    by_address :
        (r : String × Option String)
        → (p : Param) × (ps : List Param) × (address_params r ≡ p ∷ ps)
          × (p.key ≡ "url")
          × (length ps ≤ 2)
    by_address (path, none) = (typed_param "url" path, [], refl, refl, omega arith)
    by_address (path, some query) = (
      typed_param "url" path,
      pieces_params (cut b'&' query),
      refl,
      refl,
      by_pieces (cut b'&' query),
    )
