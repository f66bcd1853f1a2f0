-- ===== src/Nudge/Response/Reading.antt =====
-- The bounds of `readResponseBody`.
use opentelemetry_collector.Prelude.{
  ℕ, zero, suc, ◌≤◌, List, [], ◌∷◌, ◌++◌, Option, none, some, length, ◌≡◌, refl, sym, ap, arith,
}
use opentelemetry_collector.Nudge.Response.{
  Body, Response, bytes, take, max_read, read_full, read_response_body,
  max_http_response_read_bytes,
}

unfoldable pub rest_of : ℕ → List ℕ → List ℕ
rest_of zero xs = xs
rest_of (suc n) [] = []
rest_of (suc n) (x ∷ xs) = rest_of n xs

take-append-rest : (n : ℕ) (xs : List ℕ) → take n xs ++ rest_of n xs ≡ xs
unfolding take rest_of
take-append-rest zero xs = refl
take-append-rest (suc n) [] = refl
take-append-rest (suc n) (x ∷ xs) = ap (λ l. x ∷ l) (take-append-rest n xs)

length-take-le : (n : ℕ) (xs : List ℕ) → length (take n xs) ≤ n
unfolding take
length-take-le zero xs = omega arith
length-take-le (suc n) [] = omega arith
length-take-le (suc n) (x ∷ xs) = omega (arith, length-take-le n xs)

max_read-le : (o : Option ℕ) → max_read o ≤ max_http_response_read_bytes
unfolding max_read
max_read-le none = omega arith
max_read-le (some n) = ground arith

max_read-le_length : (o : Option ℕ) (n : ℕ) → o ≡ some n → max_read o ≤ n
unfolding max_read
max_read-le_length none n e = cc
max_read-le_length (some m) n e = ground arith

read_full_bytes :
    (body : Body) (limit : ℕ) (b : List ℕ)
    → read_full body limit ≡ bytes b
    → b ≡ take limit body.content
unfolding read_full
read_full_bytes body limit b h = ground arith

-- What readResponseBody returns as bytes is the beginning of the body, at most as long as the
-- Content-Length that was sent and never longer than a mebibyte.
pub read_response_body-bytes :
    (resp : Response) (b : List ℕ)
    → read_response_body resp ≡ bytes b
    → (length b ≤ max_http_response_read_bytes)
      × ((n : ℕ) → resp.content_length ≡ some n → length b ≤ n)
      × ((rest : List ℕ) × (resp.body.content ≡ b ++ rest))
unfolding read_response_body
read_response_body-bytes resp b h = (
  rw is_taken
      (omega (arith, length-take-le limit resp.body.content, max_read-le resp.content_length)),
  λ n e. rw is_taken (
      omega (
        arith,
        length-take-le limit resp.body.content,
        max_read-le_length resp.content_length n e,
      )),
  (rest_of limit resp.body.content, rw is_taken (sym (take-append-rest limit resp.body.content))),
)
  where
    limit : ℕ
    limit = max_read resp.content_length

    is_taken : b ≡ take limit resp.body.content
    is_taken = ground (arith, read_full_bytes resp.body (max_read resp.content_length) b)
