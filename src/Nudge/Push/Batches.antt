-- ===== src/Nudge/Push/Batches.antt =====
-- What `pushTraces` does with a whole request.
use opentelemetry_collector.Prelude.{
  ℕ, String, true, false, List, [], ◌∷◌, ◌++◌, Option, none, some, ◌==◌, ◌≡◌, refl, ap, any, ◌∙◌,
  if◌then◌else◌,
}
use opentelemetry_collector.Nudge.Result.{ok, Panics, Panics-left, ◌>>=◌}
use opentelemetry_collector.Nudge.Config.{
  Config, EncodingType, encoding_proto, encoding_json, encoding_other,
}
use opentelemetry_collector.Nudge.Model.{RawData}
use opentelemetry_collector.Nudge.Spans.Opening.{Environment}
use opentelemetry_collector.Nudge.Translate.{Translation, Resource, translate}
use opentelemetry_collector.Nudge.Translate.Runs.{spans_of}
use opentelemetry_collector.Nudge.Translate.ShortKeys.{short_keyed, translate-Panics}
use opentelemetry_collector.Nudge.Translate.Search.{Found, found, missing, find-Found}
use opentelemetry_collector.Nudge.Send.{Loop}
use opentelemetry_collector.Nudge.Send.Rounds.{
  kept, sent, transactions_of, loop_of, add_languages, add_url, send_transactions-eq,
}
use opentelemetry_collector.Nudge.Export.{Exporter, Mesure, export, known_encoding, outcome_of}
use opentelemetry_collector.Nudge.Response.{Reply, Externals, Decoders}
use opentelemetry_collector.Nudge.Push.Signals.{export-keeps}
use opentelemetry_collector.Nudge.Push.{
  Pushing, go_on, push_traces, push_loop, push_round, count_round, deliver, with_rawdata,
  application_ids, encode, or_else, add_request, pointer, set, send_transactions,
  flush_rawdata_to_file_disk, Bool, first_error,
}

module _ (env : Environment) (x : Externals) (d : Decoders)
    (marshal : EncodingType → RawData → Option String) (clock : ℕ → ℕ) (traces_url : String) where
  -- pushTraces panics on every request with a span that has an attribute key of fewer than five
  -- bytes, whatever the state of the exporter, and so delivers nothing of it.
  pub push_traces-Panics :
      (e : Exporter) (ms : List Mesure) (n : ℕ) (created : RawData) (rs : List Resource)
      (replies : ℕ → Reply)
      → any short_keyed (spans_of rs) ≡ true
      → Panics (push_traces env x d marshal clock traces_url e ms n created rs replies)
  unfolding push_traces
  push_traces-Panics e ms n created rs replies h =
      Panics-left (translate (record env { config = e.config }) rs _) _
        (translate-Panics (record env { config = e.config }) rs _ h)

  -- A file does not change the requests.
  flushed-posts :
      (b : Bool) (body : String) (p : Pushing)
      → (if b then flush_rawdata_to_file_disk x body p else p).posts ≡ p.posts
  unfolding flush_rawdata_to_file_disk
  flushed-posts true body p = refl
  flushed-posts false body p = refl

  encode-known :
      (encoding : EncodingType) (raw : RawData) (body : String)
      → encode marshal encoding raw ≡ some body
      → known_encoding encoding ≡ true
  encode-known encoding_proto raw body h = refl
  encode-known encoding_json raw body h = refl
  encode-known (encoding_other s) raw body h = cc

  -- The error of an export that makes its request is that of the reply.
  export-error :
      (e : Exporter) (url : String) (m : Option Mesure) (reply : Reply)
      → x.request_accepts e.config.method url ≡ true
      → known_encoding e.config.encoding ≡ true
      → (export x d e url m reply).error ≡ outcome_of x d url reply.response
  unfolding export
  export-error e url m reply a k = rw (a, k, export) refl

  -- The end of a round with a request.
  deliver-flushes :
      (p : Pushing) (raw : RawData) (s : Loop) (body : String) (reply : Reply) (ms : List Mesure)
      (place : Option (Mesure × ℕ))
      → x.request_accepts p.exporter.config.method (or_else s.url_app_id traces_url) ≡ true
      → known_encoding p.exporter.config.encoding ≡ true
      → (q : Pushing) × (deliver env.ext x d marshal clock traces_url p raw s
            (some body)
            reply
            ms
            place
          ≡ go_on q)
        × (q.exporter.transactions ≡ s.transactions)
        × (q.exporter.rawdata ≡ none)
        × (q.posts ≡ p.posts ++ (or_else s.url_app_id traces_url, body) ∷ [])
        × (q.error
            ≡ first_error p.error (outcome_of x d (or_else s.url_app_id traces_url) reply.response))
  unfolding deliver flush_rawdata_to_file_disk
  deliver-flushes p raw s body reply ms place accepts known =
      let e : Exporter = record p.exporter { rawdata = some raw; transactions = s.transactions } in
      let url = or_else s.url_app_id traces_url in
      let (flushed, buffer, config) = export-keeps x d marshal url e (pointer place) reply in
      let posts =
        ap (λ ps. ps ++ (url, body) ∷ [])
          (flushed-posts p.exporter.config.record_collecte body p) in
      let failed =
        ap (first_error p.error) (export-error e url (pointer place) reply accepts known) in
      (_, refl, buffer, flushed, posts, failed)

  -- What SendTransactions leaves in the raw data.
  abbrev pub raw_of : Config → Translation → String → RawData
  raw_of config q app = record q.raw {
    transactions =
        q.raw.transactions
        ++ transactions_of env.ext config.timeout_buffer_transaction clock app
            (sent env.ext config.timeout_buffer_transaction clock app 0 q.transactions);
  }

  -- The URL that the transactions that are due have.
  abbrev pub url_of : Config → Translation → String → Option String
  url_of config q app =
      add_url env.ext config.timeout_buffer_transaction clock app none
        (sent env.ext config.timeout_buffer_transaction clock app 0 q.transactions)

  count_round-flushes :
      (p : Pushing) (app : String) (raw : RawData) (s : Loop) (reply : Reply) (body : String)
      (f : Option (Mesure × ℕ))
      → env.ext.find Mesure p.mesures (λ m. m.identifiant == app) ≡ f
      → Found (λ (m : Mesure). m.identifiant == app) 0 p.mesures f
      → any (λ (m : Mesure). m.identifiant == app) p.mesures ≡ true
      → x.request_accepts p.exporter.config.method (or_else s.url_app_id traces_url) ≡ true
      → encode marshal p.exporter.config.encoding raw ≡ some body
      → (q : Pushing) × (count_round env.ext x d marshal clock traces_url p app raw s reply
          ≡ ok (go_on q))
        × (q.exporter.transactions ≡ s.transactions)
        × (q.exporter.rawdata ≡ none)
        × (q.posts ≡ p.posts ++ (or_else s.url_app_id traces_url, body) ∷ [])
        × (q.error
            ≡ first_error p.error (outcome_of x d (or_else s.url_app_id traces_url) reply.response))
  unfolding count_round
  count_round-flushes p app raw s reply body _ e (found {i} before m after w at n k) a accepts h =
      let m' = add_request raw (some body) m in
      let known = encode-known p.exporter.config.encoding raw body h in
      let (q, d, buffer, flushed, posts, failed) =
        deliver-flushes p raw s body reply (set p.mesures i m') (some (m', i)) accepts known in
      (q, rw (e, h, count_round) (ap ok d), buffer, flushed, posts, failed)
  count_round-flushes p app raw s reply body _ e (missing n) a accepts h = cc

  push_round-eq :
      (p : Pushing) (app : String) (raw : RawData) (reply : Reply)
      → (app == "") ≡ false
      → p.exporter.rawdata ≡ some raw
      → let timeout = p.exporter.config.timeout_buffer_transaction in
        let ts = p.exporter.transactions in
        let due = sent env.ext timeout clock app 0 ts in
        let sum = raw.transactions ++ transactions_of env.ext timeout clock app due in
        push_round env.ext x d marshal clock traces_url p app reply
        ≡ count_round env.ext x d marshal clock traces_url p app
            (record raw { transactions = sum })
            (loop_of env.ext timeout clock app
              (kept env.ext timeout clock app 0 ts)
              sum
              due
              (add_languages env.ext timeout clock app [] due)
              (add_url env.ext timeout clock app none due))
            reply
  unfolding push_round
  push_round-eq p app raw reply n r =
      let timeout = p.exporter.config.timeout_buffer_transaction in
      rw (n, push_round)
        (ap
            (λ o. send_transactions env.ext timeout clock app o p.exporter.transactions >>= λ r.
              count_round env.ext x d marshal clock traces_url p app r.0 r.1 reply)
            r
          ∙ ap
              (λ q. q >>= λ r. count_round env.ext x d marshal clock traces_url p app r.0 r.1 reply)
              (send_transactions-eq env.ext timeout clock app (some raw) p.exporter.transactions))

  -- If the translation of a request returns a buffer of one named application, which has a measure,
  -- the raw data with the transactions that are due can be encoded, and an HTTP request with the
  -- configured method can be made to the URL of the application's transactions or else that of the
  -- exporter, then pushTraces returns. It has called `export` once, with that URL and that encoding
  -- as the body, and returns the error that the reply to this request leads to; the exporter keeps
  -- in its buffer what is not due, and its raw data is gone, whatever the reply is.
  pub push_traces-returns :
      (e : Exporter) (ms : List Mesure) (n : ℕ) (created : RawData) (rs : List Resource)
      (replies : ℕ → Reply) (q : Translation) (app body : String)
      → translate
          (record env { config = e.config })
          rs
          (record { transactions = e.transactions; raw = with_rawdata created e.rawdata })
        ≡ ok q
      → application_ids q.transactions ≡ app ∷ []
      → (app == "") ≡ false
      → any (λ (m : Mesure). m.identifiant == app) ms ≡ true
      → x.request_accepts e.config.method (or_else (url_of e.config q app) traces_url) ≡ true
      → encode marshal e.config.encoding (raw_of e.config q app) ≡ some body
      → (p : Pushing) × (push_traces env x d marshal clock traces_url e ms n created rs replies
          ≡ ok p)
        × (p.exporter.transactions
            ≡ kept env.ext e.config.timeout_buffer_transaction clock app 0 q.transactions)
        × (p.exporter.rawdata ≡ none)
        × (p.posts ≡ (or_else (url_of e.config q app) traces_url, body) ∷ [])
        × (p.error
            ≡ first_error none
                (outcome_of x d (or_else (url_of e.config q app) traces_url) (replies 0).response))
  unfolding push_traces push_loop
  push_traces-returns e ms n created rs replies q app body t ids named a accepts h =
      let timeout = e.config.timeout_buffer_transaction in
      let e' : Exporter = record e { rawdata = some q.raw; transactions = q.transactions } in
      let p : Pushing = record {
        exporter = e';
        mesures = ms;
        filename_n = n;
        files = [];
        posts = [];
        error = none;
      } in
      let s =
        loop_of env.ext timeout clock app (kept env.ext timeout clock app 0 q.transactions)
          (raw_of e.config q app).transactions (sent env.ext timeout clock app 0 q.transactions)
          (add_languages env.ext timeout clock app []
            (sent env.ext timeout clock app 0 q.transactions))
          (add_url env.ext timeout clock app none
            (sent env.ext timeout clock app 0 q.transactions)) in
      let (r, round, buffer, flushed, posts, failed) =
        count_round-flushes p app (raw_of e.config q app) s (replies 0) body _ refl
          (find-Found env.ext (λ (m : Mesure). m.identifiant == app) ms) a accepts h in
      (
        r,
        rw (t, ids, push_loop, push_round-eq p app q.raw (replies 0) named refl, round) refl,
        buffer,
        flushed,
        posts,
        failed,
      )
