-- ===== src/Nudge/Push.antt =====
-- `pushTraces`: the translation of the spans into the buffer, and one round per application, each of
-- which sends that application's transactions; and `pushMetrics`, `pushLogs` and `pushProfiles`.
-- `marshal` is the JSON or protobuf encoder, `none` its error; `replies` are the answers of the HTTP
-- client, one for each round. The console is left out. `created` is what `CreateRawdata` makes, and
-- `n` the number of the next file.
pub mod Applications
pub mod Faults
pub mod Batches
pub mod Passes
pub mod Dumps
pub mod Unset
pub mod Measures
pub mod Histories
pub mod Buffer
pub mod Signals
use opentelemetry_collector.Prelude.{
  ℕ, ◌+◌, String, Bool, true, false, not, ◌&&◌, List, [], ◌∷◌, ◌++◌, map, Option, none, some, ◌==◌,
  if◌then◌else◌, any, add64, len, length, ◌+++◌,
}
use opentelemetry_collector.Nudge.Extension.{ExtensionLinux}
use opentelemetry_collector.Nudge.Result.{Result, ok, panic, ◌>>=◌, deref, first}
use opentelemetry_collector.Nudge.Config.{
  Config, EncodingType, encoding_proto, encoding_json, encoding_other,
}
use opentelemetry_collector.Nudge.Model.{RawData, TransactionNudge}
use opentelemetry_collector.Nudge.Send.{Loop, set, send_transactions}
use opentelemetry_collector.Nudge.Spans.Opening.{Environment}
use opentelemetry_collector.Nudge.Translate.{Translation, Resource, translate}
use opentelemetry_collector.Nudge.Export.{Exporter, Exported, Mesure, export}
use opentelemetry_collector.Nudge.Response.{Reply, Externals, Decoders, ExportError}

-- the reduction of the buffer to its application ids
unfoldable pub collect_ids : List String → List TransactionNudge → List String
collect_ids ids [] = ids
collect_ids ids (t ∷ ts) =
    collect_ids
      (if any (λ u. u == t.tag.application_id) ids then ids else ids ++ t.tag.application_id ∷ [])
      ts

unfoldable pub application_ids : List TransactionNudge → List String
unfolding collect_ids
application_ids ts = collect_ids [] ts

-- What pushTraces returns: an error, if any; `marshal_failed` is permanent.
pub data PushError : Type 0 where
  marshal_failed invalid_encoding : PushError
  export_failed : ExportError → PushError

-- The exporter, the measures of all applications, the number of the next file, the calls of
-- os.WriteFile (the file, its content, and whether it was written), the URLs and bodies of the calls of
-- `export`, and the first error so far.
pub record Pushing : Type 0 where
  pub exporter : Exporter
  pub mesures : List Mesure
  pub filename_n : ℕ
  pub files : List (String × String × Bool)
  pub posts : List (String × String)
  pub error : Option PushError

-- Either the loop goes on, or pushTraces returns at once.
pub data Round : Type 0 where
  go_on : Pushing → Round
  returns : Pushing → Round

-- len(request), where no request is nil
abbrev pub request_len : Option String → ℕ
request_len none = 0
request_len (some body) = len body

abbrev pub new_mesure : String → String → ℕ → Option String → Mesure
new_mesure id name sent request = record {
  identifiant = id;
  name = name;
  value = sent;
  bytes = request_len request;
  ntraces = 0;
  duration = 0;
  success = 0;
  error = 0;
}

-- the updates of a measure that there is
abbrev pub add_request : RawData → Option String → Mesure → Mesure
add_request raw request m = record m {
  value = m.value + length raw.transactions;
  bytes = m.bytes + request_len request;
}

abbrev pub first_error : Option PushError → Option ExportError → Option PushError
first_error (some e) new = some e
first_error none none = none
first_error none (some e) = some (export_failed e)

-- A write through the pointer that `Find` returned.
abbrev pub write_back : List Mesure → ℕ → Option Mesure → List Mesure
write_back ms i none = ms
write_back ms i (some m) = set ms i m

-- the pointer to a measure that `Find` returned, nil if there was none
abbrev pub pointer : Option (Mesure × ℕ) → Option Mesure
pointer none = none
pointer (some (m, i)) = some m

abbrev pub write_found : List Mesure → Option (Mesure × ℕ) → Option Mesure → List Mesure
write_found ms none m = ms
write_found ms (some (old, i)) m = write_back ms i m

-- the names that Go's switch on the encoding leads to
abbrev pub encoding_error : EncodingType → PushError
encoding_error encoding_proto = marshal_failed
encoding_error encoding_json = marshal_failed
encoding_error (encoding_other s) = invalid_encoding

abbrev pub encode :
    (EncodingType → RawData → Option String) → EncodingType → RawData → Option String
encode marshal encoding_proto raw = marshal encoding_proto raw
encode marshal encoding_json raw = marshal encoding_json raw
encode marshal (encoding_other s) raw = none

-- BuildPathCollect
unfoldable pub build_path_collect : Externals → String → ℕ → String
build_path_collect x date_str n =
    let relative_path = "./collectes/collecte_" +++ date_str +++ "_" +++ x.itoa n +++ ".dat" in
    elim (x.abs relative_path) [ none ↦ relative_path | some abs_path ↦ abs_path ]

-- FlushRawdataToFileDisk: os.WriteFile is called, whose error is only printed, and the number goes up
-- in both cases
unfoldable pub flush_rawdata_to_file_disk : Externals → String → Pushing → Pushing
unfolding build_path_collect
flush_rawdata_to_file_disk x request p =
    let filename = build_path_collect x "X" p.filename_n in
    record p {
      files = p.files ++ (filename, request, x.write_file filename request) ∷ [];
      filename_n = add64 p.filename_n 1;
    }

abbrev pub or_else : Option String → String → String
or_else none u = u
or_else (some v) u = v

module _ (ext : ExtensionLinux) (x : Externals) (d : Decoders)
    (marshal : EncodingType → RawData → Option String) (clock : ℕ → ℕ) (traces_url : String) where
  -- the end of a round, once the measure is known
  unfoldable pub deliver :
      Pushing → RawData → Loop → Option String → Reply → List Mesure → Option (Mesure × ℕ) → Round
  unfolding export flush_rawdata_to_file_disk
  deliver p raw s request reply ms found =
      let e : Exporter = record p.exporter { rawdata = some raw; transactions = s.transactions } in
      let url = or_else s.url_app_id traces_url in
      elim request [
        | none ↦ returns (record p {
          exporter = e;
          mesures = ms;
          error = some (encoding_error e.config.encoding);
        })
        | some body ↦
            let r = export x d e url (pointer found) reply in
            let p' = if e.config.record_collecte then flush_rawdata_to_file_disk x body p else p in
            go_on (record p' {
              exporter = r.exporter;
              mesures = write_found ms found r.mesure;
              posts = p'.posts ++ (url, body) ∷ [];
              error = first_error p.error r.error;
            })
      ]

  -- the counting: an application that has no measure yet gets one, named after the first sent
  -- transaction, and the pointer that goes on to `export` stays nil
  unfoldable pub count_round : Pushing → String → RawData → Loop → Reply → Result Round
  unfolding deliver
  count_round p application_id raw s reply =
      let request = encode marshal p.exporter.config.encoding raw in
      elim (ext.find Mesure p.mesures (λ m. m.identifiant == application_id)) [
        | some (m, i) ↦
            let m' = add_request raw request m in
            ok (deliver p raw s request reply (set p.mesures i m') (some (m', i)))
        | none ↦ do
          t ← first s.ts
          let new = new_mesure application_id t.tag.statistique_name (length s.ts) request
          ok (deliver p raw s request reply (p.mesures ++ new ∷ []) none)
      ]

  -- one round of the loop over the application ids
  unfoldable pub push_round : Pushing → String → Reply → Result Round
  unfolding send_transactions count_round
  push_round p application_id reply = if application_id == "" then ok (go_on p) else do
    r ←
        send_transactions ext p.exporter.config.timeout_buffer_transaction clock application_id
          p.exporter.rawdata p.exporter.transactions
    count_round p application_id r.0 r.1 reply

  unfoldable pub push_loop : Pushing → List String → (ℕ → Reply) → Result Pushing
  unfolding push_round
  push_loop p [] replies = ok p
  push_loop p (id ∷ ids) replies = elim (push_round p id (replies 0)) [
    | panic f ↦ panic f
    | ok (returns q) ↦ ok q
    | ok (go_on q) ↦ push_loop q ids (λ n. replies (n + 1))
  ]

-- the creation of the raw data, if there is none
abbrev pub with_rawdata : RawData → Option RawData → RawData
with_rawdata created none = created
with_rawdata created (some raw) = raw

-- pushTraces: raw data is created if there is none, the spans are translated into the buffer, and
-- the applications of the buffer are sent. The translation reads the exporter's configuration.
unfoldable pub push_traces :
    Environment
    → Externals
    → Decoders
    → (EncodingType → RawData → Option String)
    → (ℕ → ℕ)
    → String
    → Exporter
    → List Mesure
    → ℕ
    → RawData
    → List Resource
    → (ℕ → Reply)
    → Result Pushing
unfolding translate push_loop application_ids
push_traces env x d marshal clock traces_url e ms n created rs replies = do
  q ←
      translate (record env { config = e.config }) rs
        (record { transactions = e.transactions; raw = with_rawdata created e.rawdata })
  push_loop env.ext x d marshal clock traces_url
      (record {
        exporter = record e { rawdata = some q.raw; transactions = q.transactions };
        mesures = ms;
        filename_n = n;
        files = [];
        posts = [];
        error = none;
      })
      (application_ids q.transactions) replies

-- pushMetrics, and its copies for logs and profiles, which differ in the URL and the decoders only:
-- the functions that should translate the records into the raw data are empty, so the records are
-- no argument
unfoldable pub push_signal :
    Externals
    → Decoders
    → (EncodingType → RawData → Option String)
    → String
    → Exporter
    → RawData
    → Reply
    → Exporter × Option PushError
unfolding export
push_signal x d marshal signal_url e created reply =
    let raw = with_rawdata created e.rawdata in
    let e' : Exporter = record e { rawdata = some raw } in
    elim (encode marshal e.config.encoding raw) [
      | none ↦ (e', some (encoding_error e.config.encoding))
      | some body ↦
          let r = export x d e' signal_url none reply in (r.exporter, first_error none r.error)
    ]
