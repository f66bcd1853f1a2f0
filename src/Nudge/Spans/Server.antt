-- ===== src/Nudge/Spans/Server.antt =====
-- The branch of `TracesExportRequest2Rawdata` for a request that a service answers. What it
-- computes and never uses (the peer) is left out. `AsTime()` of a timestamp is never Go's zero time,
-- so the tests of `IsZero` always pass.
use opentelemetry_collector.Nudge.Semantics.{semantic_attributes_x}
use opentelemetry_collector.Prelude.{
  ◌+◌, ◌%◌, ◌^◌, String, Bool, true, false, not, ◌||◌, List, [], ◌∷◌, ◌++◌, Option, none, some,
  ◌==◌, ◌+++◌, if◌then◌else◌, min64, max64,
}
use opentelemetry_collector.Nudge.Result.{Result, ok, ◌>>=◌, deref}
use opentelemetry_collector.Nudge.Attributes.{AttributeMap, get, as_string}
use opentelemetry_collector.Nudge.Model.{
  Transaction, TransactionNudge, Server, status_ok, status_ko, ErrorX, RawData, get_or_zero,
}
use opentelemetry_collector.Nudge.Codes.{add_all_headers}
use opentelemetry_collector.Nudge.Codes.Http.{add_all_extendedcodes}
use opentelemetry_collector.Nudge.Spans.{Span, sle}
use opentelemetry_collector.Nudge.Spans.Failures.{request_errors, event_errors}
use opentelemetry_collector.Nudge.Spans.Params.{url_params}
use opentelemetry_collector.Nudge.Spans.Agents.{set_agent}
use opentelemetry_collector.Nudge.Spans.Opening.{Environment}

abbrev pub has : AttributeMap → String → Bool
has attributes key = elim (get attributes key) [ none ↦ false | some v ↦ true ]

-- The first steps: the upstream ids, and the count of the correlation.
abbrev pub begin : Span → TransactionNudge → TransactionNudge
begin span t = record t {
  transaction = record t.transaction {
    upstream_tx_id = some span.trace_id;
    upstream_correlation_id = some t.tag.correlationid;
  };
  tag = record t.tag { correlationid = (t.tag.correlationid + 1) % 2 ^ 32 };
}

-- StartTime and EndTime
unfoldable pub set_times : Span → Transaction → Transaction
set_times span t = record t {
  start_time = elim t.start_time [ none ↦ some span.start | some s ↦ some (min64 s span.start) ];
  end_time = some (max64 (get_or_zero t.end_time) span.stop);
}

abbrev pub set_name : Span → Transaction → Transaction
set_name span t = if span.parent_empty then record t { code = some span.name } else t

module _ (env : Environment) where
  -- the branch on the URL
  abbrev pub set_url : Span → TransactionNudge → TransactionNudge
  set_url span t = elim (get span.attributes env.keys.http_url_key) [
    | none ↦ t
    | some v ↦ record t {
      transaction = record t.transaction {
        params = t.transaction.params ++ url_params v.as_string;
      };
      tag = record t.tag {
        code = elim t.transaction.code [ none ↦ "" | some c ↦ c ];
        trace_id = span.trace_id;
      };
    }
  ]

  -- RespStatusCode and MethodName
  abbrev pub set_code : AttributeMap → Transaction → Transaction
  set_code attributes t = elim (get attributes env.keys.http_status_code_key) [
    | none ↦ t
    | some v ↦ record t { resp_status_code = some (v.int % 2 ^ 32) }
  ]

  abbrev pub set_method : AttributeMap → Transaction → Transaction
  set_method attributes t = elim (get attributes env.keys.http_method_key) [
    | none ↦ t
    | some v ↦ record t { method_name = some v.as_string }
  ]

  abbrev pub marked : List ErrorX → Transaction → Transaction
  marked [] t = t
  marked (e ∷ es) t = record t { status = some status_ko }

  -- the last word on the status, by the attributes of the span
  unfoldable pub set_status : AttributeMap → Transaction → Transaction
  unfolding get
  set_status attributes t =
      if has attributes (semantic_attributes_x "HTTP_ERROR_NAME")
        || has attributes (semantic_attributes_x "HTTP_ERROR_MESSAGE")
      then record t { status = some status_ok }
      else elim (get attributes (semantic_attributes_x "HTTP_STATUS_CODE")) [
        | none ↦ t
        | some v ↦ if sle 400 v.int || sle v.int 0 then record t { status = some status_ko } else t
      ]

  abbrev pub with_agent : AttributeMap → RawData → TransactionNudge → RawData × TransactionNudge
  with_agent attributes raw t = elim (get attributes env.keys.http_user_agent_key) [
    | none ↦ (raw, t)
    | some v ↦ set_agent env.ext v.as_string raw t
  ]

  abbrev pub opened_server : AttributeMap → String → Option Server → Result Server
  opened_server attributes serveur (some s) = ok s
  opened_server attributes serveur none = do
    name ← as_string (get attributes (serveur +++ ".name"))
    type ← as_string (get attributes (serveur +++ ".type"))
    ok (record { name = name; server_type = type; nom = serveur; instrument = "" })

  abbrev pub with_instrument : Option String → Server → Result Server
  with_instrument instrument s =
      if s.instrument == ""
      then (deref instrument >>= λ i. ok (record s { instrument = i }))
      else ok s

  -- the branch on the server that GetNameType found
  unfoldable pub set_server :
      Option String → Option String → AttributeMap → TransactionNudge → Result TransactionNudge
  unfolding get
  set_server instrument none attributes t = ok t
  set_server instrument (some serveur) attributes t = do
    s ← opened_server attributes serveur t.tag.serveur
    s' ← with_instrument instrument s
    ok (record t {
      transaction = record t.transaction {
        tx_type = elim t.transaction.tx_type [
          | none ↦ some (env.ext.to_upper_case1 serveur)
          | some x ↦ some x
        ];
      };
      tag = record t.tag { serveur = some s' };
    })

  abbrev pub on_transaction : (Transaction → Transaction) → TransactionNudge → TransactionNudge
  on_transaction f t = record t { transaction = f t.transaction }

  -- the mark for sending
  abbrev pub set_mark : Span → TransactionNudge → TransactionNudge
  set_mark span t =
      if not env.config.wait_end_service || span.parent_empty
      then record t { tag = record t.tag { urlid = 0 } }
      else t

  -- the steps from the name of the request to its method, given the message with its codes and the
  -- errors; `t` has had its first steps
  abbrev pub fill_request :
      Span → TransactionNudge → Transaction → List ErrorX → List ErrorX → TransactionNudge
  fill_request span t coded failed raised =
      let t2 = set_url span (record t { transaction = set_times span (set_name span coded) }) in
      record t2 {
        transaction =
            set_method span.attributes (
              set_status span.attributes (marked raised (set_code span.attributes t2.transaction)));
        errors_x = t2.errors_x ++ (failed ++ raised);
      }

  -- the branch of requests
  unfoldable pub server_span :
      Option String
      → Option String
      → Span
      → RawData
      → TransactionNudge
      → Result (RawData × TransactionNudge)
  unfolding add_all_headers add_all_extendedcodes set_times url_params request_errors event_errors
      set_status set_agent set_server get
  server_span instrument serveur span raw t = do
    coded ←
        add_all_extendedcodes env.ext env.config.filter_header env.keys env.parse_agent
          span.original (add_all_headers env.ext span.original (begin span t).transaction)
    failed ← request_errors env span
    raised ← event_errors env span.events
    let r = with_agent span.attributes raw (fill_request span (begin span t) coded failed raised)
    t' ← set_server instrument serveur span.attributes r.1
    ok (r.0, set_mark span t')
