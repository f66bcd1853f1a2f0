-- ===== src/Nudge/Spans/HttpClient.antt =====
-- The branch of `TracesExportRequest2Rawdata` for an HTTP call that a service makes.

use opentelemetry_collector.Nudge.Semantics.{semantic_attributes_x}
use opentelemetry_collector.Prelude.{
  String, len, Bool, true, false, ◌&&◌, ◌||◌, List, [], ◌∷◌, Option, none, some, ◌==◌, ◌+++◌,
  if◌then◌else◌, eqb, ltb, sle,
}
use opentelemetry_collector.Nudge.Extension.{ExtensionLinux}
use opentelemetry_collector.Nudge.Result.{Result, ok, ◌>>=◌}
use opentelemetry_collector.Nudge.Attributes.{get, as_string, int}
use opentelemetry_collector.Nudge.Model.{Layer, LayerDetail, ErrorX, TransactionNudge, new_error}
use opentelemetry_collector.Nudge.Codes.{Semconv}
use opentelemetry_collector.Nudge.Codes.Http.{add_all_extendedcodes_layer_details}
use opentelemetry_collector.Nudge.Layers.{open_layer, add_error, close_layer}
use opentelemetry_collector.Nudge.Send.{set}
use opentelemetry_collector.Nudge.Spans.{
  Span, error_http, new_detail, with_stack, optional_text, finish, fail, set_layers, insert_all,
}

module _ (ext : ExtensionLinux) (keys : Semconv) where
  -- the message of a failed HTTP call
  abbrev http_message : Span → Result (Option String)
  http_message span =
      if span.status_message == ""
      then ok none
      else (as_string (get span.attributes keys.http_url_key) >>= λ url. ok (
          some (if ltb 30 (len url) then url +++ "..." else url +++ " : " +++ span.status_message)))

  unfoldable pub http_error : Span → Result ErrorX
  unfolding with_stack new_error get
  http_error span = do
    message ← http_message span
    with_stack span.attributes (record new_error {
      error = record new_error.error {
        code = some span.status_name;
        start_time = some span.start;
        message = message;
      };
    })

  -- whether the branch of HTTP calls reports an error
  unfoldable pub http_failed : Span → Bool
  unfolding get
  http_failed span =
      let status = get span.attributes keys.http_status_code_key in
      eqb span.status_code error_http && (elim status [ none ↦ false | some v ↦ true ])
      || sle 400 (int status)

  -- the codes of an HTTP call
  unfoldable pub http_codes : List String → Span → LayerDetail → Result LayerDetail
  unfolding insert_all add_all_extendedcodes_layer_details
  http_codes filter_header span d = do
    let d1 =
        insert_all ext span.attributes
          ((keys.http_target_key, keys.http_target_key)
            ∷ (semantic_attributes_x "HTTP_STATUS_TEXT", semantic_attributes_x "HTTP_STATUS_TEXT")
            ∷ (keys.http_flavor_key, keys.http_flavor_key)
            ∷ (keys.http_method_key, keys.http_method_key)
            ∷ (keys.net_peer_name_key, keys.net_peer_name_key)
            ∷ (keys.net_peer_port_key, keys.net_peer_port_key)
            ∷ [])
          d
    codes ← add_all_extendedcodes_layer_details ext filter_header keys span.original d1.ext_codes
    ok (record d1 { ext_codes = codes })

  -- the branch of HTTP calls
  unfoldable pub http_client_span : List String → Span → TransactionNudge → Result TransactionNudge
  unfolding http_failed http_error http_codes open_layer new_detail close_layer add_error get
  http_client_span filter_header span t =
      let t1 =
        finish span.parent_empty (optional_text (get span.attributes keys.http_route_key)) t in
      let opened = open_layer ext t1.transaction.layers "HTTP" in
      let url = optional_text (get span.attributes keys.http_url_key) in
      let placed : Layer → LayerDetail → TransactionNudge → TransactionNudge =
        λ l d u. set_layers (set opened.0 opened.1.1 (close_layer d l)) u in
      if http_failed span
      then (http_error span >>= λ e.
          http_codes filter_header span (new_detail span (some 1) url) >>= λ d.
          ok (placed (add_error opened.1.0) d (fail e t1)))
      else (http_codes filter_header span (new_detail span (some 0) url) >>= λ d.
          ok (placed opened.1.0 d t1))
