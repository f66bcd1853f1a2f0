-- ===== src/Nudge/Spans/Database.antt =====
-- The branch of `TracesExportRequest2Rawdata` for a database or GraphQL request.

use opentelemetry_collector.Nudge.Semantics.{semantic_attributes_x}
use opentelemetry_collector.Prelude.{
  String, len, slice, Bool, true, false, ◌||◌, List, [], ◌∷◌, ◌++◌, Option, none, some, ◌==◌, ◌+++◌,
  if◌then◌else◌, eqb, ltb, any, replace_first, equal_lower,
}
use opentelemetry_collector.Nudge.Extension.{ExtensionLinux}
use opentelemetry_collector.Nudge.Result.{Result, ok, panic, nil_dereference, ◌>>=◌}
use opentelemetry_collector.Nudge.Attributes.{
  AttributeMap, Attribute, get, get_keys, as_string, int_text, str,
}
use opentelemetry_collector.Nudge.Model.{Layer, LayerDetail, ErrorX, TransactionNudge, new_error}
use opentelemetry_collector.Nudge.Codes.{Semconv, code_of, put_code, insert_ext_code}
use opentelemetry_collector.Nudge.Layers.{open_layer, add_error, add_call, close_layer}
use opentelemetry_collector.Nudge.Send.{set}
use opentelemetry_collector.Nudge.Spans.{
  Span, error_sql, new_detail, with_stack, optional_text, finish, fail, set_layers, insert_all,
}

module _ (ext : ExtensionLinux) (keys : Semconv) where
  -- the message of a failed request, whose status message is empty
  abbrev sql_message : Span → Result (Option String)
  sql_message span =
      if span.status_message == ""
      then (as_string (get span.attributes keys.db_statement_key) >>= λ sql.
          ok (some (if ltb 40 (len sql) then slice sql 0 40 +++ "..." else sql +++ " : ")))
      else ok none

  abbrev sql_code : Option Attribute → Option String
  sql_code none = none
  sql_code (some v) = some ("SQL - " +++ v.as_string)

  unfoldable pub sql_error : Span → Result ErrorX
  unfolding with_stack new_error get
  sql_error span = do
    message ← sql_message span
    with_stack span.attributes (record new_error {
      error = record new_error.error {
        code = sql_code (get span.attributes keys.db_system_key);
        start_time = some span.start;
        message = message;
      };
    })

  -- the codes of a GraphQL request
  unfoldable pub graphql_codes : AttributeMap → LayerDetail → Result LayerDetail
  unfolding insert_all put_code get
  graphql_codes attributes d = elim (get attributes "graphql.operation.type") [
    | some op ↦
        let d1 = insert_all ext attributes (("graphql.operation.type", "jdbc.name") ∷ []) d in
        let d2 : LayerDetail = record d1 {
          ext_codes = d1.ext_codes ++ code_of "jdbc.url" "jdbc:graphql://" ∷ [];
        } in
        ok (
          insert_all ext attributes
            (("graphql.source", keys.db_statement_key)
              ∷ ("graphql.operation.type", "jdbc.product.user")
              ∷ [])
            d2)
    | none ↦ elim (get attributes "graphql.source") [
      | none ↦ panic nil_dereference
      | some v ↦ ok (record d {
        ext_codes =
            put_code ext (put_code ext d.ext_codes keys.db_system_key v.as_string)
              keys.db_system_key "graphql";
      })
    ]
  ]

  -- a connection string with its user
  abbrev with_user : Bool → Option String → String → String
  with_user false user s = s
  with_user true none s = replace_first s "://" "://"
  with_user true (some u) s = replace_first s "://" ("://" +++ u +++ "@")

  abbrev non_empty : Option String → Option String
  non_empty none = none
  non_empty (some u) = if u == "" then none else some u

  abbrev address : String → String → String → String → String
  address system host port name = system +++ "://" +++ host +++ ":" +++ port +++ "/" +++ name

  -- the connection string for the system that an attribute names
  abbrev system_url : Bool → AttributeMap → String → String
  system_url send_user attributes system =
      let name = str (get attributes keys.db_name_key) in
      let host = str (get attributes keys.net_peer_name_key) in
      let port = get attributes keys.net_peer_port_key in
      let user = non_empty (optional_text (get attributes keys.db_user_key)) in
      let s = str (get attributes keys.db_system_key) in
      with_user send_user user (
        if equal_lower system "sqlite" || equal_lower system "sqlite3"
        then system +++ "///" +++ name
        else if equal_lower system "cassandra"
        then address s host (int_text port) name
        else address s host (str port) name)

  -- the connection string of a request, if it has one
  unfoldable pub connection_url : Bool → AttributeMap → Option String
  unfolding get
  connection_url send_user attributes = elim (get attributes keys.db_connection_string_key) [
    | some v ↦
        some (with_user send_user (optional_text (get attributes keys.db_user_key)) v.as_string)
    | none ↦ elim (get attributes keys.db_mongodb_collection_key) [
      | some c ↦ some (
          with_user send_user (non_empty (optional_text (get attributes keys.db_name_key))) (
            address (str (get attributes keys.db_system_key))
              (str (get attributes keys.net_peer_name_key))
              (int_text (get attributes keys.net_peer_port_key)) c.str))
      | none ↦ elim (get attributes keys.db_system_key) [
        | some v ↦ some (system_url send_user attributes v.as_string)
        | none ↦ none
      ]
    ]
  ]

  -- the attributes that do not become codes under their own keys
  abbrev pub reserved_keys : List String
  reserved_keys =
      keys.db_user_key
      ∷ keys.db_system_key
      ∷ keys.db_name_key
      ∷ keys.db_mongodb_collection_key
      ∷ keys.db_connection_string_key
      ∷ keys.db_statement_key
      ∷ semantic_attributes_x "HTTP_STACKTRACE"
      ∷ "SQL"
      ∷ []

  -- the loop over the attributes
  unfoldable pub other_codes : AttributeMap → List String → LayerDetail → LayerDetail
  unfolding insert_ext_code
  other_codes attributes [] d = d
  other_codes attributes (k ∷ ks) d =
      other_codes attributes ks
        (if any (λ s. s == k) reserved_keys then d else (insert_ext_code ext k k attributes d).0)

  abbrev add_url_code : Option String → LayerDetail → LayerDetail
  add_url_code none d = d
  add_url_code (some u) d = record d { ext_codes = d.ext_codes ++ code_of "jdbc.url" u ∷ [] }

  -- the codes of a database request
  unfoldable pub database_codes : Bool → AttributeMap → LayerDetail → LayerDetail
  unfolding connection_url insert_all other_codes get_keys
  database_codes send_user attributes d = other_codes attributes (get_keys attributes) (
      insert_all ext attributes
        ((keys.db_name_key, "jdbc.name")
          ∷ (keys.db_system_key, "jdbc.system")
          ∷ (keys.db_user_key, "jdbc.product.user")
          ∷ [])
        (add_url_code (connection_url send_user attributes) d))

  -- the switch on the instrument: the codes of the detail, and whether the call is appended
  -- before the end of the branch
  unfoldable pub instrument_codes :
      Bool → Option String → AttributeMap → LayerDetail → Result (LayerDetail × Bool)
  unfolding graphql_codes database_codes
  instrument_codes send_user none attributes d = ok (d, false)
  instrument_codes send_user (some instrument) attributes d =
      if instrument == "Graphql"
      then (graphql_codes attributes d >>= λ d'. ok (d', true))
      else ok (database_codes send_user attributes d, false)

  abbrev add_first : Bool → LayerDetail → Layer → Layer
  add_first false d l = l
  add_first true d l = add_call d l

  -- the branch of database and GraphQL requests
  unfoldable pub database_span :
      Bool → Option String → Span → TransactionNudge → Result TransactionNudge
  unfolding sql_error instrument_codes open_layer new_detail close_layer add_error get
  database_span send_user instrument span t =
      let t1 = finish span.parent_empty (some span.name) t in
      let opened = open_layer ext t1.transaction.layers "SQL" in
      let sql = optional_text (get span.attributes keys.db_statement_key) in
      let placed : Layer → LayerDetail × Bool → TransactionNudge → TransactionNudge =
        λ l r u. set_layers (set opened.0 opened.1.1 (close_layer r.0 (add_first r.1 r.0 l))) u in
      if eqb span.status_code error_sql
      then (sql_error span >>= λ e.
          instrument_codes send_user instrument span.attributes (new_detail span (some 1) sql)
          >>= λ r. ok (placed (add_error opened.1.0) r (fail e t1)))
      else (instrument_codes send_user instrument span.attributes (new_detail span (some 0) sql)
          >>= λ r. ok (placed opened.1.0 r t1))
