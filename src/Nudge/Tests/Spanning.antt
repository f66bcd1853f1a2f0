-- ===== src/Nudge/Tests/Spanning.antt =====
-- The keys of semconv and a span: a call that took 250 ms.
use opentelemetry_collector.Prelude.{false, []}
use opentelemetry_collector.Nudge.Codes.{Semconv}
use opentelemetry_collector.Nudge.Spans.{Span, other_kind}

abbrev pub keys : Semconv
keys = record {
  http_method_key = "http.method";
  http_user_agent_key = "http.user_agent";
  http_status_code_key = "http.status_code";
  net_peer_ip_key = "net.peer.ip";
  net_peer_name_key = "net.peer.name";
  net_peer_port_key = "net.peer.port";
  http_route_key = "http.route";
  http_url_key = "http.url";
  http_target_key = "http.target";
  http_flavor_key = "http.flavor";
  db_system_key = "db.system";
  db_statement_key = "db.statement";
  db_connection_string_key = "db.connection_string";
  db_user_key = "db.user";
  db_name_key = "db.name";
  db_mongodb_collection_key = "db.mongodb.collection";
}

abbrev pub span : Span
span = record {
  name = "call";
  kind = other_kind;
  trace_id = "t1";
  events = [];
  start_nano = 1000000000;
  now = "";
  original = [];
  parent_empty = false;
  status_code = 0;
  status_name = "Unset";
  status_message = "";
  start = 1000;
  stop = 1250;
  attributes = [];
}
