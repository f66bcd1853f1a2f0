-- ===== src/Nudge/Spans.antt =====
-- What the branches of `TracesExportRequest2Rawdata` share: `Server`, that of a request that a
-- service answers, `HttpClient`, that of an HTTP call that it makes, and `Database`, that of a
-- database request. A span stands for what the exporter asks of it; times are milliseconds as
-- `int64`. What the branches compute and never use (the peer's URL, in parts) is left out.
pub mod Params
pub mod Agents
pub mod Opening
pub mod Failures
pub mod Server
pub mod HttpClient
pub mod Database
pub mod Users
pub mod Outcome
pub mod Aggregates
use opentelemetry_collector.Nudge.Semantics.{semantic_attributes_x}
use Prim.Native.String
use opentelemetry_collector.Prelude.{
  ℕ, ◌+◌, String, len, slice, Bool, true, false, not, ◌&&◌, ◌||◌, List, [], ◌∷◌, ◌++◌, Option, none,
  some, ◌==◌, ◌+++◌, if◌then◌else◌, eqb, ltb, sle, sub64, any, replace_first, equal_lower,
}
use opentelemetry_collector.Nudge.Extension.{ExtensionLinux}
use opentelemetry_collector.Nudge.Result.{Result, ok, panic, nil_dereference, ◌>>=◌, deref}
use opentelemetry_collector.Nudge.Attributes.{
  AttributeMap, Attribute, get, get_keys, as_string, int, int_text, str, slice_items, Item,
}
use opentelemetry_collector.Nudge.Model.{
  KeyValue, Layer, LayerDetail, ErrorX, Error, Transaction, TransactionNudge, status_ko, new_error,
}
use opentelemetry_collector.Nudge.Codes.{Semconv, code_of, put_code, insert_ext_code}
use opentelemetry_collector.Nudge.Codes.Http.{add_all_extendedcodes_layer_details}
use opentelemetry_collector.Nudge.Layers.{open_layer, add_error, add_call, close_layer}
use opentelemetry_collector.Nudge.Send.{set}
use opentelemetry_collector.Nudge.Stack.{trace_of, stacktrace, jvm_stacktrace}

pub data Kind : Type 0 where
  internal server other_kind : Kind

-- An event of a span.
pub record Event : Type 0 where
  pub name : String
  pub attributes : AttributeMap

-- `status_name` is the text of the status code; `parent_empty`: there is no parent span;
-- `start_nano` is the start in nanoseconds; `now` is the clock's text when the span is translated.
-- `attributes` is the local variable of the translation, which may hold one attribute more than
-- `original`, what the span itself has.
pub record Span : Type 0 where
  pub name : String
  pub kind : Kind
  pub trace_id : String
  pub events : List Event
  pub start_nano : ℕ
  pub now : String
  pub original : AttributeMap
  pub parent_empty : Bool
  pub status_code : ℕ
  pub status_name : String
  pub status_message : String
  pub start : ℕ
  pub stop : ℕ
  pub attributes : AttributeMap

abbrev error_http : ℕ
error_http = 1

abbrev pub error_sql : ℕ
error_sql = 2

-- the detail of a call before its codes
unfoldable pub new_detail : Span → Option ℕ → Option String → LayerDetail
new_detail span errors code = record {
  count = some 1;
  errors = errors;
  code = code;
  timestamp = some span.start;
  time = some (sub64 span.stop span.start);
  ext_codes = [];
}

-- the stack traces of an error, from the attribute that holds the trace
unfoldable pub with_stack : AttributeMap → ErrorX → Result ErrorX
unfolding trace_of stacktrace jvm_stacktrace get
with_stack attributes e = elim (get attributes (semantic_attributes_x "HTTP_STACKTRACE")) [
  | none ↦ ok e
  | some v ↦ do
    items ← slice_items v
    ok (record e {
      error = record e.error {
        stacktrace = some (stacktrace (trace_of items));
        jvm_stacktrace = some (jvm_stacktrace (trace_of items));
      };
    })
]

abbrev optional_text : Option Attribute → Option String
optional_text none = none
optional_text (some v) = some v.as_string

abbrev or_code : Option String → Option String → Option String
or_code old none = old
or_code old (some v) = some v

-- the new code of a transaction and the mark for sending, if the span has no parent
abbrev pub finish : Bool → Option String → TransactionNudge → TransactionNudge
finish false code t = t
finish true code t = record t {
  transaction = record t.transaction { code = or_code t.transaction.code code };
  tag = record t.tag { urlid = 0 };
}

-- the transaction with an error and the status KO
abbrev pub fail : ErrorX → TransactionNudge → TransactionNudge
fail e t = record t {
  transaction = record t.transaction { status = some status_ko };
  errors_x = t.errors_x ++ e ∷ [];
}

abbrev pub set_layers : List Layer → TransactionNudge → TransactionNudge
set_layers ls t = record t { transaction = record t.transaction { layers = ls } }

module _ (ext : ExtensionLinux) where
  -- InsertExtCode for each pair of keys, in their order
  unfoldable pub insert_all : AttributeMap → List (String × String) → LayerDetail → LayerDetail
  unfolding insert_ext_code
  insert_all attributes [] d = d
  insert_all attributes ((key, key_x) ∷ ks) d =
      insert_all attributes ks ((insert_ext_code ext key key_x attributes d).0)
