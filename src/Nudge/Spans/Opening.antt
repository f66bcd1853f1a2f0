-- ===== src/Nudge/Spans/Opening.antt =====
-- The beginning of the translation of a span: the search or creation of the transaction of its
-- trace, and the choice of the application. `uuid_of` is GetUuid with its text, a hash by the uuid
-- library; `Map.PutStr` of the pdata library sets the first entry of a key or appends one.
use opentelemetry_collector.Nudge.Semantics.{semantic_attributes_x}
use opentelemetry_collector.Prelude.{
  ℕ, String, Bool, not, ◌||◌, List, [], ◌∷◌, ◌++◌, Option, none, some, ◌==◌, if◌then◌else◌, length,
}
use opentelemetry_collector.Nudge.Extension.{ExtensionLinux}
use opentelemetry_collector.Nudge.Attributes.{AttributeMap, Attribute, get}
use opentelemetry_collector.Nudge.Config.{
  Config, compose_signal_url, attributes_to_url, url, url_error, UrlResult,
}
use opentelemetry_collector.Nudge.Model.{TransactionNudge, status_ok, new_transaction_nudge}
use opentelemetry_collector.Nudge.Codes.{Semconv, Browser}
use opentelemetry_collector.Nudge.Spans.{Span}

-- What the translation uses besides its span: the exporter's configuration and libraries.
pub record Environment : Type 1 where
  pub ext : ExtensionLinux
  pub keys : Semconv
  pub config : Config
  pub uuid_of : String → String
  pub parse_url : String → Bool
  pub parse_agent : String → Browser

abbrev pub text_of : Option String → String
text_of none = ""
text_of (some s) = s

-- GetUuid() == uuid
abbrev pub has_uuid : String → TransactionNudge → Bool
has_uuid uuid t = text_of t.transaction.uuid == uuid

abbrev pub text_attribute : String → Attribute
text_attribute s = record { as_string = s; str = s; int = 0; int_text = "0"; items = none }

-- Map.PutStr
unfoldable pub put_str : AttributeMap → String → String → AttributeMap
put_str [] key s = (key, text_attribute s) ∷ []
put_str ((k, v) ∷ m) key s =
    let rest = put_str m key s in if k == key then (k, text_attribute s) ∷ m else (k, v) ∷ rest

-- the transaction of a trace that has none yet
unfoldable pub opened_transaction : Environment → String → Span → TransactionNudge
unfolding new_transaction_nudge
opened_transaction env uuid span = record new_transaction_nudge {
  transaction = record new_transaction_nudge.transaction {
    status = some status_ok;
    uuid = some uuid;
    session_id =
        some (
          if not (env.config.session_id == "")
          then env.config.session_id
          else env.uuid_of span.now);
  };
  tag = record new_transaction_nudge.tag { correlationid = 0; urlid = 1; serveur = none };
}

-- The buffer with the transaction of the span's trace, its index, the transaction, and the span
-- with the attributes that the rest of the translation reads.
pub record Opened : Type 0 where
  pub transactions : List TransactionNudge
  pub index : ℕ
  pub transaction : TransactionNudge
  pub span : Span

-- the two outcomes of the search
abbrev pub opened_at :
    Environment → List TransactionNudge → Span → Option (TransactionNudge × ℕ) → Opened
opened_at env ts span (some (t, i)) = record {
  transactions = ts;
  index = i;
  transaction = t;
  span = span;
}
opened_at env ts span none =
    let uuid = env.uuid_of span.trace_id in
    record {
      transactions = ts ++ opened_transaction env uuid span ∷ [];
      index = length ts;
      transaction = opened_transaction env uuid span;
      span = record span {
        attributes = put_str span.attributes (semantic_attributes_x "UUID") uuid;
      };
    }

unfoldable pub open_transaction : Environment → List TransactionNudge → Span → Opened
unfolding opened_transaction put_str
open_transaction env ts span =
    opened_at env ts span (env.ext.find TransactionNudge ts (has_uuid (env.uuid_of span.trace_id)))

abbrev pub or_text : Option Attribute → String → String
or_text none old = old
or_text (some v) old = v.as_string

abbrev pub or_url : UrlResult → Option String → Option String
or_url (url s) old = some s
or_url (url_error e) old = old

-- the choice of the application by an attribute or by the configuration
unfoldable pub choose_application : Environment → AttributeMap → TransactionNudge → TransactionNudge
unfolding get attributes_to_url compose_signal_url
choose_application env attributes t = elim (get attributes "nudge_application_id") [
  | some v ↦
      if t.tag.application_id == "" || not (t.tag.application_id == v.as_string)
      then record t {
        tag = record t.tag {
          application_id = v.as_string;
          url_app_id = attributes_to_url env.parse_url env.config attributes;
          statistique_name =
              or_text (get attributes "nudge_application_statistique_name") t.tag.statistique_name;
        };
      }
      else t
  | none ↦
      if t.tag.application_id == "" || not (t.tag.application_id == env.config.app_id)
      then record t {
        tag = record t.tag {
          application_id = env.config.app_id;
          url_app_id =
              or_url
                (compose_signal_url env.parse_url env.config env.config.traces_endpoint
                  env.config.path_collect env.config.app_id)
                t.tag.url_app_id;
        };
      }
      else t
]
