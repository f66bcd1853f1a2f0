-- ===== src/Nudge/Tests.antt =====
-- Instances of the theorems about the exporter, with the parameters instantiated by concrete
-- functions: those of `Extension` for extensionlinux, and decoders that know one text.
mod Sending
mod Exporting
mod Spanning
mod Translating
mod Reporting
mod Pushing
mod Living
mod Coding
mod Showing
mod Creating
use Prim.Native.String.{String, len, slice}
use opentelemetry_collector.Prelude.{
  ℕ, ◌+◌, Bool, true, false, List, [], ◌∷◌, ◌++◌, map, Option, none, some, ◌≡◌, refl, ◌==◌,
  if◌then◌else◌, any,
}
use opentelemetry_collector.Nudge.Extension.{
  ExtensionLinux, find_from, index_of, keep_if, remove_at,
}
use opentelemetry_collector.Nudge.Config.{
  Config, EncodingType, encoding_json, Verbosity, other_level,
}
use opentelemetry_collector.Nudge.Model.{
  RawData, Transaction, TransactionNudge, Tag, ErrorX, new_transaction_nudge, new_error,
}

unfoldable pub arrays : ExtensionLinux
unfolding find_from keep_if remove_at
arrays = record {
  find = λ A xs p. find_from 0 xs p;
  find_index = λ A xs p. index_of (find_from 0 xs p);
  map_text = λ xs f. map f xs;
  filter = λ xs p. keep_if p xs;
  includes_one_field = λ xs ys. any (λ y. any (λ x. x == y) xs) ys;
  splice = λ A xs i n. remove_at xs i;
  append_unique = λ xs x. if any (λ y. y == x) xs then xs else xs ++ x ∷ [];
  starts_with = λ s p. slice s 0 (len p) == p;
  to_upper_case1 = λ s. s;
  find_lem = λ A xs p. refl;
  find_index_lem = λ A xs p. refl;
  map_text_lem = λ xs f. refl;
  filter_lem = λ xs p. refl;
  includes_one_field_lem = λ xs ys. refl;
  splice_lem = λ A xs i. refl;
  append_unique_lem = λ xs x. refl;
}

abbrev pub transaction_of : String → String → ℕ → ℕ → List ErrorX → TransactionNudge
unfolding new_transaction_nudge
transaction_of id app urlid start errors = record new_transaction_nudge {
  transaction = record new_transaction_nudge.transaction {
    uuid = some id;
    start_time = some start;
  };
  errors_x = errors;
  tag = record new_transaction_nudge.tag { urlid = urlid; application_id = app };
}

-- a finished one, one that waits, one that has waited for a minute, and one of another application
abbrev pub buffer : List TransactionNudge
buffer =
    transaction_of "u1" "shop" 0 100000 []
    ∷ transaction_of "u2" "shop" 1 100000 []
    ∷ transaction_of "u3" "shop" 1 40000 []
    ∷ transaction_of "u4" "bank" 0 100000 []
    ∷ []

abbrev pub clock : ℕ → ℕ
clock n = 101000 + n

abbrev pub raw : RawData
raw = record { transactions = []; user_agent = none }

abbrev pub config : Config
config = record {
  endpoint = "http://localhost:1234";
  app_id = "shop";
  path_collect = "/collect";
  method = "POST";
  verbosity = other_level;
  encoding = encoding_json;
  record_collecte = false;
  insert_resource = false;
  timeout_buffer_transaction = 30;
  filter_header = [];
  session_id = "";
  send_user_connection_string = false;
  wait_end_service = true;
  traces_endpoint = "";
  metrics_endpoint = "";
  logs_endpoint = "";
  debug_path = "/debug";
  debug_port = 15682;
}
