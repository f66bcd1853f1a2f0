-- ===== src/Nudge/Model.antt =====
-- The records of nudge.go and the fields that it uses of the protobuf messages of the Nudge raw
-- data. An optional field of a message is an `Option`, `none` being the nil pointer.
use opentelemetry_collector.Prelude.{ℕ, String, List, [], Option, none, some}

pub data Status : Type 0 where
  status_ok status_ko : Status

pub record KeyValue : Type 0 where
  pub key : String
  pub value : String

pub record Param : Type 0 where
  pub key : String
  pub value : String
  pub param_type : Option String

-- pdata.Error
pub record Error : Type 0 where
  pub server_id : Option String
  pub code : Option String
  pub start_time : Option ℕ
  pub message : Option String
  pub stacktrace : Option String
  pub jvm_stacktrace : Option String

-- ErrorX: the error that it embeds, its stack and its constructor's name
pub record ErrorX : Type 0 where
  pub error : Error
  pub stack : String
  pub constructor_name : String

-- newError
unfoldable pub new_error : ErrorX
new_error = record {
  error = record {
    server_id = none;
    code = none;
    start_time = none;
    message = none;
    stacktrace = none;
    jvm_stacktrace = none;
  };
  stack = "";
  constructor_name = "";
}

-- ErrorX.ToError
unfoldable pub to_error : ErrorX → Error
to_error e = record {
  server_id = e.error.server_id;
  code = e.error.code;
  start_time = e.error.start_time;
  message = e.error.message;
  stacktrace = e.error.stacktrace;
  jvm_stacktrace = e.error.jvm_stacktrace;
}

pub record LayerDetail : Type 0 where
  pub count : Option ℕ
  pub errors : Option ℕ
  pub code : Option String
  pub timestamp : Option ℕ
  pub time : Option ℕ
  pub ext_codes : List KeyValue

pub record Layer : Type 0 where
  pub layer_name : Option String
  pub count : Option ℕ
  pub errors : Option ℕ
  pub time : Option ℕ
  pub min : Option ℕ
  pub max : Option ℕ
  pub calls : List LayerDetail

-- pdata.Transaction
pub record Transaction : Type 0 where
  pub uuid : Option String
  pub session_id : Option String
  pub status : Option Status
  pub upstream_tx_id : Option String
  pub upstream_correlation_id : Option ℕ
  pub code : Option String
  pub start_time : Option ℕ
  pub end_time : Option ℕ
  pub params : List Param
  pub headers : List Param
  pub extended_codes : List KeyValue
  pub user_ip : Option String
  pub resp_status_code : Option ℕ
  pub method_name : Option String
  pub user_agent : Option String
  pub useragent_id : Option ℕ
  pub tx_type : Option String
  pub layers : List Layer
  pub errors : List Error

-- Server
pub record Server : Type 0 where
  pub name : String
  pub server_type : String
  pub nom : String
  pub instrument : String

-- TransactionNudge_TAG
pub record Tag : Type 0 where
  pub correlationid : ℕ
  pub urlid : ℕ
  pub serveur : Option Server
  pub code : String
  pub trace_id : String
  pub application_id : String
  pub language : String
  pub url_app_id : Option String
  pub statistique_name : String

-- TransactionNudge
pub record TransactionNudge : Type 0 where
  pub transaction : Transaction
  pub errors_x : List ErrorX
  pub tag : Tag

abbrev empty_transaction : Transaction
empty_transaction = record {
  uuid = none;
  session_id = none;
  status = none;
  upstream_tx_id = none;
  upstream_correlation_id = none;
  code = none;
  start_time = none;
  end_time = none;
  params = [];
  headers = [];
  extended_codes = [];
  user_ip = none;
  resp_status_code = none;
  method_name = none;
  user_agent = none;
  useragent_id = none;
  tx_type = none;
  layers = [];
  errors = [];
}

-- newTransactionNudge
unfoldable pub new_transaction_nudge : TransactionNudge
new_transaction_nudge = record {
  transaction = empty_transaction;
  errors_x = [];
  tag = record {
    correlationid = 0;
    urlid = 0;
    serveur = none;
    code = "";
    trace_id = "";
    application_id = "";
    language = "";
    url_app_id = none;
    statistique_name = "";
  };
}

-- an entry of the user agent dictionary of the raw data
pub record DictionaryEntry : Type 0 where
  pub name : String
  pub id : ℕ

-- pdata.RawData, as far as traces fill it
pub record RawData : Type 0 where
  pub transactions : List Transaction
  pub user_agent : Option (List DictionaryEntry)

-- The Get… methods of an optional number answer 0 on nil.
abbrev pub get_or_zero : Option ℕ → ℕ
get_or_zero none = 0
get_or_zero (some n) = n
