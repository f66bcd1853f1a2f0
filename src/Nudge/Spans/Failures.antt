-- ===== src/Nudge/Spans/Failures.antt =====
-- The errors that the server branch of `TracesExportRequest2Rawdata` reports: that of the request,
-- and those of the events of its span.
use opentelemetry_collector.Nudge.Semantics.{semantic_attributes_x}
use opentelemetry_collector.Prelude.{
  String, Bool, ◌&&◌, ◌||◌, List, [], ◌∷◌, Option, none, some, ◌==◌, ◌+++◌, if◌then◌else◌,
}
use opentelemetry_collector.Nudge.Result.{Result, ok, panic, ◌>>=◌, nil_dereference}
use opentelemetry_collector.Nudge.Attributes.{
  AttributeMap, Attribute, get, get_keys, int, as_string,
}
use opentelemetry_collector.Nudge.Model.{ErrorX, new_error}
use opentelemetry_collector.Nudge.Stack.{stacktrace, jvm_stacktrace}
use opentelemetry_collector.Nudge.Spans.{Span, Event, sle}
use opentelemetry_collector.Nudge.Spans.Opening.{Environment}

abbrev pub text_of : Option Attribute → Option String
text_of none = none
text_of (some v) = some v.as_string

module _ (env : Environment) where
  -- whether the branch reports an error of the request
  unfoldable pub request_failed : AttributeMap → Bool
  unfolding get get_keys
  request_failed attributes =
      (env.ext.includes_one_field (get_keys attributes) (
          semantic_attributes_x "HTTP_ERROR_NAME"
          ∷ semantic_attributes_x "HTTP_ERROR_MESSAGE"
          ∷ semantic_attributes_x "HTTP_STACKTRACE"
          ∷ [])
        || env.ext.includes_one_field (get_keys attributes) (env.keys.http_status_code_key ∷ []))
      && sle 400 (int (get attributes (semantic_attributes_x "HTTP_STATUS_CODE")))

  abbrev pub joined : String → Option Attribute → String
  joined s none = s
  joined s (some v) = s +++ " - " +++ v.as_string

  -- the name of the error behind the message, a nil pointer if there is none yet
  abbrev pub named : Option String → Option Attribute → Result (Option String)
  named message none = ok message
  named none (some v) = panic nil_dereference
  named (some s) (some v) = ok (some (s +++ " - " +++ v.as_string))

  abbrev pub status_message : AttributeMap → Result (Option String)
  status_message attributes = elim (get attributes (semantic_attributes_x "HTTP_STATUS_CODE")) [
    | none ↦ ok none
    | some v ↦
        if sle 400 v.int
        then named (text_of (get attributes (semantic_attributes_x "HTTP_STATUS_TEXT")))
            (get attributes (semantic_attributes_x "HTTP_ERROR_NAME"))
        else ok none
  ]

  abbrev pub error_message : AttributeMap → Result (Option String)
  error_message attributes = elim (get attributes (semantic_attributes_x "HTTP_ERROR_MESSAGE")) [
    | some v ↦
        ok (some (joined v.as_string (get attributes (semantic_attributes_x "HTTP_ERROR_NAME"))))
    | none ↦ status_message attributes
  ]

  abbrev pub status_text : Option Attribute → Option String
  status_text none = none
  status_text (some v) = some ("Http status: " +++ v.as_string)

  -- the error of the request, if there is one
  unfoldable pub request_errors : Span → Result (List ErrorX)
  unfolding request_failed new_error get
  request_errors span =
      if request_failed span.attributes
      then (error_message span.attributes >>= λ message. ok (
          record new_error {
            error = record new_error.error {
              code = status_text (get span.attributes (semantic_attributes_x "HTTP_STATUS_CODE"));
              start_time = some span.start_nano;
              message = message;
            };
          }
          ∷ []))
      else ok []

  -- the error of an event
  unfoldable pub event_error : AttributeMap → Result ErrorX
  unfolding stacktrace jvm_stacktrace new_error get
  event_error attributes = do
    code ← as_string (get attributes "exception.type")
    message ← as_string (get attributes "exception.message")
    trace ← as_string (get attributes "exception.stacktrace")
    ok (record new_error {
      error = record new_error.error {
        code = some code;
        start_time = some (int (get attributes "startTime"));
        message = some message;
        stacktrace = some (stacktrace trace);
        jvm_stacktrace = some (jvm_stacktrace trace);
      };
    })

  -- the loop over the events
  unfoldable pub event_errors : List Event → Result (List ErrorX)
  unfolding event_error
  event_errors [] = ok []
  event_errors (e ∷ es) =
      let rest = event_errors es in
      if e.name == "exception"
      then (event_error e.attributes >>= λ x. rest >>= λ xs. ok (x ∷ xs))
      else rest
