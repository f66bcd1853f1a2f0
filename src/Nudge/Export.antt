-- ===== src/Nudge/Export.antt =====
-- `export`: the request, what it counts in the measure of the application, and what it makes of the
-- response (`Response`). The HTTP client is a parameter. Counters wrap at 2 ^ 64.
pub mod Errors
pub mod Counters
use Prim.Native.Nat.{zero, suc}
use opentelemetry_collector.Prelude.{
  ℕ, ◌*◌, String, Bool, true, false, not, ◌&&◌, ◌||◌, List, [], ◌∷◌, Option, none, some, length,
  ◌==◌, eqb, leb, ltb, if◌then◌else◌, add64,
}
use opentelemetry_collector.Nudge.Config.{
  Config, EncodingType, encoding_proto, encoding_json, encoding_other,
}
use opentelemetry_collector.Nudge.Response.{
  Response, Reply, bytes, Decoders, ExportError, bad_request, invalid_encoding, client_failed,
  Externals, failure_of, is_success, handle_partial_success_response,
}
use opentelemetry_collector.Nudge.Model.{RawData, TransactionNudge}

-- Mesure: its identifier, its name, Value and Values[0], and the counters of its map. Value and Values
-- are floats; as natural numbers they are exact below 2 ^ 53. The times are left out, and so are the
-- unit and the comment, which are the same for all.
pub record Mesure : Type 0 where
  pub identifiant : String
  pub name : String
  pub value : ℕ
  pub bytes : ℕ
  pub ntraces : ℕ
  pub duration : ℕ
  pub success : ℕ
  pub error : ℕ

abbrev replied_ok : Option Response → Bool
replied_ok none = false
replied_ok (some resp) = is_success resp

-- the updates of the measure around the call of the client
unfoldable pub count_reply : Reply → Mesure → Mesure
unfolding is_success
count_reply reply m =
    let ok = replied_ok reply.response in
    record m {
      ntraces = add64 m.ntraces 1;
      duration = add64 m.duration reply.duration;
      success = if ok then add64 m.success 1 else m.success;
      error = if ok then m.error else add64 m.error 1;
    }

-- The exporter's own state.
pub record Exporter : Type 0 where
  pub config : Config
  pub rawdata : Option RawData
  pub transactions : List TransactionNudge

abbrev map_measure : (Mesure → Mesure) → Option Mesure → Option Mesure
map_measure f none = none
map_measure f (some m) = some (f m)

pub record Exported : Type 0 where
  pub exporter : Exporter
  pub mesure : Option Mesure
  pub error : Option ExportError

abbrev pub known_encoding : EncodingType → Bool
known_encoding encoding_proto = true
known_encoding encoding_json = true
known_encoding (encoding_other s) = false

abbrev pub outcome_of : Externals → Decoders → String → Option Response → Option ExportError
outcome_of x d url none = some client_failed
outcome_of x d url (some resp) =
    if is_success resp then handle_partial_success_response d resp else some (failure_of x url resp)

-- export
unfoldable pub export : Externals → Decoders → Exporter → String → Option Mesure → Reply → Exported
unfolding count_reply is_success handle_partial_success_response failure_of
export x d e url m reply =
    let flushed : Exporter = record e { rawdata = none } in
    if not (x.request_accepts e.config.method url)
    then record { exporter = flushed; mesure = m; error = some bad_request }
    else if not (known_encoding e.config.encoding)
    then record { exporter = flushed; mesure = m; error = some invalid_encoding }
    else record {
      exporter = flushed;
      mesure = map_measure (count_reply reply) m;
      error = outcome_of x d url reply.response;
    }
