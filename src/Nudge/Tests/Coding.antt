-- ===== src/Nudge/Tests/Coding.antt =====
-- Instances of the theorems about the codes of headers and of database connections.
use opentelemetry_collector.Nudge.Codes.Filter.{NamesNeither, filter_header-none}
use opentelemetry_collector.Nudge.Tests.Translating.{text}
use opentelemetry_collector.Nudge.Tests.Spanning.{keys, span}
use opentelemetry_collector.Nudge.Spans.Users.{
  string_keys, connection_url-same, instrument_codes-user,
}
use opentelemetry_collector.Nudge.Spans.{new_detail}
use opentelemetry_collector.Nudge.Push.Applications.{distinct}
use opentelemetry_collector.Nudge.Tests.{arrays}
use opentelemetry_collector.Nudge.Spans.Database.{connection_url, instrument_codes}
use opentelemetry_collector.Nudge.Result.{Ensures, ok}
use opentelemetry_collector.Nudge.Model.{LayerDetail}
use opentelemetry_collector.Nudge.Codes.Insert.{value_of}
use opentelemetry_collector.Nudge.Codes.Http.{
  growing_attributes, add_all_extendedcodes_layer_details, fixed_attributes,
}
use opentelemetry_collector.Nudge.Codes.Headers.{IsPlain, keys_of, layer_details-IsDistinct}
use opentelemetry_collector.Nudge.Attributes.{AttributeMap, get, get_keys}
use opentelemetry_collector.Prelude.{String, true, false, List, [], ◌∷◌, none, some, ◌≡◌, refl, All}

abbrev attributes : AttributeMap
attributes =
    ("http.request.header.content_type", text "text/html")
    ∷ ("http.request.header.Content_type", text "text/plain")
    ∷ ("net.peer.ip", text "::ffff:10.0.0.1")
    ∷ []

plain : IsPlain arrays [] []
plain = record { distinct_keys = refl; no_six = refl }

layer_details-IsDistinct_example :
    Ensures
      (λ codes. distinct (keys_of codes) ≡ true)
      (add_all_extendedcodes_layer_details arrays [] keys attributes [])
layer_details-IsDistinct_example = layer_details-IsDistinct arrays [] keys attributes [] plain

abbrev names : List String
names = "Content-Type" ∷ []

names-NamesNeither : NamesNeither names
names-NamesNeither = ((refl, tt), ((refl, tt), tt))

filter_header-none_example :
    (growing_attributes arrays names attributes (get_keys attributes) [] ≡ ok [])
    × (fixed_attributes arrays names attributes [] (get_keys attributes) [] ≡ ok [])
filter_header-none_example =
    filter_header-none arrays names attributes [] (get_keys attributes) [] (λ e. cc)
      names-NamesNeither

abbrev query : String → AttributeMap
query user =
    ("db.connection_string", text "jdbc:mysql://db/shop")
    ∷ ("db.user", text user)
    ∷ ("db.system", text "mysql")
    ∷ []

abbrev detail : LayerDetail
detail = new_detail span (some 0) none

has_user : get (query "root") keys.db_user_key ≡ some (text "root")
unfolding get
has_user = refl

no_code : get (query "root") "jdbc.product.user" ≡ none
unfolding get
no_code = refl

instrument_codes-user_example :
    (coded : LayerDetail) × (instrument_codes arrays keys false (some "Mysql") (query "root") detail
      ≡ ok (coded, false))
    × (value_of "jdbc.product.user" coded.ext_codes ≡ some "root")
instrument_codes-user_example =
    instrument_codes-user arrays keys false "Mysql" (query "root") detail (text "root") refl
      has_user no_code

same_string : All (λ k. get (query "root") k ≡ get (query "guest") k) (string_keys arrays keys)
unfolding get
same_string = (refl, (refl, (refl, (refl, (refl, (refl, tt))))))

connection_url-same_example :
    connection_url arrays keys false (query "root")
    ≡ connection_url arrays keys false (query "guest")
connection_url-same_example =
    connection_url-same arrays keys (query "root") (query "guest") same_string
