-- ===== src/Nudge/Codes.antt =====
-- The extended codes and headers of nudge.go: `InsertExtCode`, `InsertExtendedCode`,
-- `AddAllHeaders`, `AddAllExtendedcodes` and `AddAllExtendedcodesLayerDetails`. The keys of the
-- semconv package and the parse of a user agent by the user_agent package are parameters.
pub mod Http
pub mod Insert
pub mod Headers
pub mod Filter
use Prim.Native.Char.{code}
use Prim.Native.String
use opentelemetry_collector.Prelude.{
  ℕ, zero, suc, ◌+◌, ◌-◌, String, len, slice, Bool, true, false, not, ◌&&◌, ◌||◌, List, [], ◌∷◌,
  ◌++◌, map, Option, none, some, ◌==◌, ◌+++◌, if◌then◌else◌, leb, ltb, join, split, replace_char,
  remove_all, equal_lower, code_is,
}
use opentelemetry_collector.Nudge.Extension.{ExtensionLinux}
use opentelemetry_collector.Nudge.Result.{Result, ok, panic, slice_bounds, ◌>>=◌, deref}
use opentelemetry_collector.Nudge.Attributes.{
  AttributeMap, Attribute, get, get_keys, header_value, Item,
}
use opentelemetry_collector.Nudge.Model.{KeyValue, Param, LayerDetail, Transaction}
use opentelemetry_collector.Nudge.Send.{set}

-- The keys of the semconv package.
pub record Semconv : Type 0 where
  pub http_method_key : String
  pub http_user_agent_key : String
  pub http_status_code_key : String
  pub net_peer_ip_key : String
  pub net_peer_name_key : String
  pub net_peer_port_key : String
  pub http_route_key : String
  pub http_url_key : String
  pub http_target_key : String
  pub http_flavor_key : String
  pub db_system_key : String
  pub db_statement_key : String
  pub db_connection_string_key : String
  pub db_user_key : String
  pub db_name_key : String
  pub db_mongodb_collection_key : String

-- What user_agent.New finds in a user agent.
pub record Browser : Type 0 where
  pub name : String
  pub version : String
  pub os_full_name : String
  pub platform : String
  pub engine : String
  pub engine_version : String

-- GetKey() == key
abbrev pub has_key : String → KeyValue → Bool
has_key key kv = kv.key == key

abbrev pub code_of : String → String → KeyValue
code_of key value = record { key = key; value = value }

-- a digit run of at most `n`, and the text behind it
abbrev digits : ℕ → String → String × String
digits zero s = ("", s)
digits (suc n) String.[] = ("", "")
digits (suc n) (String.◌∷◌ c s) =
    let r = digits n s in
    if leb b'0' (code c) && leb (code c) b'9' then (String.◌∷◌ c r.0, r.1) else ("", String.◌∷◌ c s)

-- `n` times `\d{1,3}\.`, and one `\d{1,3}`, at the start of a text
abbrev pub dotted : ℕ → String → Option String
dotted zero s = let r = digits 3 s in if r.0 == "" then none else some r.0
dotted (suc n) s =
    let r = digits 3 s in
    let rest = dotted n (slice r.1 1 (len r.1)) in
    if r.0 == "" || not (slice r.1 0 1 == ".")
    then none
    else elim rest [ none ↦ none | some t ↦ some (r.0 +++ "." +++ t) ]

-- the first match of the regular expression for `:` and an IPv4 address, without the `:`
unfoldable pub find_address : String → Option String
find_address String.[] = none
find_address (String.◌∷◌ c s) =
    let rest = find_address s in
    if code_is b':' c then (elim (dotted 3 s) [ none ↦ rest | some m ↦ some m ]) else rest

abbrev pub header_prefixes : List String
header_prefixes = "http.request.header." ∷ "http.response.header." ∷ []

-- the table Headers
abbrev header_table : String → String
header_table name =
    if name == "content-length-uncompressed"
    then "Content-Length"
    else if name == "content-length"
    then "Content-Length"
    else ""

-- att[n:]
abbrev pub suffix : String → ℕ → Result String
suffix att n = if leb n (len att) then ok (slice att n (len att)) else panic slice_bounds

abbrev shown_items : List Item → List String
shown_items xs = map (λ (i : Item). i.shown) xs

-- the text of a header: its items, or else the text itself
abbrev header_text : Attribute → String
header_text v = elim v.items [ none ↦ v.as_string | some xs ↦ join "," (shown_items xs) ]

abbrev param_of : String → String → Param
param_of key value = record { key = key; value = value; param_type = none }

module _ (ext : ExtensionLinux) where
  -- the part that InsertExtCode and InsertExtendedCode share: the first code with the key gets the
  -- value, and else a new code is appended
  unfoldable pub put_code : List KeyValue → String → String → List KeyValue
  put_code codes key_x value = elim (ext.find KeyValue codes (has_key key_x)) [
    | some (kv, i) ↦ set codes i (code_of kv.key value)
    | none ↦ codes ++ code_of key_x value ∷ []
  ]

  -- InsertExtCode and its Boolean result
  unfoldable pub insert_ext_code : String → String → AttributeMap → LayerDetail → LayerDetail × Bool
  unfolding put_code get
  insert_ext_code key key_x attr detail = elim (get attr key) [
    | some v ↦ (record detail { ext_codes = put_code detail.ext_codes key_x v.as_string }, true)
    | none ↦ (detail, false)
  ]

  -- InsertExtendedCode and its Boolean result
  unfoldable pub insert_extended_code :
      String → String → AttributeMap → Transaction → Transaction × Bool
  unfolding put_code get
  insert_extended_code key key_x attr t = elim (get attr key) [
    | some v ↦ (record t { extended_codes = put_code t.extended_codes key_x v.as_string }, true)
    | none ↦ (t, false)
  ]

  -- the body of the loop of AddAllHeaders
  unfoldable pub header_param : AttributeMap → String → List Param
  unfolding get
  header_param attributes kr =
      let bare = replace_char b'_' "-" (remove_all (len kr) kr "http.request.header.") in
      let name = if not (header_table bare == "") then header_table bare else bare in
      let shown = join "-" (ext.map_text (split b'-' name) ext.to_upper_case1) in
      elim (get attributes kr) [ none ↦ [] | some v ↦ param_of shown (header_text v) ∷ [] ]

  unfoldable pub header_params : AttributeMap → List String → List Param
  unfolding header_param
  header_params attributes [] = []
  header_params attributes (kr ∷ krs) = header_param attributes kr ++ header_params attributes krs

  -- AddAllHeaders
  unfoldable pub add_all_headers : AttributeMap → Transaction → Transaction
  unfolding header_params get_keys
  add_all_headers attributes t =
      let krs = ext.filter (get_keys attributes) (λ k. ext.starts_with k "http.request.header.") in
      record t { headers = t.headers ++ header_params attributes krs }
