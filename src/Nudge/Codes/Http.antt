-- ===== src/Nudge/Codes/Http.antt =====
-- `AddAllExtendedcodes`, which extends the codes of a transaction, and
-- `AddAllExtendedcodesLayerDetails`, which extends those of a layer detail. The first one looks for
-- keys in the codes that it found at its start, the second one in the codes as they grow.

use opentelemetry_collector.Prelude.{
  ◌+◌, ◌-◌, String, len, slice, Bool, true, false, ◌&&◌, List, [], ◌∷◌, ◌++◌, Option, none, some,
  ◌+++◌, if◌then◌else◌, join, split, equal_lower,
}
use opentelemetry_collector.Nudge.Extension.{ExtensionLinux}
use opentelemetry_collector.Nudge.Result.{Result, ok, ◌>>=◌, deref}
use opentelemetry_collector.Nudge.Attributes.{AttributeMap, get, get_keys, header_value}
use opentelemetry_collector.Nudge.Model.{KeyValue, Transaction}
use opentelemetry_collector.Nudge.Codes.{
  Semconv, Browser, has_key, code_of, find_address, header_prefixes, suffix, insert_extended_code,
}

module _ (ext : ExtensionLinux) (filter_header : List String) where
  -- the filter of the configuration
  abbrev pub is_wanted : String → Bool
  is_wanted header = elim filter_header [
    | [] ↦ true
    | f ∷ fs ↦ elim (ext.find_index String (f ∷ fs) (λ e. equal_lower header e)) [
      | none ↦ false
      | some i ↦ true
    ]
  ]

  -- the key of a header's code, `att` without the prefix having its words capitalised
  abbrev pub code_key : String → String → Result String
  code_key header att = do
    rest ← suffix att (len header)
    ok (header +++ join "-" (ext.map_text (split b'_' rest) ext.to_upper_case1))

  -- the code of a header, unless there is one
  unfoldable pub unseen_code :
      AttributeMap → List KeyValue → String → String → Result (List KeyValue)
  unfolding get
  unseen_code attributes seen att key = elim (ext.find_index KeyValue seen (has_key key)) [
    | some i ↦ ok []
    | none ↦ do v ← deref (get attributes att); value ← header_value v; ok (code_of key value ∷ [])
  ]

  -- the body of the inner loop: the codes that it adds, if `seen` are those that it looks through
  unfoldable pub header_code :
      AttributeMap → List KeyValue → String → String → Result (List KeyValue)
  unfolding unseen_code
  header_code attributes seen att header =
      if ext.starts_with att header && is_wanted header
      then code_key header att >>= unseen_code attributes seen att
      else ok []

  -- the two loops, if the codes that they look through do not grow
  unfoldable pub fixed_headers :
      AttributeMap → List KeyValue → String → List String → List KeyValue → Result (List KeyValue)
  unfolding header_code
  fixed_headers attributes seen att [] codes = ok codes
  fixed_headers attributes seen att (header ∷ headers) codes = do
    new ← header_code attributes seen att header
    fixed_headers attributes seen att headers (codes ++ new)

  unfoldable pub fixed_attributes :
      AttributeMap → List KeyValue → List String → List KeyValue → Result (List KeyValue)
  unfolding fixed_headers
  fixed_attributes attributes seen [] codes = ok codes
  fixed_attributes attributes seen (att ∷ atts) codes = do
    codes' ← fixed_headers attributes seen att header_prefixes codes
    fixed_attributes attributes seen atts codes'

  -- the two loops, if they do
  unfoldable pub growing_headers :
      AttributeMap → String → List String → List KeyValue → Result (List KeyValue)
  unfolding header_code
  growing_headers attributes att [] codes = ok codes
  growing_headers attributes att (header ∷ headers) codes = do
    new ← header_code attributes codes att header
    growing_headers attributes att headers (codes ++ new)

  unfoldable pub growing_attributes :
      AttributeMap → List String → List KeyValue → Result (List KeyValue)
  unfolding growing_headers
  growing_attributes attributes [] codes = ok codes
  growing_attributes attributes (att ∷ atts) codes = do
    codes' ← growing_headers attributes att header_prefixes codes
    growing_attributes attributes atts codes'

  abbrev pub lacks : List KeyValue → String → Bool
  lacks seen key = elim (ext.find KeyValue seen (has_key key)) [ none ↦ true | some f ↦ false ]

  -- The codes of the client's address, and the address itself.
  unfoldable pub client_codes : String → List KeyValue × String
  unfolding find_address
  client_codes ip = elim (find_address ip) [
    | some m ↦ (
      code_of "http.clientip" m ∷ code_of "http.clientip6" (slice ip 0 (len ip - (len m + 1))) ∷ [],
      m,
    )
    | none ↦ (code_of "http.clientip" ip ∷ [], ip)
  ]

  abbrev browser_codes : Browser → List KeyValue
  browser_codes b =
      code_of "Environnement.Navigateur" (b.name +++ " " +++ b.version)
      ∷ code_of "Environnement.OS" b.os_full_name
      ∷ code_of "Environnement.Platform" b.platform
      ∷ code_of "Environnement.Engine" (b.engine +++ " " +++ b.engine_version)
      ∷ []

  module _ (keys : Semconv) where
    abbrev agent_codes : (String → Browser) → AttributeMap → List KeyValue
    agent_codes parse_agent attributes = elim (get attributes keys.http_user_agent_key) [
      | none ↦ []
      | some v ↦ browser_codes (parse_agent v.as_string)
    ]

    abbrev pub client_of : AttributeMap → List KeyValue → List KeyValue × Option String
    client_of attributes seen = elim (get attributes keys.net_peer_ip_key) [
      | none ↦ ([], none)
      | some v ↦
          if lacks seen "http.clientip"
          then ((client_codes v.as_string).0, some ((client_codes v.as_string).1))
          else ([], none)
    ]

    abbrev pub status_codes : AttributeMap → List KeyValue → List KeyValue
    status_codes attributes seen = elim (get attributes keys.http_status_code_key) [
      | none ↦ []
      | some v ↦ if lacks seen "http.status" then code_of "http.status" v.as_string ∷ [] else []
    ]

    abbrev or_old : Option String → Option String → Option String
    or_old old none = old
    or_old old (some v) = some v

    -- AddAllExtendedcodes
    unfoldable pub add_all_extendedcodes :
        (String → Browser) → AttributeMap → Transaction → Result Transaction
    unfolding fixed_attributes get_keys get client_codes insert_extended_code
    add_all_extendedcodes parse_agent attributes t =
        let seen = t.extended_codes in
        let t1 =
          (insert_extended_code ext keys.http_method_key keys.http_method_key attributes t).0 in
        do
          codes ← fixed_attributes attributes seen (get_keys attributes) t1.extended_codes
          ok (record t1 {
            extended_codes =
                codes
                ++ agent_codes parse_agent attributes
                ++ (client_of attributes seen).0
                ++ status_codes attributes seen;
            user_ip = or_old t1.user_ip ((client_of attributes seen).1);
          })

    -- AddAllExtendedcodesLayerDetails
    unfoldable pub add_all_extendedcodes_layer_details :
        AttributeMap → List KeyValue → Result (List KeyValue)
    unfolding growing_attributes get_keys get client_codes
    add_all_extendedcodes_layer_details attributes codes = do
      c1 ← growing_attributes attributes (get_keys attributes) codes
      let c2 = c1 ++ (client_of attributes c1).0
      ok (c2 ++ status_codes attributes c2)
