-- ===== src/Nudge/Spans/Users.antt =====
-- The login of a database connection, which `sendUserConnectionString` is to keep back.
use opentelemetry_collector.Nudge.Codes.Insert.{updated, insert_ext_code-value_of}
use opentelemetry_collector.Nudge.Spans.Database.{reserved_keys}
use opentelemetry_collector.Nudge.Codes.Insert.{value_of}
use opentelemetry_collector.Nudge.Spans.{insert_all, LayerDetail}
use opentelemetry_collector.Nudge.Attributes.{AttributeMap, get, Attribute, get_keys}
use opentelemetry_collector.Nudge.Spans.Database.{
  connection_url, database_codes, other_codes, instrument_codes,
}
use opentelemetry_collector.Nudge.Result.{ok}
use opentelemetry_collector.Nudge.Codes.{Semconv, insert_ext_code}
use opentelemetry_collector.Nudge.Extension.{ExtensionLinux}
use opentelemetry_collector.Prelude.{
  String, Bool, false, List, [], ◌∷◌, none, some, ◌==◌, ◌≡◌, refl, sym, ap, ◌∙◌, inl, inr, All,
  Bool-cases, Option-cases, eq_iff, any,
}

module _ (ext : ExtensionLinux) (keys : Semconv) where
  abbrev user_code : String
  user_code = "jdbc.product.user"

  -- An attribute that is not the user's code keeps that code.
  inserted-user :
      (key key_x : String) (attributes : AttributeMap) (d : LayerDetail)
      → (key_x == user_code) ≡ false
      → value_of user_code (insert_ext_code ext key key_x attributes d).0.ext_codes
        ≡ value_of user_code d.ext_codes
  unfolding updated
  inserted-user key key_x attributes d n =
      insert_ext_code-value_of ext key key_x user_code attributes d
      ∙ elim (Option-cases (get attributes key)) [
        | inl e ↦ rw (updated, e) refl
        | inr (v, e) ↦ rw (updated, e, n) refl
      ]

  -- An attribute under its own key keeps the user's code, if no attribute has that key.
  inserted-own :
      (k : String) (attributes : AttributeMap) (d : LayerDetail)
      → get attributes user_code ≡ none
      → value_of user_code (insert_ext_code ext k k attributes d).0.ext_codes
        ≡ value_of user_code d.ext_codes
  unfolding updated
  inserted-own k attributes d n = elim (Bool-cases (k == user_code)) [
    | inr e ↦ inserted-user k k attributes d e
    | inl e ↦
        let missing = ap (get attributes) ((eq_iff k user_code).0 e) ∙ n in
        insert_ext_code-value_of ext k k user_code attributes d ∙ rw (updated, missing) refl
  ]

  -- The loop over the attributes keeps the code of the user, if no attribute has its key.
  other_codes-user :
      (attributes : AttributeMap) (ks : List String) (d : LayerDetail)
      → get attributes user_code ≡ none
      → value_of user_code (other_codes ext keys attributes ks d).ext_codes
        ≡ value_of user_code d.ext_codes
  unfolding other_codes
  other_codes-user attributes [] d n = refl
  other_codes-user attributes (k ∷ ks) d n =
      elim (Bool-cases (any (λ s. s == k) (reserved_keys ext keys))) [
        | inl e ↦ rw (e, other_codes) (other_codes-user attributes ks d n)
        | inr e ↦
            rw (e, other_codes)
              (other_codes-user attributes ks (insert_ext_code ext k k attributes d).0 n
                ∙ inserted-own k attributes d n)
      ]

  database_codes-user :
      (send_user : Bool) (attributes : AttributeMap) (d : LayerDetail) (u : Attribute)
      → get attributes keys.db_user_key ≡ some u
      → get attributes user_code ≡ none
      → value_of user_code (database_codes ext keys send_user attributes d).ext_codes
        ≡ some u.as_string
  unfolding database_codes insert_all updated
  database_codes-user send_user attributes d u e n =
      other_codes-user attributes (get_keys attributes) _ n
      ∙ insert_ext_code-value_of ext keys.db_user_key user_code user_code attributes _
      ∙ rw (updated, e) refl

  -- For a scope whose instrument is known and not GraphQL, the codes of a database request name the
  -- user of the connection under `jdbc.product.user`, whether or not the configuration asks to keep
  -- back the login, unless an attribute of the span has that key itself.
  pub instrument_codes-user :
      (send_user : Bool) (instrument : String) (attributes : AttributeMap) (d : LayerDetail)
      (u : Attribute)
      → (instrument == "Graphql") ≡ false
      → get attributes keys.db_user_key ≡ some u
      → get attributes user_code ≡ none
      → (coded : LayerDetail) × (instrument_codes ext keys send_user (some instrument) attributes d
          ≡ ok (coded, false))
        × (value_of user_code coded.ext_codes ≡ some u.as_string)
  unfolding instrument_codes
  instrument_codes-user send_user instrument attributes d u i e n = (
    database_codes ext keys send_user attributes d,
    rw i refl,
    database_codes-user send_user attributes d u e n,
  )

  -- The other attributes of a connection string.
  abbrev pub string_keys : List String
  string_keys =
      keys.db_connection_string_key ∷ keys.db_mongodb_collection_key ∷ keys.db_system_key
      ∷ keys.db_name_key ∷ keys.net_peer_name_key ∷ keys.net_peer_port_key ∷ []

  -- Without `sendUserConnectionString` the connection string is the same for every user: two spans
  -- that agree on the other attributes of the string have the same one.
  pub connection_url-same :
      (m n : AttributeMap)
      → All (λ k. get m k ≡ get n k) string_keys
      → connection_url ext keys false m ≡ connection_url ext keys false n
  unfolding connection_url
  connection_url-same m n (string, (mongo, (system, (name, (host, (port, _)))))) =
      elim (Option-cases (get m keys.db_connection_string_key)) [
        | inr (v, e) ↦ rw (connection_url, e, sym string ∙ e) refl
        | inl e ↦ elim (Option-cases (get m keys.db_mongodb_collection_key)) [
          | inr (c, f) ↦
              rw (connection_url, e, sym string ∙ e, f, sym mongo ∙ f, system, host, port) refl
          | inl f ↦ elim (Option-cases (get m keys.db_system_key)) [
            | inr (v, g) ↦
                rw
                  (
                    connection_url,
                    e,
                    sym string ∙ e,
                    f,
                    sym mongo ∙ f,
                    g,
                    sym system ∙ g,
                    name,
                    host,
                    port,
                    system,
                  )
                  refl
            | inl g ↦
                rw (connection_url, e, sym string ∙ e, f, sym mongo ∙ f, g, sym system ∙ g) refl
          ]
        ]
      ]
