-- ===== src/Nudge/Semantics.antt =====
-- The table SemanticAttributesX of distributions/pdata/SemanticAttributesNEW.go.
use opentelemetry_collector.Prelude.{String, List, [], ◌∷◌, ◌==◌, if◌then◌else◌, ◌≡◌, refl, false}

-- A Go map of texts: a missing key has the empty text.
abbrev pub index : List (String × String) → String → String
index [] key = ""
index ((k, v) ∷ m) key = if k == key then v else index m key

abbrev pub semantic_attributes : List (String × String)
semantic_attributes =
    ("HTTP_HOST_IP", "http.host.ip")
    ∷ ("NET_HOST", "net.host")
    ∷ ("NET_PEER", "net.peer")
    ∷ ("HTTP_ERROR_NAME", "http.error_name")
    ∷ ("HTTP_ERROR_MESSAGE", "http.error_message")
    ∷ ("HTTP_STATUS_TEXT", "http.status_text")
    ∷ ("HTTP_STACKTRACE", "http.stacktrace")
    ∷ ("LAYER_TYPE_SQL", "SQL")
    ∷ ("LAYER_TYPE_HTTP", "HTTP")
    ∷ ("HTTP_RESPONSE_CONTENT_TYPE", "http.response.header.content_type")
    ∷ ("HTTP_REQUEST_USER_AGENT", "http.request.header.user_agent")
    ∷ ("HTTP_RESPONSE_USER_AGENT", "http.user_agent")
    ∷ ("HTTP_EXECUTION_CLIENT", "http.execution_client")
    ∷ ("HTTP_REQUEST_X_FORWARDED_FOR", "http.request.header.x_forwarded_for")
    ∷ ("HTTP_RESPONSE_X_POWERED_BY", "http.response.header.x_powered_by")
    ∷ ("UUID", "UUID")
    ∷ ("EXPRESS_TYPE", "express.type")
    ∷ ("EXPRESS_NAME", "express.name")
    ∷ []

-- SemanticAttributesX[name]
unfoldable pub semantic_attributes_x : String → String
semantic_attributes_x name = index semantic_attributes name

-- The table has no HTTP_STATUS_CODE, which the exporter looks up.
pub semantic_attributes_x-status_code : semantic_attributes_x "HTTP_STATUS_CODE" ≡ ""
unfolding semantic_attributes_x
semantic_attributes_x-status_code = refl

-- The key of the trace's name is not that of the application.
pub semantic_attributes_x-uuid : (semantic_attributes_x "UUID" == "nudge_application_id") ≡ false
unfolding semantic_attributes_x
semantic_attributes_x-uuid = refl

-- The key of the trace's name is not empty.
pub semantic_attributes_x-named : (semantic_attributes_x "UUID" == "") ≡ false
unfolding semantic_attributes_x
semantic_attributes_x-named = refl
