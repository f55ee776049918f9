-- ===== src/Error/Responses.antt =====
-- server/src/error.rs: the texts of the errors and the answers to a request that fails. What other
-- crates print is a parameter.
use Prim.Native.String.{◌++◌ as append_text}
use unleash_edge.Prelude.{String, Option}
use unleash_edge.Error.{
  StatusCode, FeatureError, FrontendHydrationMissing, CertificateError, UnleashBadRequest,
  EdgeError, status_code,
}

-- Display of a status, its code as text, and Debug of the values that an error holds
pub record Printers : Type 0 where
  pub status : StatusCode → String
  pub code : StatusCode → String
  pub quoted : String → String
  pub certificate : CertificateError → String
  pub bad_request : Option UnleashBadRequest → String
  pub hydration : FrontendHydrationMissing → String

-- The JSON of an answer: its members.
pub data Body : Type 0 where
  explanation_access : String → FrontendHydrationMissing → Body
  explanation : String → Body
  explanation_status : String → String → Body
  error_not_ready : String → Body
  error_text : String → Body

module _ (p : Printers) where
  -- `Display` of the errors of a fetch
  unfoldable pub fetch_text : FeatureError → String
  fetch_text (FeatureError.retriable code) =
      append_text "Could not fetch client features. Will retry " (p.status code)
  fetch_text FeatureError.access_denied =
      "Could not fetch client features because api key was not allowed"
  fetch_text FeatureError.not_found = "Could not fetch features because upstream url was not found"

  -- `Display for EdgeError`
  unfoldable pub to_text : EdgeError → String
  unfolding fetch_text
  to_text (EdgeError.invalid_backup_file path why_invalid) =
      append_text "file at path: "
        (append_text path (append_text " was invalid due to " why_invalid))
  to_text EdgeError.tls_error = "Could not configure TLS"
  to_text EdgeError.no_features_file = "No features file located"
  to_text EdgeError.authorization_denied = "Not allowed to access"
  to_text EdgeError.no_token_provider = "Could not get a TokenProvider"
  to_text (EdgeError.no_tokens msg) = msg
  to_text (EdgeError.token_parse_error token) = append_text "Could not parse edge token: " token
  to_text (EdgeError.persistence_error msg) = msg
  to_text (EdgeError.json_parse_error msg) = msg
  to_text (EdgeError.client_features_fetch_error fe) = fetch_text fe
  to_text (EdgeError.feature_not_found name) = append_text "Failed to find feature with name " name
  to_text (EdgeError.client_features_parse_error cause) =
      append_text "Failed to parse client features: [" (append_text cause "]")
  to_text EdgeError.client_register_error = "Failed to register client"
  to_text (EdgeError.client_certificate_error cert_error) =
      append_text "Failed to build cert " (p.certificate cert_error)
  to_text (EdgeError.client_build_error e) = append_text "Failed to build client " (p.quoted e)
  to_text (EdgeError.invalid_server_url msg) =
      append_text "Failed to parse server url: [" (append_text msg "]")
  to_text EdgeError.edge_token_error = "Edge token error"
  to_text EdgeError.edge_token_parse_error = "Failed to parse token response"
  to_text (EdgeError.edge_metrics_request_error code message) =
      append_text "Failed to post metrics with status code: "
        (append_text (p.status code) (append_text " and response " (p.bad_request message)))
  to_text EdgeError.authorization_pending = "No validation for token has happened yet"
  to_text EdgeError.edge_metrics_error = "Edge metrics error"
  to_text (EdgeError.frontend_not_yet_hydrated hydration_info) =
      append_text "Edge not yet hydrated for " (p.hydration hydration_info)
  to_text EdgeError.context_parse_error = "Failed to parse query parameters to frontend api"
  to_text (EdgeError.health_check_error message) = message
  to_text (EdgeError.ready_check_error message) = message
  to_text (EdgeError.token_validation_error code) =
      append_text "Received status code "
        (append_text (p.status code) " when trying to validate token against upstream server")
  to_text (EdgeError.client_hydration_failed message) =
      append_text "Client hydration failed. Somehow we said [" (append_text message "] when it did")
  to_text EdgeError.client_cache_error = "Fetching client features from cache failed"
  to_text (EdgeError.frontend_expected_to_be_hydrated message) = message
  to_text EdgeError.not_ready = "Edge is not ready to serve requests"
  to_text EdgeError.invalid_token_with_strict_behavior =
      "Edge is running with strict behavior and the token is not subsumed by any registered tokens"
  to_text (EdgeError.sse_error message) = message
  to_text (EdgeError.forbidden reason) = reason

  -- `error_response`: the status and the JSON
  unfoldable pub error_response : EdgeError → StatusCode × Body
  error_response (EdgeError.frontend_not_yet_hydrated hydration_info) = (
    status_code (EdgeError.frontend_not_yet_hydrated hydration_info),
    Body.explanation_access
        "Edge does not yet have data for this token. Please make a call against /api/client/features with a client token that has the same access as your token"
        hydration_info,
  )
  error_response (EdgeError.token_parse_error token) = (
    status_code (EdgeError.token_parse_error token),
    Body.explanation (append_text "Edge could not parse token: " token),
  )
  error_response (EdgeError.token_validation_error code) = (
    status_code (EdgeError.token_validation_error code),
    Body.explanation_status "Received a non 200 status code when trying to validate token upstream"
        (p.code code),
  )
  error_response EdgeError.not_ready =
      (status_code EdgeError.not_ready, Body.error_not_ready "Edge is not ready to serve requests")
  error_response other = (status_code other, Body.error_text (to_text other))
