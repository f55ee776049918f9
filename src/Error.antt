-- ===== src/Error.antt =====
-- server/src/error.rs: the errors of the program as values, and the status code of each.
pub mod Responses
use unleash_edge.Prelude.{arith, ◌≡◌, ◌⊎◌, inl, inr, refl, ℕ, String, Option, List}

-- `reqwest::StatusCode` and `actix_web::http::StatusCode`, by number
abbrev pub StatusCode : Type 0
StatusCode = ℕ

pub data FeatureError : Type 0 where
  access_denied not_found : FeatureError
  retriable : StatusCode → FeatureError

pub record FrontendHydrationMissing : Type 0 where
  pub project : String
  pub environment : String

pub data CertificateError : Type 0 where
  pkcs12_archive_not_found pkcs12_identity_generation pem8_client_key_not_found :
      String → CertificateError
  pem8_client_cert_not_found pem8_identity_generation : String → CertificateError
  no_certificate_files : CertificateError
  root_certificates_error : String → CertificateError

-- types.rs
pub record UnleashValidationDetail : Type 0 where
  pub path : Option String
  pub description : Option String
  pub message : Option String

pub record UnleashBadRequest : Type 0 where
  pub id : Option String
  pub name : Option String
  pub message : Option String
  pub details : Option (List UnleashValidationDetail)

pub data EdgeError : Type 0 where
  authorization_denied authorization_pending : EdgeError
  client_build_error : String → EdgeError
  client_cache_error : EdgeError
  client_certificate_error : CertificateError → EdgeError
  client_features_fetch_error : FeatureError → EdgeError
  client_features_parse_error client_hydration_failed : String → EdgeError
  client_register_error context_parse_error edge_metrics_error : EdgeError
  edge_metrics_request_error : StatusCode → Option UnleashBadRequest → EdgeError
  edge_token_error edge_token_parse_error : EdgeError
  feature_not_found forbidden frontend_expected_to_be_hydrated : String → EdgeError
  frontend_not_yet_hydrated : FrontendHydrationMissing → EdgeError
  health_check_error : String → EdgeError
  invalid_backup_file : String → String → EdgeError
  invalid_server_url : String → EdgeError
  invalid_token_with_strict_behavior : EdgeError
  json_parse_error : String → EdgeError
  no_features_file no_token_provider : EdgeError
  no_tokens : String → EdgeError
  not_ready : EdgeError
  persistence_error ready_check_error sse_error : String → EdgeError
  tls_error : EdgeError
  token_parse_error : String → EdgeError
  token_validation_error : StatusCode → EdgeError

pub data Result {ℓ} (A : Type ℓ) : Type ℓ where
  ok : A → Result A
  err : EdgeError → Result A

pub Result-cases {ℓ} :
    {A : Type ℓ} (r : Result A) → ((e : EdgeError) × (r ≡ err e)) ⊎ ((a : A) × (r ≡ ok a))
Result-cases (ok a) = inr (a, refl)
Result-cases (err e) = inl (e, refl)

-- `EdgeResult`, with `?` as the bind
infixl 5 ◌>>=◌
abbrev pub ◌>>=◌ {ℓ κ} : {A : Type ℓ} {B : Type κ} → Result A → (A → Result B) → Result B
ok a >>= f = f a
err e >>= f = err e

pub ok_inj {ℓ} : {A : Type ℓ} (a b : A) → ok a ≡ ok b → a ≡ b
ok_inj a b h = ground arith

pub bind-ok {ℓ κ} :
    {A : Type ℓ} {B : Type κ} (r : Result A) (k : A → Result B) (b : B)
    → r >>= k ≡ ok b
    → (a : A) × (r ≡ ok a) × (k a ≡ ok b)
bind-ok (ok a) k b h = (a, refl, h)
bind-ok (err e) k b h = absurd (ground arith)

-- `ok().unwrap_or_else(…)`
abbrev pub or_else {ℓ} : {A : Type ℓ} → Result A → A → A
or_else (ok a) d = a
or_else (err _) d = d

abbrev pub ok_or {ℓ} : {A : Type ℓ} → EdgeError → Option A → Result A
ok_or e Option.none = err e
ok_or e (Option.some a) = ok a

-- `ResponseError::status_code`
unfoldable pub status_code : EdgeError → StatusCode
status_code (EdgeError.invalid_backup_file _ _) = 500
status_code EdgeError.tls_error = 500
status_code EdgeError.no_features_file = 500
status_code EdgeError.authorization_denied = 403
status_code EdgeError.no_token_provider = 500
status_code (EdgeError.no_tokens _) = 500
status_code (EdgeError.token_parse_error _) = 403
status_code (EdgeError.client_build_error _) = 500
status_code (EdgeError.client_features_parse_error _) = 500
status_code (EdgeError.client_features_fetch_error _) = 500
status_code (EdgeError.invalid_server_url _) = 500
status_code (EdgeError.persistence_error _) = 500
status_code (EdgeError.json_parse_error _) = 500
status_code EdgeError.edge_token_error = 400
status_code EdgeError.edge_token_parse_error = 400
status_code (EdgeError.token_validation_error _) = 400
status_code EdgeError.authorization_pending = 401
status_code (EdgeError.feature_not_found _) = 404
status_code EdgeError.edge_metrics_error = 400
status_code EdgeError.client_register_error = 400
status_code (EdgeError.client_certificate_error _) = 500
status_code (EdgeError.frontend_not_yet_hydrated _) = 511
status_code EdgeError.context_parse_error = 400
status_code (EdgeError.edge_metrics_request_error code _) = code
status_code (EdgeError.health_check_error _) = 500
status_code (EdgeError.ready_check_error _) = 500
status_code (EdgeError.client_hydration_failed _) = 500
status_code EdgeError.client_cache_error = 500
status_code (EdgeError.frontend_expected_to_be_hydrated _) = 500
status_code EdgeError.not_ready = 503
status_code EdgeError.invalid_token_with_strict_behavior = 403
status_code (EdgeError.sse_error _) = 500
status_code (EdgeError.forbidden _) = 403
