-- ===== src/UnleashClient.antt =====
-- server/src/http/unleash_client.rs: what the client makes of upstream's answers.
-- What the HTTP library returns is an argument; `none` as a result is a panic.
pub mod Answers
pub mod Requests
pub mod Sent
pub mod Connecting
use mathlib.Core.Option
use unleash_edge.Prelude.{
  ℕ, ◌≡◌, refl, String, Bool, true, false, ◌&&◌, Option, none, some, List, [], ◌∷◌, map, ltb, leb,
  ◌=ℕ◌, if◌then◌else◌, or_option, ◌⊎◌, inl, inr,
}
use unleash_edge.Error.{
  StatusCode, EdgeError, FeatureError, UnleashBadRequest, Result, ok, err, or_else, ◌>>=◌,
}
use unleash_edge.Types.{EdgeToken, EntityTag, TokenValidationStatus}
use unleash_edge.Tokens.{from_str}

-- A header's value: a visible ASCII text, or bytes on which `to_str` fails.
pub data HeaderValue : Type 0 where
  text : String → HeaderValue
  opaque : HeaderValue

-- The end of a request: it was not sent, with the status of the failure, if any, or it has a response,
-- with its status, its ETag and its body, which `json` reads or rejects with a message.
pub data Outcome (B : Type 0) : Type 0 where
  not_sent : Option StatusCode → Outcome B
  response : StatusCode → Option HeaderValue → B ⊎ String → Outcome B

-- `StatusCode::is_success`
abbrev pub is_success : StatusCode → Bool
is_success s = leb 200 s && ltb s 300

pub record ClientFeaturesRequest : Type 0 where
  pub api_key : String
  pub etag : Option EntityTag

-- `ClientFeaturesResponse` and `ClientFeaturesDeltaResponse`
pub data FeaturesResponse (B : Type 0) : Type 0 where
  no_update : EntityTag → FeaturesResponse B
  updated : B → Option EntityTag → FeaturesResponse B

pub record ValidateTokensRequest : Type 0 where
  pub tokens : List String

-- `get("ETag").and_then(|etag| EntityTag::from_str(etag.to_str().unwrap()).ok())`
read_etag : (String → Option EntityTag) → Option HeaderValue → Option (Option EntityTag)
read_etag parse none = some none
read_etag parse (some HeaderValue.opaque) = none
read_etag parse (some (HeaderValue.text t)) = some (parse t)

read_body : {B : Type 0} → Option EntityTag → B ⊎ String → Result (FeaturesResponse B)
read_body etag (inl features) = ok (FeaturesResponse.updated features etag)
read_body etag (inr message) = err (EdgeError.client_features_parse_error message)

module _ {B : Type 0} (parse_etag : String → Option EntityTag) where
  -- the statuses that are no success, in the order of the tests
  refused : StatusCode → Result (FeaturesResponse B)
  refused status = err (
      EdgeError.client_features_fetch_error (
        if status =ℕ 403
        then FeatureError.access_denied
        else if status =ℕ 401
        then FeatureError.access_denied
        else if status =ℕ 404
        then FeatureError.not_found
        else FeatureError.retriable status))

  -- the body of `get_client_features` and of `get_client_features_delta`, from the outcome of the request
  unfoldable pub get_features :
      ClientFeaturesRequest → Outcome B → Option (Result (FeaturesResponse B))
  unfolding refused read_etag read_body
  get_features request (Outcome.not_sent (some s)) =
      some (err (EdgeError.client_features_fetch_error (FeatureError.retriable s)))
  get_features request (Outcome.not_sent none) =
      some (err (EdgeError.client_features_fetch_error FeatureError.not_found))
  get_features request (Outcome.response status etag_header body) =
      if status =ℕ 304
      then Option.map (λ tag. ok (FeaturesResponse.no_update tag)) request.etag
      else if is_success status
      then Option.map (λ etag. read_body etag body) (read_etag parse_etag etag_header)
      else some (refused status)

-- the common end of `send_batch_metrics` and `send_bulk_metrics_to_client_endpoint`
unfoldable pub send_metrics : Outcome UnleashBadRequest → Result (Unit {0})
send_metrics (Outcome.not_sent _) = err EdgeError.edge_metrics_error
send_metrics (Outcome.response status _ body) =
    if is_success status
    then ok tt
    else if status =ℕ 400
    then err
        (EdgeError.edge_metrics_request_error status (elim body [ inl b ↦ some b | inr _ ↦ none ]))
    else err (EdgeError.edge_metrics_request_error status none)

-- `register_as_client`: a status that is no success is only logged and counted
unfoldable pub register_as_client : Outcome (Unit {0}) → Result (Unit {0})
register_as_client (Outcome.not_sent _) = err EdgeError.client_register_error
register_as_client (Outcome.response _ _ _) = ok tt

-- the closure of `validate_tokens` over the tokens of the answer
unfoldable pub complete_token : EdgeToken → EdgeToken
complete_token t =
    let remaining_info = or_else (from_str t.token) t in
    record t {
      environment = or_option t.environment remaining_info.environment;
      status = TokenValidationStatus.validated;
    }

unfoldable pub validate_tokens : Outcome (List EdgeToken) → Result (List EdgeToken)
validate_tokens (Outcome.not_sent _) = err EdgeError.edge_token_error
validate_tokens (Outcome.response status _ body) =
    if status =ℕ 200
    then elim body [
      | inl tokens ↦ ok (map complete_token tokens)
      | inr _ ↦ err EdgeError.edge_token_parse_error
    ]
    else err (EdgeError.token_validation_error status)
