-- ===== src/Middleware.antt =====
-- server/src/middleware: who is let through, with which address, and for which token a client token is asked.
pub mod Admission
use unleash_edge.Prelude.{
  String, Bool, true, false, ◌||◌, Option, none, some, string_eq, if◌then◌else◌,
}
use unleash_edge.Text.{contains_text}
use unleash_edge.Dict
use unleash_edge.Dict.{Dict}
use unleash_edge.Error.{EdgeError, Result, ok, err}
use unleash_edge.Types.{EdgeToken, TokenType, TokenValidationStatus}
use unleash_edge.TokenValidator.{status_is}
use unleash_edge.Features.{UnleashTypes, Engine}
use unleash_edge.Refresher.State.{Refresher, create_client_token_for_fe_token}

-- What `validate_token` does with a request: pass it on, or answer it with a status or an error.
pub data Decision : Type 0 where
  call forbidden unauthorized : Decision
  failed : EdgeError → Decision

abbrev pub is_frontend_path : String → Bool
is_frontend_path path = contains_text "/api/frontend" path || contains_text "/api/proxy" path

abbrev pub is_client_path : String → Bool
is_client_path path = contains_text "/api/client" path

-- the match on the type of a validated token
unfoldable pub admit_type : String → Option TokenType → Decision
admit_type path (some TokenType.frontend) =
    if is_frontend_path path then Decision.call else Decision.forbidden
admit_type path (some TokenType.client) =
    if is_client_path path then Decision.call else Decision.forbidden
admit_type path _ = Decision.forbidden

-- the match on the status of the registered token
unfoldable pub admit_known : String → EdgeToken → Decision
admit_known path known_token = elim known_token.status [
  | TokenValidationStatus.validated ↦ admit_type path known_token.token_type
  | TokenValidationStatus.unknown ↦ Decision.unauthorized
  | TokenValidationStatus.invalid ↦ Decision.forbidden
]

-- the branch without a validator, on the type of a cached token
unfoldable pub admit_cached : String → Option TokenType → Decision
admit_cached path none = Decision.call
admit_cached path (some x) = admit_type path (some x)

-- `validate_token`: with a validator `registered` is what `register_token` returned
unfoldable pub validate_token :
    Option (Result EdgeToken) → Dict String EdgeToken → EdgeToken → String → Decision
validate_token (some (ok known_token)) token_cache token path = admit_known path known_token
validate_token (some (err x)) token_cache token path = Decision.failed x
validate_token none token_cache token path = elim (Dict.get token.token token_cache) [
  | some t ↦ admit_cached path t.token_type
  | none ↦ Decision.forbidden
]

-- `enrich_with_client_ip`; `trust_proxy` is the configuration, if there is one
unfoldable pub client_ip :
    {Ip : Type 0} → (String → Option Ip) → Option Bool → Option String → Option Ip → Option Ip
client_ip parse (some true) realip_remote_addr peer_addr = elim realip_remote_addr [
  | none ↦ none
  | some r ↦ parse r
]
client_ip parse (some false) realip_remote_addr peer_addr = peer_addr
client_ip parse none realip_remote_addr peer_addr = peer_addr

-- `client_token_from_frontend_token`: the token whose client token is asked for, if any; the request is
-- passed on in any case
unfoldable pub client_token_from_frontend_token :
    Option (Dict String EdgeToken) → EdgeToken → Option EdgeToken
client_token_from_frontend_token none token = none
client_token_from_frontend_token (some token_cache) token =
    elim (Dict.get token.token token_cache) [
      | none ↦ none
      | some fe_token ↦
          if status_is fe_token.status TokenValidationStatus.validated then some fe_token else none
    ]
