-- ===== src/Tokens/Issued.antt =====
-- server/src/types.rs: how a token is printed, and the tokens that are made without reading one. A panic is
-- `none`.
use Prim.Native.Char.{code}
use Prim.Native.String.{◌++◌ as append_text}
use unleash_edge.Prelude.{
  ◌+◌, String, Option, none, some, List, [], ◌∷◌, ◌=ℕ◌, if◌then◌else◌, unwrap_or,
}
use unleash_edge.Error.{ok, err}
use unleash_edge.Types.{EdgeToken, TokenType, TokenValidationStatus, Millis}
use unleash_edge.Tokens.{from_str}

-- `take_while(|p| p != &'.')`
unfoldable pub before_dot : String → String
before_dot String.[] = String.[]
before_dot (String.◌∷◌ c s) =
    let rest = before_dot s in if code c =ℕ b'.' then String.[] else String.◌∷◌ c rest

-- the fields that `Debug for EdgeToken` prints
unfoldable pub debug_fields : EdgeToken → EdgeToken
debug_fields self = record self { token = append_text (before_dot self.token) ".[redacted]" }

pub record ClientTokenResponse : Type 0 where
  pub secret : String
  pub token_name : String
  pub token_type : Option TokenType
  pub environment : Option String
  pub project : Option String
  pub projects : List String
  pub expires_at : Option Millis
  pub created_at : Option Millis
  pub seen_at : Option Millis
  pub alias : Option String

-- `From<ClientTokenResponse> for EdgeToken`
unfoldable pub from_response : ClientTokenResponse → EdgeToken
from_response value = record {
  token = value.secret;
  token_type = value.token_type;
  environment = value.environment;
  projects = value.projects;
  status = TokenValidationStatus.validated;
}

pub record ClientTokenRequest : Type 0 where
  pub token_name : String
  pub token_type : TokenType
  pub projects : List String
  pub environment : String
  pub expires_at : Millis

-- a token for four weeks
unfoldable pub to_client_token_request : Millis → EdgeToken → ClientTokenRequest
to_client_token_request now self = record {
  token_name = append_text "edge_data_token_" (unwrap_or self.environment "default");
  token_type = TokenType.client;
  projects = self.projects;
  environment = unwrap_or self.environment "default";
  expires_at = now + 2419200000;
}

unfoldable pub admin_token : String → EdgeToken
admin_token secret = record {
  token = append_text "*:*." secret;
  token_type = some TokenType.admin;
  environment = none;
  projects = "*" ∷ [];
  status = TokenValidationStatus.validated;
}

unfoldable pub validated_client_token : String → Option EdgeToken
validated_client_token token = elim (from_str token) [
  | ok t ↦
      some
        (record t { status = TokenValidationStatus.validated; token_type = some TokenType.client })
  | err _ ↦ none
]
