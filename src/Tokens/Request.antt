-- ===== src/Tokens/Request.antt =====
-- server/src/tokens.rs: the token of a request. `header` finds a header by its name, whatever its case; a
-- panic is `none`.
use unleash_edge.Prelude.{◌≡◌, refl, String, Option, none, some, arith, unwrap_or, subst}
use unleash_edge.Text.{trim}
use unleash_edge.Error.{EdgeError, Result, ok, err, ◌>>=◌}
use unleash_edge.Types.{EdgeToken, TokenValidationStatus}
use unleash_edge.UnleashClient.{HeaderValue}
use unleash_edge.Tokens.{from_str, offline_token, no_project_or_environment}
use unleash_edge.Tokens.Parsing.{from_trimmed_str_sound}

-- cli.rs
pub data EdgeMode : Type 0 where
  edge offline health ready : EdgeMode

-- `HeaderValue::to_str`
abbrev to_str : HeaderValue → Result String
to_str (HeaderValue.text t) = ok t
to_str HeaderValue.opaque = err EdgeError.authorization_denied

-- `TryFrom<HeaderValue> for EdgeToken`
unfoldable pub try_from : HeaderValue → Result EdgeToken
try_from value = to_str value >>= from_str

abbrev pub online_key : Option HeaderValue → Result EdgeToken
online_key none = err EdgeError.authorization_denied
online_key (some v) = try_from v

abbrev pub offline_key : Option HeaderValue → Result EdgeToken
offline_key none = err EdgeError.authorization_denied
offline_key (some v) = to_str v >>= (λ value. ok (offline_token value))

abbrev pub header_name : Option String → String
header_name token_header = unwrap_or token_header "Authorization"

unfoldable pub from_request :
    (String → Option HeaderValue) → Option String → Option EdgeMode → Option (Result EdgeToken)
from_request header token_header none = some (online_key (header (header_name token_header)))
from_request header token_header (some EdgeMode.edge) =
    some (online_key (header (header_name token_header)))
from_request header token_header (some EdgeMode.offline) =
    some (offline_key (header (header_name token_header)))
from_request header token_header (some EdgeMode.health) = none
from_request header token_header (some EdgeMode.ready) = none

-- A header that was read, and what the token of a request then is.
abbrev pub Read : (String → Option HeaderValue) → Option String → (String → Type 0) → Type 0
Read header token_header P =
    (t : String) × (header (header_name token_header) ≡ some (HeaderValue.text t)) × P t

parsed :
    (t : String) (token : EdgeToken)
    → from_str t ≡ ok token
    → (token.token ≡ trim t) × (token.status ≡ TokenValidationStatus.unknown)
unfolding from_str
parsed t token h =
    let (_, _, secret, _, status, _, _) = from_trimmed_str_sound (trim t) token h in
    (secret, status)

offline_secret :
    (t : String)
    → ((x : EdgeError) → from_str t ≡ err x → (offline_token t).token ≡ t)
      × ((p : EdgeToken) → from_str t ≡ ok p → (offline_token t).token ≡ trim t)
unfolding offline_token no_project_or_environment
offline_secret t = (λ x e. rw e refl, λ p e. rw e (parsed t p e).0)

-- What a token of a request with an upstream is, and one of a request in offline mode.
abbrev pub IsOnline : EdgeToken → String → Type 0
IsOnline token t = (token.token ≡ trim t) × (token.status ≡ TokenValidationStatus.unknown)

abbrev pub IsOffline : EdgeToken → String → Type 0
IsOffline token t =
    (token.status ≡ TokenValidationStatus.validated)
    × ((x : EdgeError) → from_str t ≡ err x → token.token ≡ t)
    × ((p : EdgeToken) → from_str t ≡ ok p → token.token ≡ trim t)

-- What the token of a request is in each mode; health and ready are commands that serve no requests.
abbrev pub TokenIn :
    (String → Option HeaderValue) → Option String → Option EdgeMode → EdgeToken → Type 0
TokenIn header token_header none token = Read header token_header (IsOnline token)
TokenIn header token_header (some EdgeMode.edge) token = Read header token_header (IsOnline token)
TokenIn header token_header (some EdgeMode.offline) token =
    Read header token_header (IsOffline token)
TokenIn header token_header (some EdgeMode.health) token = ⊥
TokenIn header token_header (some EdgeMode.ready) token = ⊥

online_key-IsOnline :
    (header : String → Option HeaderValue) (token_header : Option String)
    (value : Option HeaderValue) (token : EdgeToken)
    → header (header_name token_header) ≡ value
    → some (online_key value) ≡ some (ok token)
    → Read header token_header (IsOnline token)
unfolding try_from
online_key-IsOnline header token_header none token e h = absurd (ground arith)
online_key-IsOnline header token_header (some HeaderValue.opaque) token e h = absurd (ground arith)
online_key-IsOnline header token_header (some (HeaderValue.text t)) token e h =
    (t, e, parsed t token (ground (arith, h)))

offline_key-IsOffline :
    (header : String → Option HeaderValue) (token_header : Option String)
    (value : Option HeaderValue) (token : EdgeToken)
    → header (header_name token_header) ≡ value
    → some (offline_key value) ≡ some (ok token)
    → Read header token_header (IsOffline token)
unfolding offline_token
offline_key-IsOffline header token_header none token e h = absurd (ground arith)
offline_key-IsOffline header token_header (some HeaderValue.opaque) token e h =
    absurd (ground arith)
offline_key-IsOffline header token_header (some (HeaderValue.text t)) token e h =
    let same : offline_token t ≡ token = ground (arith, h) in
    (
      t,
      e,
      subst (λ (x : EdgeToken). IsOffline x t) same
          (refl, (offline_secret t).0, (offline_secret t).1),
    )

pub from_request_sound :
    (header : String → Option HeaderValue) (token_header : Option String) (mode : Option EdgeMode)
    (token : EdgeToken)
    → from_request header token_header mode ≡ some (ok token)
    → TokenIn header token_header mode token
unfolding from_request
from_request_sound header token_header none token h =
    online_key-IsOnline header token_header (header (header_name token_header)) token refl h
from_request_sound header token_header (some EdgeMode.edge) token h =
    online_key-IsOnline header token_header (header (header_name token_header)) token refl h
from_request_sound header token_header (some EdgeMode.offline) token h =
    offline_key-IsOffline header token_header (header (header_name token_header)) token refl h
from_request_sound header token_header (some EdgeMode.health) token h = ground arith
from_request_sound header token_header (some EdgeMode.ready) token h = ground arith
