-- ===== src/Middleware/Admission.antt =====
-- Who is let through.
use unleash_edge.Prelude.{
  ◌≡◌, ◌↔◌, ◌⊎◌, refl, String, Bool, true, false, Option, none, some, string_eq, arith,
  if◌then◌else◌, Option-cases, inl, inr,
}
use unleash_edge.Dict
use unleash_edge.Dict.{Dict}
use unleash_edge.Error.{ok}
use unleash_edge.Types.{EdgeToken, TokenType, TokenValidationStatus}
use unleash_edge.Middleware.{
  Decision, is_frontend_path, is_client_path, admit_type, admit_known, admit_cached, validate_token,
}

-- A type of token that may call a path.
abbrev pub IsAllowed : Option TokenType → String → Type 0
IsAllowed type path =
    ((type ≡ some TokenType.frontend) × (is_frontend_path path ≡ true))
    ⊎ ((type ≡ some TokenType.client) × (is_client_path path ≡ true))

if_call : (b : Bool) → (if b then Decision.call else Decision.forbidden) ≡ Decision.call → b ≡ true
if_call true h = refl
if_call false h = ground arith

type_sound :
    (path : String) (type : Option TokenType)
    → admit_type path type ≡ Decision.call
    → IsAllowed type path
unfolding admit_type
type_sound path none h = ground arith
type_sound path (some TokenType.frontend) h = inl (refl, if_call _ h)
type_sound path (some TokenType.client) h = inr (refl, if_call _ h)
type_sound path (some TokenType.admin) h = ground arith
type_sound path (some TokenType.invalid) h = ground arith

type_complete :
    (path : String) (type : Option TokenType)
    → IsAllowed type path
    → admit_type path type ≡ Decision.call
unfolding admit_type
type_complete path type (inl (frontend, reached)) = rw (frontend, reached) refl
type_complete path type (inr (client, reached)) = rw (client, reached) refl

status_sound :
    (path : String) (status : TokenValidationStatus) (type : Option TokenType)
    → elim status [
      | TokenValidationStatus.validated ↦ admit_type path type
      | TokenValidationStatus.unknown ↦ Decision.unauthorized
      | TokenValidationStatus.invalid ↦ Decision.forbidden
    ]
      ≡ Decision.call
    → (status ≡ TokenValidationStatus.validated) × IsAllowed type path
status_sound path TokenValidationStatus.validated type h = (refl, type_sound path type h)
status_sound path TokenValidationStatus.unknown type h = ground arith
status_sound path TokenValidationStatus.invalid type h = ground arith

cached_sound :
    (path : String) (type : Option TokenType)
    → admit_cached path type ≡ Decision.call
    → (type ≡ none) ⊎ IsAllowed type path
unfolding admit_cached
cached_sound path none h = inl refl
cached_sound path (some x) h = inr (type_sound path (some x) h)

cached_complete :
    (path : String) (type : Option TokenType)
    → (type ≡ none) ⊎ IsAllowed type path
    → admit_cached path type ≡ Decision.call
unfolding admit_cached
cached_complete path none h = refl
cached_complete path (some x) (inl e) = absurd (ground arith)
cached_complete path (some x) (inr allowed) = type_complete path (some x) allowed

-- With a validator, a request is passed on exactly if the registered token is validated, and is a
-- frontend token on a frontend or proxy path, or a client token on a client path.
pub known_admitted_iff :
    (known_token token : EdgeToken) (token_cache : Dict String EdgeToken) (path : String)
    → (validate_token (some (ok known_token)) token_cache token path ≡ Decision.call) ↔ (
        (known_token.status ≡ TokenValidationStatus.validated)
        × IsAllowed known_token.token_type path)
unfolding validate_token admit_known
known_admitted_iff known_token token token_cache path = (
  λ h. status_sound path known_token.status known_token.token_type h,
  λ (valid, allowed). rw valid (type_complete path known_token.token_type allowed),
)

-- Without a validator, a request is passed on exactly if its token is in the cache of tokens, and that
-- one has no type, or is a frontend token on a frontend or proxy path, or a client token on a client
-- path.
pub cached_admitted_iff :
    (token : EdgeToken) (token_cache : Dict String EdgeToken) (path : String)
    → (validate_token none token_cache token path ≡ Decision.call) ↔ (
        (t : EdgeToken) × (Dict.get token.token token_cache ≡ some t)
        × ((t.token_type ≡ none) ⊎ IsAllowed t.token_type path))
unfolding validate_token
cached_admitted_iff token token_cache path = (
  λ h. elim (Option-cases (Dict.get token.token token_cache)) [
    | inl miss ↦ absurd (ground (arith, rw (miss, validate_token) at h))
    | inr (t, hit) ↦ (t, hit, cached_sound path t.token_type (rw (hit, validate_token) at h))
  ],
  λ (t, hit, allowed). rw (hit, validate_token) (cached_complete path t.token_type allowed),
)
