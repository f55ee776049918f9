-- ===== src/TokenValidator.antt =====
-- server/src/auth/token_validator.rs: which tokens are known, and what upstream says of the others.
-- Upstream's answer is an argument; `Upsert` of unleash_types is a parameter.
pub mod Register
pub mod Panics
pub mod Revalidate
use unleash_edge.Prelude.{
  ℕ, ◌≡◌, refl, String, Bool, true, false, not, Option, none, some, List, [], ◌∷◌, map, Memᴰ,
  string_eq, ◌==◌, is_none, is_empty, any, find, filter, filter_map, unwrap_or, if◌then◌else◌, ◌⊎◌,
}
use unleash_edge.Dict
use unleash_edge.Dict.{Dict}
use unleash_edge.Error.{EdgeError, Result, ok, err}
use unleash_edge.Types.{EdgeToken, TokenType, TokenValidationStatus}
use unleash_edge.Tokens.{from_str}

-- `TokenValidator`; `saved` is what was handed to the persistence, latest first, if there is one.
pub record TokenValidator : Type 0 where
  pub token_cache : Dict String EdgeToken
  pub persistence : Bool
  pub saved : List (List EdgeToken)

abbrev pub status_is : TokenValidationStatus → TokenValidationStatus → Bool
status_is TokenValidationStatus.invalid TokenValidationStatus.invalid = true
status_is TokenValidationStatus.unknown TokenValidationStatus.unknown = true
status_is TokenValidationStatus.validated TokenValidationStatus.validated = true
status_is _ _ = false

unfoldable pub parse : String → Option EdgeToken
parse t = elim (from_str t) [ ok token ↦ some token | err _ ↦ none ]

-- the token of the cache, else the one that was read
owned_token : Dict String EdgeToken → EdgeToken → EdgeToken
owned_token cache token = unwrap_or (Dict.get token.token cache) token

unfoldable pub get_unknown_and_known_tokens :
    Dict String EdgeToken → List String → List EdgeToken × List EdgeToken
unfolding parse owned_token
get_unknown_and_known_tokens cache tokens =
    let owned = map (owned_token cache) (filter_map parse tokens) in
    (filter (λ t. is_none t.token_type) owned, filter (λ t. not (is_none t.token_type)) owned)

-- the closure that makes `tokens_to_sink`, from what upstream returned
unfoldable pub sink_token : List EdgeToken → EdgeToken → EdgeToken
sink_token validation_result maybe_valid =
    elim (find (λ v. maybe_valid.token == v.token) validation_result) [
      | some validated_token ↦ record validated_token { status = TokenValidationStatus.validated }
      | none ↦ record maybe_valid {
        status = TokenValidationStatus.invalid;
        token_type = some TokenType.invalid;
      }
    ]

unfoldable pub insert_tokens : List EdgeToken → Dict String EdgeToken → Dict String EdgeToken
insert_tokens [] cache = cache
insert_tokens (t ∷ ts) cache = insert_tokens ts (Dict.insert t.token t cache)

-- the rest of `register_tokens` once upstream has answered
unfoldable pub sink_tokens :
    (List EdgeToken → List EdgeToken → List EdgeToken)
    → List EdgeToken
    → List EdgeToken
    → List EdgeToken
    → TokenValidator
    → TokenValidator × Result (List EdgeToken)
sink_tokens upsert unknown_tokens known_tokens validation_result v =
    let tokens_to_sink = map (sink_token validation_result) unknown_tokens in
    let updated_tokens = upsert tokens_to_sink known_tokens in
    let v' = record v { token_cache = insert_tokens tokens_to_sink v.token_cache } in
    (
      if v.persistence then record v' { saved = updated_tokens ∷ v.saved } else v',
      ok updated_tokens,
    )

-- the body of `register_tokens` after the partition; `validate` is upstream's answer to a list of secrets
unfoldable pub register_unknown :
    (List EdgeToken → List EdgeToken → List EdgeToken)
    → (List String → Result (List EdgeToken))
    → List EdgeToken
    → List EdgeToken
    → TokenValidator
    → TokenValidator × Result (List EdgeToken)
unfolding sink_tokens
register_unknown upsert validate [] known_tokens v = (v, ok known_tokens)
register_unknown upsert validate (t ∷ ts) known_tokens v =
    elim (validate (map (λ u. u.token) (t ∷ ts))) [
      | ok validation_result ↦ sink_tokens upsert (t ∷ ts) known_tokens validation_result v
      | err e ↦ (v, err e)
    ]

unfoldable pub register_tokens :
    (List EdgeToken → List EdgeToken → List EdgeToken)
    → (List String → Result (List EdgeToken))
    → List String
    → TokenValidator
    → TokenValidator × Result (List EdgeToken)
unfolding register_unknown
register_tokens upsert validate tokens v =
    let (unknown_tokens, known_tokens) = get_unknown_and_known_tokens v.token_cache tokens in
    register_unknown upsert validate unknown_tokens known_tokens v

-- what `register_token` makes of the list; `none` is a panic
unfoldable pub first_token : Result (List EdgeToken) → Option (Result EdgeToken)
first_token (err e) = some (err e)
first_token (ok []) = none
first_token (ok (t ∷ _)) = some (ok t)

unfoldable pub register_token :
    (List EdgeToken → List EdgeToken → List EdgeToken)
    → (List String → Result (List EdgeToken))
    → String
    → TokenValidator
    → TokenValidator × Option (Result EdgeToken)
register_token upsert validate token v =
    let (v', r) = register_tokens upsert validate (token ∷ []) v in (v', first_token r)

unfoldable pub invalidate : List String → Dict String EdgeToken → Dict String EdgeToken
invalidate [] cache = cache
invalidate (token ∷ rest) cache =
    invalidate rest
      (Dict.alter token (λ t. record t { status = TokenValidationStatus.invalid }) cache)

-- the secrets that `revalidate_known_tokens` asks upstream about
unfoldable pub tokens_to_validate : Dict String EdgeToken → List String
tokens_to_validate cache =
    map (λ e. e.0) (filter (λ e. status_is e.1.status TokenValidationStatus.validated) cache)

unfoldable pub revalidate_known_tokens :
    (List String → Result (List EdgeToken)) → TokenValidator → TokenValidator
revalidate_known_tokens validate v =
    let asked = tokens_to_validate v.token_cache in
    if is_empty asked then v else elim (validate asked) [
      | ok valid_tokens ↦ record v {
        token_cache =
            invalidate (filter (λ t. not (any (λ e. e.token == t) valid_tokens)) asked)
              v.token_cache;
      }
      | err _ ↦ v
    ]
