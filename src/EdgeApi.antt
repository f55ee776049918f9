-- ===== src/EdgeApi.antt =====
-- server/src/edge_api.rs: the endpoint with which another Edge validates its tokens.
pub mod Validated
use unleash_edge.Prelude.{String, Bool, Option, none, some, List, string_eq, filter, filter_map}
use unleash_edge.Dict
use unleash_edge.Dict.{Dict}
use unleash_edge.Error.{Result, ok, err, ◌>>=◌}
use unleash_edge.Types.{EdgeToken, TokenValidationStatus}
use unleash_edge.TokenValidator.{TokenValidator, register_tokens, status_is}

abbrev pub is_validated : EdgeToken → Bool
is_validated t = status_is t.status TokenValidationStatus.validated

-- `validate` with a validator
unfoldable pub validate :
    (List EdgeToken → List EdgeToken → List EdgeToken)
    → (List String → Result (List EdgeToken))
    → List String
    → TokenValidator
    → TokenValidator × Result (List EdgeToken)
validate upsert upstream tokens v =
    let (after, known_tokens) = register_tokens upsert upstream tokens v in
    (after, known_tokens >>= (λ l. ok (filter is_validated l)))

-- `validate` without a validator
unfoldable pub validate_cached : Dict String EdgeToken → List String → List EdgeToken
validate_cached token_cache tokens_to_check =
    filter_map (λ t. Dict.get t token_cache) tokens_to_check
