-- ===== src/Examples/Validator.antt =====
-- The theorems on the token validator at concrete inputs.
use mathlib.Core.List.Memᴰ
use unleash_edge.Prelude.{
  take, subst, sym, ◌≡◌, refl, String, false, none, some, List, [], ◌∷◌, Memᴰ, string_eq, ◌++◌, any,
  filter, filter_map,
}
use unleash_edge.Dict
use unleash_edge.Dict.{Dict}
use unleash_edge.Error.{EdgeError, Result, ok, err}
use unleash_edge.Types.{EdgeToken, TokenValidationStatus}
use unleash_edge.Text.{trim, split, contains_char}
use unleash_edge.Tokens.{from_str, from_trimmed_str}
use unleash_edge.TokenValidator.{
  TokenValidator, register_tokens, revalidate_known_tokens, get_unknown_and_known_tokens,
}
use unleash_edge.TokenValidator.Register.{Decided, register_tokens_decides}
use unleash_edge.TokenValidator.Revalidate.{IsDistinct, revoked, revalidate_effect}
use unleash_edge.Examples.Samples.{project_token}

-- upstream knows no token
abbrev knows_none : List String → Result (List EdgeToken)
knows_none _ = ok []

abbrev unreachable : List String → Result (List EdgeToken)
unreachable _ = err EdgeError.edge_token_error

abbrev join : List EdgeToken → List EdgeToken → List EdgeToken
join a b = a ++ b

abbrev idle : TokenValidator
idle = record { token_cache = []; persistence = false; saved = [] }

abbrev fresh : EdgeToken
fresh = record {
  token = "a:dev.1";
  token_type = none;
  environment = some "dev";
  projects = "a" ∷ [];
  status = TokenValidationStatus.unknown;
}

unknown : Memᴰ fresh (get_unknown_and_known_tokens [] ("a:dev.1" ∷ [])).0
unfolding get_unknown_and_known_tokens filter_map filter from_str from_trimmed_str trim split
    contains_char take Dict.get
unknown = Memᴰ.head refl

unread : from_str "nonsense" ≡ err (EdgeError.token_parse_error "nonsense")
unfolding from_str from_trimmed_str trim contains_char
unread = refl

register_tokens_decides_example :
    (s : EdgeToken) × (Dict.get "a:dev.1"
        (register_tokens join knows_none ("a:dev.1" ∷ []) idle).0.token_cache
      ≡ some s)
    × Decided [] "a:dev.1" s
register_tokens_decides_example =
    (register_tokens_decides join knows_none ("a:dev.1" ∷ []) idle [] refl).0 fresh unknown

abbrev known : TokenValidator
known = record {
  token_cache = ("a:development.2222222", project_token) ∷ [];
  persistence = false;
  saved = [];
}

distinct : IsDistinct known.token_cache
unfolding Dict.get
distinct k t (Memᴰ.head e) = subst (λ p. Dict.get p.0 known.token_cache ≡ some p.1) (sym e) refl
distinct k t (Memᴰ.tail m) = absurd (Memᴰ.not-nil m)

revalidate_effect_example :
    Dict.get "a:development.2222222" (revalidate_known_tokens knows_none known).token_cache
    ≡ some (revoked project_token)
unfolding any Dict.get
revalidate_effect_example =
    (revalidate_effect knows_none known distinct).0 [] "a:development.2222222" project_token refl
      refl
