-- ===== src/Examples/Serving.antt =====
-- The theorems on the handlers and the middleware at concrete inputs.
use text.Mathlib.Text.{starts_with}
use unleash_edge.Prelude.{
  ◌≡◌, refl, String, true, false, none, some, List, [], ◌∷◌, inr, string_eq, filter, any, all,
  filter_map, take,
}
use unleash_edge.Dict
use unleash_edge.Dict.{Dict, contains}
use unleash_edge.Text.{contains_text, trim, split, contains_char}
use unleash_edge.Error.{Result, ok}
use unleash_edge.Types.{EdgeToken}
use unleash_edge.Features.{ClientFeatures}
use unleash_edge.Filters.Access.{Visible}
use unleash_edge.Refresher.State.{Refresher}
use unleash_edge.Refresher.State.{get_features_by_filter, token_is_subsumed}
use unleash_edge.UnleashClient.{Outcome}
use unleash_edge.Refresher.Fetch.{Upstream}
use unleash_edge.Refresher.Serve.{features_for_filter}
use unleash_edge.FeatureCache
use unleash_edge.Filters.{
  filter_client_features, filter_features, apply, query_filters, with_filter,
  project_filter_from_projects, name_match_filter, project_filter, from,
}
use unleash_edge.Tokens.{
  cache_key, subsumes, same_environment_and_broader_or_equal_project_access,
  broader_or_equal_projects, from_str, from_trimmed_str,
}
use unleash_edge.ClientApi.{
  resolve_features, get_feature, query_of, get_feature_filter, validated, with_query,
  feature_filters, first_feature,
}
use unleash_edge.ClientApi.Shown.{IsShown, resolve-IsShown, get_feature_shown}
use unleash_edge.Middleware.{Decision, validate_token}
use unleash_edge.Middleware.Admission.{known_admitted_iff}
use unleash_edge.TokenValidator.{
  TokenValidator, register_tokens, register_unknown, get_unknown_and_known_tokens,
}
use unleash_edge.EdgeApi.{validate}
use unleash_edge.Examples.Samples.{
  sample_types, sample_engine, features_of, toggle, banner, project_token, project_refresh,
}

abbrev tokens : Dict String EdgeToken
tokens = ("a:development.2222222", project_token) ∷ []

known_admitted_iff_example :
    validate_token (some (ok project_token)) [] project_token "/api/client/features" ≡ Decision.call
unfolding contains_text
known_admitted_iff_example =
    (known_admitted_iff project_token project_token [] "/api/client/features").1
      (refl, inr (refl, refl))

-- features for the token's environment, and the token registered
abbrev loaded : Refresher sample_types sample_engine
loaded = record {
  tokens_to_refresh = ("a:development.2222222", project_refresh) ∷ [];
  features_cache = record {
    features = ("development", features_of (banner ∷ toggle ∷ [])) ∷ [];
    sent = [];
  };
  engine_cache = [];
  refresh_interval = 1000;
  strict = false;
  streaming = false;
  delta = false;
}

abbrev silent : Upstream sample_types sample_engine
silent = record {
  parse_etag = some;
  fetch = λ _. Outcome.not_sent none;
  fetch_delta = λ _. Outcome.not_sent none;
  clock = λ _. 5;
}

abbrev shown : ClientFeatures sample_types
shown = record (features_of (toggle ∷ [])) {
  query = some (query_of sample_types none project_token);
}

resolved :
    resolve_features sample_types sample_engine silent project_token tokens none loaded
    ≡ some (loaded, ok shown)
unfolding resolve_features get_feature_filter validated features_for_filter get_features_by_filter
    token_is_subsumed Dict.get FeatureCache.get cache_key filter_client_features filter_features
    apply query_filters with_filter project_filter_from_projects filter all any contains subsumes
    same_environment_and_broader_or_equal_project_access broader_or_equal_projects with_query
    query_of
resolved = refl

resolve-IsShown_example : IsShown sample_types project_token tokens none shown
resolve-IsShown_example =
    resolve-IsShown sample_types sample_engine silent project_token tokens none loaded loaded shown
      resolved

found :
    get_feature sample_types sample_engine silent project_token tokens "toggle" loaded
    ≡ some (loaded, ok toggle)
unfolding get_feature validated feature_filters first_feature name_match_filter project_filter from
    features_for_filter get_features_by_filter token_is_subsumed Dict.get FeatureCache.get cache_key
    filter_client_features filter_features apply with_filter project_filter_from_projects filter all
    any contains subsumes same_environment_and_broader_or_equal_project_access
    broader_or_equal_projects
found = refl

get_feature_shown_example :
    (t : EdgeToken) × (Dict.get "a:development.2222222" tokens ≡ some t)
    × (starts_with "toggle" "toggle" ≡ true)
    × Visible sample_types t.projects toggle
get_feature_shown_example =
    get_feature_shown sample_types sample_engine silent project_token tokens "toggle" loaded loaded
      toggle found

abbrev known : TokenValidator
known = record { token_cache = tokens; persistence = false; saved = [] }

abbrev keep : List EdgeToken → List EdgeToken → List EdgeToken
keep a b = b

abbrev knows_none : List String → Result (List EdgeToken)
knows_none _ = ok []

answered :
    (validate keep knows_none ("a:development.2222222" ∷ []) known).1 ≡ ok (project_token ∷ [])
unfolding validate register_tokens register_unknown get_unknown_and_known_tokens filter_map filter
    from_str from_trimmed_str trim split contains_char take Dict.get
answered = refl
