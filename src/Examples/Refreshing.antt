-- ===== src/Examples/Refreshing.antt =====
-- The theorems on the refresher at concrete inputs.
use mathlib.Core.Option
use mathlib.Core.List.Memᴰ
use unleash_edge.Prelude.{
  inl, arith, ◌≡◌, refl, sym, subst, true, false, none, some, [], ◌∷◌, Memᴰ, string_eq, any, all,
  try_fold, filter_map,
}
use unleash_edge.Dict
use unleash_edge.Dict.{Dict, values, contains}
use unleash_edge.Error.{EdgeError, FeatureError, Result, ok, err}
use unleash_edge.Types.{EdgeToken, TokenRefresh, TokenType, TokenValidationStatus}
use unleash_edge.Types
use unleash_edge.Tokens.{
  simplify, filter_unique_tokens, filter_unique_from, keep_unless_subsumed, subsumes,
  same_environment_and_broader_or_equal_project_access, broader_or_equal_projects,
}
use unleash_edge.Tokens.Coverage.{Covers}
use unleash_edge.Features.{ClientFeatures}
use unleash_edge.FeatureCache
use unleash_edge.FeatureCache.{FeatureCache}
use unleash_edge.Filters.{FeatureFilterSet}
use unleash_edge.UnleashClient.{FeaturesResponse, Outcome}
use unleash_edge.Refresher.State.{Refresher, get_features_by_filter, register_token_for_refresh}
use unleash_edge.Refresher.Fetch.{Upstream, handle_answer, refresh_all}
use unleash_edge.Refresher.Serve.{features_for_filter}
use unleash_edge.Refresher.Engines.{DeltaLaws, AllReadable, InSync, refresh_all-InSync}
use unleash_edge.Refresher.Answers.{answer_records}
use unleash_edge.Refresher.Coverage.{IsKeyed, register_token-Covers}
use unleash_edge.Refresher.Decisions.{request_total}
use unleash_edge.Examples.Samples.{
  pair-IsAntisymmetric, sample_types, sample_engine, features_of, toggle, project_token,
  project_refresh, wildcard_token, wildcard_refresh,
}

laws : DeltaLaws sample_types sample_engine
laws = record { delta_compiled = λ f d. refl; delta_first = λ d. refl }

-- one project token, and nothing fetched yet
abbrev start : Refresher sample_types sample_engine
start = record {
  tokens_to_refresh = ("a:development.2222222", project_refresh) ∷ [];
  features_cache = record { features = []; sent = [] };
  engine_cache = [];
  refresh_interval = 1000;
  strict = false;
  streaming = false;
  delta = true;
}

-- upstream answers each fetch with the toggle, and denies no token
abbrev upstream : Upstream sample_types sample_engine
upstream = record {
  parse_etag = some;
  fetch = λ _. Outcome.response 200 none (inl (features_of (toggle ∷ [])));
  fetch_delta = λ _. Outcome.response 200 none (inl (toggle ∷ []));
  clock = λ _. 5;
}

readable : AllReadable sample_types sample_engine upstream
readable request = (
  λ s h b e. (λ not_new. absurd (ground (arith, e)), λ success same. absurd (ground (arith, e))),
  λ s h b e. (λ not_new. absurd (ground (arith, e)), λ success same. absurd (ground (arith, e))),
)

start-InSync : InSync sample_types sample_engine start
unfolding FeatureCache.get Dict.get
start-InSync k = refl

refresh_all-InSync_example :
    (self' : Refresher sample_types sample_engine) × (refresh_all sample_types sample_engine
        upstream
        (project_refresh ∷ [])
        start
      ≡ some self')
    × InSync sample_types sample_engine self'
refresh_all-InSync_example =
    refresh_all-InSync sample_types sample_engine laws upstream (project_refresh ∷ []) start
      readable start-InSync

abbrev denied : Result (FeaturesResponse (ClientFeatures sample_types))
denied = err (EdgeError.client_features_fetch_error FeatureError.access_denied)

answer_records_example :
    Dict.get "a:development.2222222"
      (handle_answer sample_types sample_engine 5 project_token denied start).tokens_to_refresh
    ≡ none
unfolding Dict.get Option.bind
answer_records_example =
    answer_records sample_types sample_engine 5 project_token denied start "a:development.2222222"

keyed : IsKeyed start.tokens_to_refresh
unfolding Dict.get
keyed k r (Memᴰ.head e) =
    subst (λ p. (p.0 ≡ p.1.token.token) × (Dict.get p.0 start.tokens_to_refresh ≡ some p.1)) (sym e)
      (refl, refl)
keyed k r (Memᴰ.tail m) = absurd (Memᴰ.not-nil m)

abbrev wildcard_new : TokenRefresh
wildcard_new = record wildcard_refresh { failure_count = 0 }

simplified : simplify (project_refresh ∷ wildcard_new ∷ []) ≡ wildcard_new ∷ []
unfolding simplify filter_unique_tokens filter_unique_from keep_unless_subsumed try_fold filter_map
    contains subsumes same_environment_and_broader_or_equal_project_access broader_or_equal_projects
    any all
simplified = refl

apart : subsumes project_token wildcard_token ≡ false
unfolding subsumes same_environment_and_broader_or_equal_project_access broader_or_equal_projects
    contains any all
apart = refl

register_token-Covers_example :
    (r : TokenRefresh) × Memᴰ r (
      values
        (register_token_for_refresh sample_types sample_engine wildcard_token none
          start).tokens_to_refresh)
    × Covers r.token project_token
unfolding Types.new Dict.contains_key
register_token-Covers_example =
    register_token-Covers sample_types sample_engine wildcard_token none start keyed refl
      (pair-IsAntisymmetric project_refresh wildcard_new apart) project_refresh (Memᴰ.head refl)

abbrev no_filters : FeatureFilterSet sample_types
no_filters = []

request_total_example :
    (self' : Refresher sample_types sample_engine) × (answer : Result (ClientFeatures sample_types))
    × (features_for_filter sample_types sample_engine upstream project_token no_filters start
        ≡ some (self', answer))
    × InSync sample_types sample_engine self'
    × ((f : ClientFeatures sample_types)
        → answer ≡ ok f
        → get_features_by_filter sample_types sample_engine project_token no_filters self' ≡ some f)
request_total_example =
    request_total sample_types sample_engine upstream project_token no_filters start laws readable
      start-InSync

abbrev strict_start : Refresher sample_types sample_engine
strict_start = record start { strict = true }
