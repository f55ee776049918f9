-- ===== src/ClientApi.antt =====
-- server/src/client_api.rs: what a client SDK gets.
-- With a refresher the handlers take it and return it; `none` as a result is a panic.
pub mod Shown
pub mod Handlers
use mathlib.Core.Option
use unleash_edge.Prelude.{String, Bool, false, Option, none, some, List, [], ◌∷◌, string_eq}
use unleash_edge.Dict
use unleash_edge.Dict.{Dict}
use unleash_edge.Error.{EdgeError, Result, ok, err, ok_or, ◌>>=◌}
use unleash_edge.Types.{EdgeToken}
use unleash_edge.Tokens.{cache_key}
use unleash_edge.Features.{UnleashTypes, Query, ClientFeatures, Engine}
use unleash_edge.Filters.{
  FeatureFilterSet, from, with_filter, name_match_filter, project_filter, query_filters,
  filter_client_features,
}
use unleash_edge.FeatureCache
use unleash_edge.FeatureCache.{FeatureCache}
use unleash_edge.Refresher.State.{Refresher}
use unleash_edge.Refresher.Fetch.{Upstream}
use unleash_edge.Refresher.Serve.{features_for_filter}

-- the token that the cache has for a secret
unfoldable pub validated : EdgeToken → Dict String EdgeToken → Result EdgeToken
validated edge_token token_cache =
    ok_or EdgeError.authorization_denied (Dict.get edge_token.token token_cache)

module _ (u : UnleashTypes) where
  unfoldable pub query_of : Option String → EdgeToken → Query u
  query_of name_prefix validated_token = record {
    tags = none;
    projects = some validated_token.projects;
    name_prefix = name_prefix;
    environment = validated_token.environment;
    inline_segment_constraints = some false;
  }

  unfoldable pub get_feature_filter :
      EdgeToken
      → Dict String EdgeToken
      → Option String
      → Result (EdgeToken × FeatureFilterSet u × Query u)
  get_feature_filter edge_token token_cache name_prefix =
      validated edge_token token_cache
      >>= (λ t. ok (t, query_filters u name_prefix t.projects, query_of name_prefix t))

  -- the branch without a refresher
  unfoldable pub cached_features :
      FeatureCache u → EdgeToken → FeatureFilterSet u → Result (ClientFeatures u)
  cached_features features_cache token filters = ok_or EdgeError.client_cache_error (
      Option.map (λ f. filter_client_features u f filters)
        (FeatureCache.get u (cache_key token) features_cache))

  -- `Json(ClientFeatures { query: Some(query), ..client_features })`
  unfoldable pub with_query : Query u → ClientFeatures u → ClientFeatures u
  with_query query f = record f { query = some query }

  -- `resolve_features` without a refresher; the handlers `get_features` and `post_features` are this
  unfoldable pub resolve_cached_features :
      EdgeToken → FeatureCache u → Dict String EdgeToken → Option String → Result (ClientFeatures u)
  resolve_cached_features edge_token features_cache token_cache name_prefix =
      get_feature_filter edge_token token_cache name_prefix >>= (λ (t, filters, query).
        cached_features features_cache t filters >>= (λ f. ok (with_query query f)))

  -- the filters of `get_feature`
  unfoldable pub feature_filters : String → EdgeToken → FeatureFilterSet u
  feature_filters feature_name t =
      with_filter u (from u (name_match_filter u feature_name)) (project_filter u t)

  -- the first feature, if there is one
  unfoldable pub first_feature : String → ClientFeatures u → Result (u.Feature)
  first_feature feature_name f = elim f.features [
    | [] ↦ err (EdgeError.feature_not_found feature_name)
    | feature ∷ _ ↦ ok feature
  ]

  -- `get_feature` without a refresher
  unfoldable pub get_cached_feature :
      EdgeToken → FeatureCache u → Dict String EdgeToken → String → Result (u.Feature)
  get_cached_feature edge_token features_cache token_cache feature_name =
      validated edge_token token_cache >>= (λ t.
        cached_features features_cache t (feature_filters feature_name t)
        >>= first_feature feature_name)

  module _ (e : Engine u) (w : Upstream u e) where
    unfoldable pub resolve_features :
        EdgeToken
        → Dict String EdgeToken
        → Option String
        → Refresher u e
        → Option (Refresher u e × Result (ClientFeatures u))
    resolve_features edge_token token_cache name_prefix refresher =
        elim (get_feature_filter edge_token token_cache name_prefix) [
          | err x ↦ some (refresher, err x)
          | ok (t, filters, query) ↦
              Option.map (λ (after, answer). (after, answer >>= (λ f. ok (with_query query f))))
                (features_for_filter u e w t filters refresher)
        ]

    unfoldable pub get_feature :
        EdgeToken
        → Dict String EdgeToken
        → String
        → Refresher u e
        → Option (Refresher u e × Result (u.Feature))
    get_feature edge_token token_cache feature_name refresher =
        elim (validated edge_token token_cache) [
          | err x ↦ some (refresher, err x)
          | ok t ↦
              Option.map (λ (after, answer). (after, answer >>= first_feature feature_name))
                (features_for_filter u e w t (feature_filters feature_name t) refresher)
        ]
