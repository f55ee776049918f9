-- ===== src/Refresher/Fetch.antt =====
-- server/src/http/refresher/feature_refresher.rs and delta_refresher.rs: one fetch, and passes over the tokens.
-- `none` as a result is a panic.
use mathlib.Core.Option
use unleash_edge.Prelude.{
  String, ℕ, Bool, not, ◌||◌, Option, none, some, List, [], ◌∷◌, string_eq, any, length, ◌=ℕ◌,
  if◌then◌else◌,
}
use unleash_edge.Dict
use unleash_edge.Dict.{Dict, values}
use unleash_edge.Error.{EdgeError, FeatureError, StatusCode, Result, ok, err}
use unleash_edge.Types
use unleash_edge.Types.{EdgeToken, TokenRefresh, Millis, EntityTag}
use unleash_edge.Tokens.{cache_key}
use unleash_edge.Features.{UnleashTypes, ClientFeatures, Engine}
use unleash_edge.FeatureCache
use unleash_edge.UnleashClient.{ClientFeaturesRequest, FeaturesResponse, Outcome, get_features}
use unleash_edge.Refresher.State.{
  Refresher, environment_is, get_tokens_due_for_refresh, get_tokens_never_refreshed,
}

-- The statuses after which the next fetch is put off.
unfoldable pub is_struggling : StatusCode → Bool
is_struggling s = s =ℕ 500 || s =ℕ 502 || s =ℕ 503 || s =ℕ 504 || s =ℕ 429

module _ (u : UnleashTypes) (e : Engine u) where
  -- What the world does in a pass: how the requests to upstream end, and the clock when the answer for a
  -- token comes; `parse_etag` is `EntityTag::from_str`.
  pub record Upstream : Type 0 where
    pub parse_etag : String → Option EntityTag
    pub fetch : ClientFeaturesRequest → Outcome (ClientFeatures u)
    pub fetch_delta : ClientFeaturesRequest → Outcome (e.Delta)
    pub clock : EdgeToken → Millis

  unfoldable pub backoff : Millis → EdgeToken → Refresher u e → Refresher u e
  backoff now token self = record self {
    tokens_to_refresh =
        Dict.alter token.token (Types.backoff now self.refresh_interval) self.tokens_to_refresh;
  }

  unfoldable pub update_last_check : Millis → EdgeToken → Refresher u e → Refresher u e
  update_last_check now token self = record self {
    tokens_to_refresh =
        Dict.alter token.token (Types.successful_check now self.refresh_interval)
          self.tokens_to_refresh;
  }

  unfoldable pub update_last_refresh :
      Millis → EdgeToken → Option EntityTag → ℕ → Refresher u e → Refresher u e
  update_last_refresh now token etag feature_count self = record self {
    tokens_to_refresh =
        Dict.alter token.token
          (Types.successful_refresh now self.refresh_interval etag feature_count)
          self.tokens_to_refresh;
  }

  -- a fresh engine with the features
  abbrev pub compiled : ClientFeatures u → e.State
  compiled features = e.take_state e.default features

  unfoldable pub handle_client_features_updated :
      Millis → EdgeToken → ClientFeatures u → Option EntityTag → Refresher u e → Refresher u e
  handle_client_features_updated now refresh_token features etag self =
      let key = cache_key refresh_token in
      let noted = update_last_refresh now refresh_token etag (length features.features) self in
      let cache = FeatureCache.modify u key refresh_token features noted.features_cache in
      record noted {
        features_cache = cache;
        engine_cache =
            Dict.upsert key
              (λ engine. elim (FeatureCache.get u key cache) [
                | none ↦ engine
                | some f ↦ compiled f
              ])
              (compiled features) noted.engine_cache;
      }

  unfoldable pub handle_client_features_delta_updated :
      Millis → EdgeToken → e.Delta → Option EntityTag → Refresher u e → Option (Refresher u e)
  handle_client_features_delta_updated now refresh_token delta etag self =
      let key = cache_key refresh_token in
      let cache = FeatureCache.apply_delta u e key delta self.features_cache in
      Option.map
        (λ now_cached.
          let noted =
            update_last_refresh now refresh_token etag (length now_cached.features)
              (record self { features_cache = cache }) in
          record noted {
            engine_cache =
                Dict.upsert key (λ engine. e.state_apply_delta engine delta)
                  (e.state_apply_delta e.default delta) noted.engine_cache;
          })
        (FeatureCache.get u key cache)

  -- the branch for `FeatureError::AccessDenied`
  unfoldable pub give_up_token : EdgeToken → Refresher u e → Refresher u e
  give_up_token token self =
      let tokens = Dict.remove token.token self.tokens_to_refresh in
      let key = cache_key token in
      if not (any (λ r. environment_is r.token.environment token.environment) (values tokens))
      then record self {
        tokens_to_refresh = tokens;
        features_cache = (FeatureCache.remove u key self.features_cache).0;
        engine_cache = Dict.remove key self.engine_cache;
      }
      else record self { tokens_to_refresh = tokens }

  -- the branch `Err(e)`, the same in both kinds of fetch
  unfoldable pub handle_fetch_error : Millis → EdgeToken → EdgeError → Refresher u e → Refresher u e
  handle_fetch_error now token
        (EdgeError.client_features_fetch_error (FeatureError.retriable status_code)) self =
      if is_struggling status_code then backoff now token self else self
  handle_fetch_error now token (EdgeError.client_features_fetch_error FeatureError.access_denied)
        self =
      give_up_token token self
  handle_fetch_error now token (EdgeError.client_features_fetch_error FeatureError.not_found) self =
      backoff now token self
  handle_fetch_error now token _ self = self

  abbrev pub request_of : TokenRefresh → ClientFeaturesRequest
  request_of refresh = record { api_key = refresh.token.token; etag = refresh.etag }

  -- `refresh_single`, once the answer has come. `compare_delta_cache`, which only logs, is left out.
  unfoldable pub handle_answer :
      Millis
      → EdgeToken
      → Result (FeaturesResponse (ClientFeatures u))
      → Refresher u e
      → Refresher u e
  handle_answer now token (ok (FeaturesResponse.no_update tag)) self =
      update_last_check now token self
  handle_answer now token (ok (FeaturesResponse.updated features etag)) self =
      handle_client_features_updated now token features etag self
  handle_answer now token (err x) self = handle_fetch_error now token x self

  -- `refresh_single_delta`, once the answer has come
  unfoldable pub handle_delta_answer :
      Millis
      → EdgeToken
      → Result (FeaturesResponse (e.Delta))
      → Refresher u e
      → Option (Refresher u e)
  handle_delta_answer now token (ok (FeaturesResponse.no_update tag)) self =
      some (update_last_check now token self)
  handle_delta_answer now token (ok (FeaturesResponse.updated delta etag)) self =
      handle_client_features_delta_updated now token delta etag self
  handle_delta_answer now token (err x) self = some (handle_fetch_error now token x self)

  unfoldable pub refresh_single : Upstream → TokenRefresh → Refresher u e → Option (Refresher u e)
  refresh_single w refresh self =
      let request = request_of refresh in
      elim (get_features w.parse_etag request (w.fetch request)) [
        | none ↦ none
        | some answer ↦ some (handle_answer (w.clock refresh.token) refresh.token answer self)
      ]

  unfoldable pub refresh_single_delta :
      Upstream → TokenRefresh → Refresher u e → Option (Refresher u e)
  refresh_single_delta w refresh self =
      let request = request_of refresh in
      elim (get_features w.parse_etag request (w.fetch_delta request)) [
        | none ↦ none
        | some answer ↦ handle_delta_answer (w.clock refresh.token) refresh.token answer self
      ]

  -- the body of the loops over tokens
  unfoldable pub refresh_one : Upstream → TokenRefresh → Refresher u e → Option (Refresher u e)
  refresh_one w r self =
      if self.delta then refresh_single_delta w r self else refresh_single w r self

  -- the loop of `hydrate_new_tokens` and of `refresh_features`
  unfoldable pub refresh_all : Upstream → List TokenRefresh → Refresher u e → Option (Refresher u e)
  refresh_all w [] self = some self
  refresh_all w (r ∷ rs) self = elim (refresh_one w r self) [
    | none ↦ none
    | some self' ↦ refresh_all w rs self'
  ]

  unfoldable pub hydrate_new_tokens : Upstream → Refresher u e → Option (Refresher u e)
  hydrate_new_tokens w self = refresh_all w (get_tokens_never_refreshed u e self) self

  unfoldable pub refresh_features : Upstream → Millis → Refresher u e → Option (Refresher u e)
  refresh_features w now self = refresh_all w (get_tokens_due_for_refresh u e now self) self
