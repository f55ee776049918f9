-- ===== src/Refresher/Answers.antt =====
-- What an answer of upstream changes, and for which token and environment.
use mathlib.Core.Option
use unleash_edge.Prelude.{
  ◌≡◌, refl, ◌∙◌, String, Bool, true, false, inl, inr, Option, none, some, string_eq, ◌==◌, arith,
  if◌then◌else◌, any, length, Bool-cases, eq_iff,
}
use unleash_edge.Dict
use unleash_edge.Dict.{Dict, values}
use unleash_edge.Dict.Laws.{get-remove, get-upsert, get-alter}
use unleash_edge.Error.{EdgeError, FeatureError, Result, ok, err}
use unleash_edge.Types
use unleash_edge.Types.{
  EdgeToken, TokenRefresh, Millis, EntityTag, successful_check, successful_refresh,
}
use unleash_edge.Tokens.{cache_key}
use unleash_edge.Features.{UnleashTypes, ClientFeatures, Engine}
use unleash_edge.FeatureCache
use unleash_edge.FeatureCache.{FeatureCache, send_full_update}
use unleash_edge.UnleashClient.{FeaturesResponse}
use unleash_edge.Refresher.State.{Refresher, environment_is}
use unleash_edge.Refresher.Fetch.{
  compiled, is_struggling, backoff, update_last_check, update_last_refresh,
  handle_client_features_updated, give_up_token, handle_fetch_error, handle_answer,
}

kept {ℓ} : {A : Type ℓ} {b : Bool} → b ≡ false → (x y : A) → (if b then x else y) ≡ y
kept h x y = rw h refl

module _ (u : UnleashTypes) (e : Engine u) (now : Millis) (token : EdgeToken) where
  -- What an answer makes of the token's own refresh record: nothing is left of it when access is denied.
  abbrev pub next_record :
      Millis → Result (FeaturesResponse (ClientFeatures u)) → TokenRefresh → Option TokenRefresh
  next_record interval (ok (FeaturesResponse.no_update tag)) r =
      some (successful_check now interval r)
  next_record interval (ok (FeaturesResponse.updated f etag)) r =
      some (successful_refresh now interval etag (length f.features) r)
  next_record interval (err (EdgeError.client_features_fetch_error (FeatureError.retriable s))) r =
      some (if is_struggling s then Types.backoff now interval r else r)
  next_record interval (err (EdgeError.client_features_fetch_error FeatureError.access_denied)) r =
      none
  next_record interval (err (EdgeError.client_features_fetch_error FeatureError.not_found)) r =
      some (Types.backoff now interval r)
  next_record interval (err _) r = some r

  unchanged : (b : Bool) (o : Option TokenRefresh) → o ≡ (if b then Option.bind o some else o)
  unfolding Option.bind
  unchanged true none = refl
  unchanged true (some r) = refl
  unchanged false o = refl

  given_up_tokens :
      (self : Refresher u e)
      → (give_up_token u e token self).tokens_to_refresh
        ≡ Dict.remove token.token self.tokens_to_refresh
  unfolding give_up_token
  given_up_tokens self =
      elim (Bool-cases (
        any (λ r. environment_is r.token.environment token.environment)
          (values (Dict.remove token.token self.tokens_to_refresh)))) [
            | inl t ↦ rw t refl
            | inr n ↦ rw n refl
          ]

  -- An answer for a token changes its own refresh record as its kind says, and no other token's.
  pub answer_records :
      (a : Result (FeaturesResponse (ClientFeatures u))) (self : Refresher u e) (j : String)
      → Dict.get j (handle_answer u e now token a self).tokens_to_refresh ≡ (
          if token.token == j
          then Option.bind (Dict.get j self.tokens_to_refresh) (next_record self.refresh_interval a)
          else Dict.get j self.tokens_to_refresh)
  unfolding handle_answer handle_fetch_error update_last_check handle_client_features_updated
      update_last_refresh backoff Option.bind
  answer_records (ok (FeaturesResponse.no_update tag)) self j = ground (
    arith,
    get-alter j token.token (successful_check now self.refresh_interval) self.tokens_to_refresh,
  )
  answer_records (ok (FeaturesResponse.updated f etag)) self j = ground (
    arith,
    get-alter j token.token (successful_refresh now self.refresh_interval etag (length f.features))
        self.tokens_to_refresh,
  )
  answer_records (err (EdgeError.client_features_fetch_error (FeatureError.retriable s))) self j =
      elim (Bool-cases (is_struggling s)) [
        | inl t ↦ rw t (
            ground (
              arith,
              get-alter j token.token (Types.backoff now self.refresh_interval)
                  self.tokens_to_refresh,
            ))
        | inr n ↦ rw n (ground arith)
      ]
  answer_records (err (EdgeError.client_features_fetch_error FeatureError.access_denied)) self j =
      rw (given_up_tokens self) (ground (arith, get-remove j token.token self.tokens_to_refresh))
  answer_records (err (EdgeError.client_features_fetch_error FeatureError.not_found)) self j =
      ground (
        arith,
        get-alter j token.token (Types.backoff now self.refresh_interval) self.tokens_to_refresh,
      )
  answer_records (err _) self j = unchanged (token.token == j) (Dict.get j self.tokens_to_refresh)

  updated_isolated :
      (f : ClientFeatures u) (etag : Option EntityTag) (self : Refresher u e) (k : String)
      → cache_key token == k ≡ false
      → (FeatureCache.get u k
            (handle_client_features_updated u e now token f etag self).features_cache
          ≡ FeatureCache.get u k self.features_cache)
        × (Dict.get k (handle_client_features_updated u e now token f etag self).engine_cache
            ≡ Dict.get k self.engine_cache)
  unfolding handle_client_features_updated update_last_refresh FeatureCache.get FeatureCache.modify
      send_full_update
  updated_isolated f etag self k other = (
    get-upsert k (cache_key token) _ f self.features_cache.features ∙ kept other _ _,
    get-upsert k (cache_key token) _ (compiled u e f) self.engine_cache ∙ kept other _ _,
  )

  given_up_isolated :
      (self : Refresher u e) (k : String)
      → cache_key token == k ≡ false
      → (FeatureCache.get u k (give_up_token u e token self).features_cache
          ≡ FeatureCache.get u k self.features_cache)
        × (Dict.get k (give_up_token u e token self).engine_cache ≡ Dict.get k self.engine_cache)
  unfolding give_up_token FeatureCache.get FeatureCache.remove send_full_update
  given_up_isolated self k other =
      elim (Bool-cases (
        any (λ r. environment_is r.token.environment token.environment)
          (values (Dict.remove token.token self.tokens_to_refresh)))) [
            | inl t ↦ rw t (refl, refl)
            | inr n ↦ rw n (
              get-remove k (cache_key token) self.features_cache.features ∙ kept other _ _,
              get-remove k (cache_key token) self.engine_cache ∙ kept other _ _,
            )
          ]

  cache_removed :
      (k : String) (f : FeatureCache u) → FeatureCache.get u k (FeatureCache.remove u k f).0 ≡ none
  unfolding FeatureCache.get FeatureCache.remove send_full_update
  cache_removed k f = ground (arith, get-remove k k f.features, eq_iff k k)

  engine_removed : (k : String) (m : Dict String (e.State)) → Dict.get k (Dict.remove k m) ≡ none
  engine_removed k m = ground (arith, get-remove k k m, eq_iff k k)

  -- An answer for a token leaves the features and the engine of every other environment as they were.
  pub answer_isolated :
      (a : Result (FeaturesResponse (ClientFeatures u))) (self : Refresher u e) (k : String)
      → cache_key token == k ≡ false
      → (FeatureCache.get u k (handle_answer u e now token a self).features_cache
          ≡ FeatureCache.get u k self.features_cache)
        × (Dict.get k (handle_answer u e now token a self).engine_cache
            ≡ Dict.get k self.engine_cache)
  unfolding handle_answer handle_fetch_error update_last_check backoff
  answer_isolated (ok (FeaturesResponse.no_update tag)) self k other = (refl, refl)
  answer_isolated (ok (FeaturesResponse.updated f etag)) self k other =
      updated_isolated f etag self k other
  answer_isolated (err (EdgeError.client_features_fetch_error (FeatureError.retriable s))) self k
        other =
      elim (Bool-cases (is_struggling s)) [ inl t ↦ rw t (refl, refl) | inr n ↦ rw n (refl, refl) ]
  answer_isolated (err (EdgeError.client_features_fetch_error FeatureError.access_denied)) self k
        other =
      given_up_isolated self k other
  answer_isolated (err (EdgeError.client_features_fetch_error FeatureError.not_found)) self k
        other =
      (refl, refl)
  answer_isolated (err _) self k other = (refl, refl)

  -- A denial takes the token out, and the features and the engine of its environment if and only if no
  -- other token of that environment is left.
  pub denied_caches :
      (self : Refresher u e)
      → let left =
          any
            (λ r. environment_is r.token.environment token.environment)
            (values (Dict.remove token.token self.tokens_to_refresh)) in
        let after = give_up_token u e token self in
        (FeatureCache.get u (cache_key token) after.features_cache
          ≡ (if left then FeatureCache.get u (cache_key token) self.features_cache else none))
        × (Dict.get (cache_key token) after.engine_cache
            ≡ (if left then Dict.get (cache_key token) self.engine_cache else none))
  unfolding give_up_token
  denied_caches self =
      elim (Bool-cases (
        any (λ r. environment_is r.token.environment token.environment)
          (values (Dict.remove token.token self.tokens_to_refresh)))) [
            | inl t ↦ rw t (refl, refl)
            | inr n ↦ rw n (
              cache_removed (cache_key token) self.features_cache,
              engine_removed (cache_key token) self.engine_cache,
            )
          ]
