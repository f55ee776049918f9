-- ===== src/Refresher/Serve.antt =====
-- server/src/http/refresher/feature_refresher.rs: answering a request for features.
use mathlib.Core.Option
use unleash_edge.Prelude.{Option, none, some, if◌then◌else◌}
use unleash_edge.Error.{EdgeError, Result, ok, err, ok_or}
use unleash_edge.Types.{EdgeToken}
use unleash_edge.Features.{UnleashTypes, ClientFeatures, Engine}
use unleash_edge.Filters.{FeatureFilterSet}
use unleash_edge.Refresher.State.{
  Refresher, token_is_subsumed, get_features_by_filter, register_token_for_refresh,
}
use unleash_edge.Refresher.Fetch.{Upstream, hydrate_new_tokens}

module _ (u : UnleashTypes) (e : Engine u) where
  unfoldable pub register_and_hydrate_token :
      Upstream u e → EdgeToken → Refresher u e → Option (Refresher u e)
  register_and_hydrate_token w token self =
      hydrate_new_tokens u e w (register_token_for_refresh u e token none self)

  abbrev pub hydration_failed : EdgeError
  hydration_failed =
      EdgeError.client_hydration_failed
        "Failed to get features by filter after registering and hydrating token (This is very likely an error in Edge. Please report this!)"

  -- the branch `_` of `features_for_filter`
  unfoldable pub features_after_hydration :
      Upstream u e
      → EdgeToken
      → FeatureFilterSet u
      → Refresher u e
      → Option (Refresher u e × Result (ClientFeatures u))
  features_after_hydration w token filters self =
      if self.strict
      then some (self, err EdgeError.invalid_token_with_strict_behavior)
      else Option.map
          (λ self'.
            (self', ok_or hydration_failed (get_features_by_filter u e token filters self')))
          (register_and_hydrate_token w token self)

  unfoldable pub features_for_filter :
      Upstream u e
      → EdgeToken
      → FeatureFilterSet u
      → Refresher u e
      → Option (Refresher u e × Result (ClientFeatures u))
  features_for_filter w token filters self = elim (get_features_by_filter u e token filters self) [
    | none ↦ features_after_hydration w token filters self
    | some features ↦
        if token_is_subsumed u e token self
        then some (self, ok features)
        else features_after_hydration w token filters self
  ]
