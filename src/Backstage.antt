-- ===== src/Backstage.antt =====
-- server/src/internal_backstage.rs: what an operator sees of a running Edge. A panic is `none`.
pub mod Checkers
pub mod Ready
pub mod Hidden
use mathlib.Core.Option
use unleash_edge.Prelude.{
  String, Bool, true, false, ◌&&◌, not, Option, none, some, List, [], ◌∷◌, ◌++◌, map, is_empty,
  if◌then◌else◌,
}
use unleash_edge.Dict.{Dict, values}
use unleash_edge.Error.{EdgeError, Result, ok, err}
use unleash_edge.Types.{EdgeToken, TokenRefresh, Status}
use unleash_edge.Tokens.{anonymize_token}
use unleash_edge.Features.{UnleashTypes, ClientFeatures, Engine}
use unleash_edge.FeatureCache
use unleash_edge.FeatureCache.{FeatureCache}
use unleash_edge.TokenValidator.{TokenValidator}
use unleash_edge.Refresher.State.{Refresher}
use unleash_edge.Metrics.Data.{MetricsTypes, ClientApplication, ClientMetricsEnv, MetricsKey}
use unleash_edge.Metrics.Cache.{MetricsCache}

pub record EdgeStatus : Type 0 where
  pub status : Status

pub record TokenInfo : Type 0 where
  pub token_refreshes : List TokenRefresh
  pub token_validation_status : List EdgeToken

unfoldable pub health : Result EdgeStatus
health = ok (record { status = Status.ok })

-- `map(…).collect()` of a function that may panic
unfoldable pub collect_all : {A B : Type 0} → (A → Option B) → List A → Option (List B)
collect_all f [] = some []
collect_all f (x ∷ xs) = Option.bind (f x) (λ y. Option.map (λ ys. y ∷ ys) (collect_all f xs))

unfoldable pub anonymize_refresh : TokenRefresh → Option TokenRefresh
anonymize_refresh f = Option.map (λ t. record f { token = t }) (anonymize_token f.token)

unfoldable pub get_offline_token_info : Dict String EdgeToken → Option TokenInfo
get_offline_token_info token_cache =
    Option.map
      (λ edge_tokens. record { token_refreshes = []; token_validation_status = edge_tokens })
      (collect_all anonymize_token (values token_cache))

module _ (u : UnleashTypes) (e : Engine u) where
  unfoldable pub ready : Dict String EdgeToken → FeatureCache u → Result EdgeStatus
  ready token_cache features_cache =
      if not (is_empty token_cache) && FeatureCache.is_empty u features_cache
      then err EdgeError.not_ready
      else ok (record { status = Status.ready })

  unfoldable pub get_token_info : Refresher u e → TokenValidator → Option TokenInfo
  get_token_info feature_refresher token_validator =
      Option.bind (collect_all anonymize_refresh (values feature_refresher.tokens_to_refresh))
        (λ refreshes.
          Option.map
            (λ tokens. record { token_refreshes = refreshes; token_validation_status = tokens })
            (collect_all anonymize_token (values token_validator.token_cache)))

  -- with a refresher and a validator, or in offline mode
  unfoldable pub tokens :
      Dict String EdgeToken → Option (Refresher u e) → Option TokenValidator → Option TokenInfo
  tokens token_cache (some feature_refresher) (some token_validator) =
      get_token_info feature_refresher token_validator
  tokens token_cache (some feature_refresher) none = get_offline_token_info token_cache
  tokens token_cache none token_validator = get_offline_token_info token_cache

  unfoldable pub features : FeatureCache u → Dict String (ClientFeatures u)
  features features_cache = features_cache.features

module _ (t : MetricsTypes) where
  pub record ClientMetric : Type 0 where
    pub key : MetricsKey
    pub bucket : ClientMetricsEnv t

  pub record MetricsInfo : Type 0 where
    pub applications : List (ClientApplication t)
    pub metrics : List ClientMetric

  unfoldable pub metrics_batch : MetricsCache t → MetricsInfo
  metrics_batch metrics_cache = record {
    applications = values metrics_cache.applications;
    metrics = map (λ e. record { key = e.0; bucket = e.1 }) metrics_cache.metrics;
  }

-- an endpoint of the backstage
pub data Service : Type 0 where
  at_health at_info at_ready at_tokens at_metrics at_metrics_batch at_features : Service

pub record InternalBackstageArgs : Type 0 where
  pub disable_metrics_batch_endpoint : Bool
  pub disable_metrics_endpoint : Bool
  pub disable_features_endpoint : Bool
  pub disable_tokens_endpoint : Bool

abbrev pub unless : Bool → Service → List Service
unless disabled service = if disabled then [] else service ∷ []

unfoldable pub configure_internal_backstage : InternalBackstageArgs → List Service
configure_internal_backstage args =
    (Service.at_health ∷ Service.at_info ∷ Service.at_ready ∷ [])
    ++ (unless args.disable_tokens_endpoint Service.at_tokens
        ++ (unless args.disable_metrics_endpoint Service.at_metrics
            ++ (unless args.disable_metrics_batch_endpoint Service.at_metrics_batch
                ++ unless args.disable_features_endpoint Service.at_features)))
