-- ===== src/ClientApi/Handlers.antt =====
-- server/src/client_api.rs: the endpoints of the client scope that do more than answer features. What is
-- posted goes into the metrics cache.
use unleash_edge.Prelude.{String, Bool, true, false, Option, List, [], ◌∷◌}
use unleash_edge.Dict.{Dict}
use unleash_edge.Error.{EdgeError, Result, StatusCode, ok, err}
use unleash_edge.Types.{EdgeToken}
use unleash_edge.Features.{UnleashTypes, ClientFeatures, Engine}
use unleash_edge.FeatureCache.{FeatureCache}
use unleash_edge.Refresher.State.{Refresher}
use unleash_edge.Refresher.Fetch.{Upstream}
use unleash_edge.Broadcaster.{Broadcaster, Channel, ClientData, Event, connect}
use unleash_edge.ClientApi.{resolve_features, get_feature_filter}
use unleash_edge.FrontendApi.Handlers.{ClientMetrics}
use unleash_edge.Metrics.Data.{
  MetricsTypes, ConnectVia, ClientApplication, ClientMetricsEnv, MetricsBatch,
}
use unleash_edge.Metrics.Cache.{
  MetricsCache, register_client_metrics, register_client_application, register_bulk_metrics,
}

module _ (u : UnleashTypes) (e : Engine u) (w : Upstream u e) where
  unfoldable pub get_features :
      EdgeToken
      → Dict String EdgeToken
      → Option String
      → Refresher u e
      → Option (Refresher u e × Result (ClientFeatures u))
  get_features edge_token token_cache filter_query refresher =
      resolve_features u e w edge_token token_cache filter_query refresher

  unfoldable pub post_features :
      EdgeToken
      → Dict String EdgeToken
      → Option String
      → Refresher u e
      → Option (Refresher u e × Result (ClientFeatures u))
  post_features edge_token token_cache filter_query refresher =
      resolve_features u e w edge_token token_cache filter_query refresher

-- `streaming` is whether Edge runs with an upstream and with streaming.
unfoldable pub stream_features :
    (u : UnleashTypes)
    → (ClientFeatures u → Result String)
    → Bool
    → EdgeToken
    → Dict String EdgeToken
    → Option String
    → Channel
    → FeatureCache u
    → Broadcaster
    → Broadcaster × Result (ClientData × Event)
stream_features u encode true edge_token token_cache filter_query tx features_cache broadcaster =
    elim (get_feature_filter u edge_token token_cache filter_query) [
      | err x ↦ (broadcaster, err x)
      | ok (validated_token, _, query) ↦
          connect u encode validated_token query tx features_cache broadcaster
    ]
stream_features u encode false edge_token token_cache filter_query tx features_cache broadcaster =
    (broadcaster, err (EdgeError.forbidden "This endpoint is only enabled in streaming mode"))

module _ (t : MetricsTypes) where
  unfoldable pub register :
      (String → String → ClientApplication t → ClientApplication t)
      → EdgeToken
      → ConnectVia
      → ClientApplication t
      → String
      → MetricsCache t
      → MetricsCache t × StatusCode
  register connect_via edge_token via client_application ulid metrics_cache = (
    register_client_application t connect_via edge_token via client_application ulid metrics_cache,
    202,
  )

  unfoldable pub metrics :
      (t.Bucket → String → String → t.Metadata → List (ClientMetricsEnv t))
      → EdgeToken
      → ClientMetrics t
      → MetricsCache t
      → MetricsCache t × StatusCode
  metrics from_bucket edge_token body metrics_cache = (
    register_client_metrics t from_bucket edge_token body.bucket body.app_name body.metadata
        metrics_cache,
    202,
  )

  unfoldable pub post_bulk_metrics :
      (String → String → ClientApplication t → ClientApplication t)
      → EdgeToken
      → MetricsBatch t
      → ConnectVia
      → MetricsCache t
      → MetricsCache t × StatusCode
  post_bulk_metrics connect_via edge_token bulk_metrics via metrics_cache =
      (register_bulk_metrics t connect_via via edge_token bulk_metrics metrics_cache, 202)

-- a handler of the client scope
pub data Service : Type 0 where
  getting_features getting_feature registering posting_metrics : Service
  posting_bulk_metrics streaming_features posting_features : Service

unfoldable pub configure_client_api : List Service
configure_client_api =
    Service.getting_features ∷ Service.getting_feature ∷ Service.registering
    ∷ Service.posting_metrics ∷ Service.posting_bulk_metrics ∷ Service.streaming_features ∷ []

unfoldable pub configure_experimental_post_features : Bool → List Service
configure_experimental_post_features true = Service.posting_features ∷ []
configure_experimental_post_features false = []
