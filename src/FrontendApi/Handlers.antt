-- ===== src/FrontendApi/Handlers.antt =====
-- server/src/frontend_api.rs: the endpoints of the two scopes, and which of them are served.
-- `default` is `Context::default()`.
use unleash_edge.Prelude.{String, Bool, true, false, Option, List, [], ◌∷◌}
use unleash_edge.Dict.{Dict}
use unleash_edge.Error.{Result, StatusCode}
use unleash_edge.Types.{EdgeToken}
use unleash_edge.Features.{UnleashTypes, Engine}
use unleash_edge.Contexts.{Context, IncomingContext, PostContext, from_incoming, from_post}
use unleash_edge.FrontendApi.{
  Evaluator, EvaluatedToggle, get_all_features, post_all_features, get_enabled_features,
  post_enabled_features, evaluate_feature,
}
use unleash_edge.Metrics.Data.{MetricsTypes, ConnectVia, ClientApplication, ClientMetricsEnv}
use unleash_edge.Metrics.Cache.{MetricsCache, register_client_metrics, register_client_application}

module _ (u : UnleashTypes) (e : Engine u) (v : Evaluator u e) where
  open v use {Other, Payload}

  unfoldable pub get_proxy_all_features :
      EdgeToken
      → Dict String (e.State)
      → Dict String EdgeToken
      → IncomingContext Other
      → Option String
      → Result (List (EvaluatedToggle Payload))
  get_proxy_all_features edge_token engine_cache token_cache context client_ip =
      get_all_features u e v edge_token engine_cache token_cache (from_incoming Other context)
        client_ip

  unfoldable pub get_frontend_all_features :
      EdgeToken
      → Dict String (e.State)
      → Dict String EdgeToken
      → IncomingContext Other
      → Option String
      → Result (List (EvaluatedToggle Payload))
  get_frontend_all_features edge_token engine_cache token_cache context client_ip =
      get_all_features u e v edge_token engine_cache token_cache (from_incoming Other context)
        client_ip

  unfoldable pub get_enabled_proxy :
      EdgeToken
      → Dict String (e.State)
      → Dict String EdgeToken
      → IncomingContext Other
      → Option String
      → Result (List (EvaluatedToggle Payload))
  get_enabled_proxy edge_token engine_cache token_cache context client_ip =
      get_enabled_features u e v edge_token engine_cache token_cache (from_incoming Other context)
        client_ip

  unfoldable pub get_enabled_frontend :
      EdgeToken
      → Dict String (e.State)
      → Dict String EdgeToken
      → IncomingContext Other
      → Option String
      → Result (List (EvaluatedToggle Payload))
  get_enabled_frontend edge_token engine_cache token_cache context client_ip =
      get_enabled_features u e v edge_token engine_cache token_cache (from_incoming Other context)
        client_ip

  unfoldable pub get_frontend_evaluate_single_feature :
      EdgeToken
      → String
      → IncomingContext Other
      → Dict String (e.State)
      → Dict String EdgeToken
      → Option String
      → Result (EvaluatedToggle Payload)
  get_frontend_evaluate_single_feature edge_token feature_name context engine_cache token_cache
        client_ip =
      evaluate_feature u e v edge_token feature_name (from_incoming Other context) token_cache
        engine_cache client_ip

module _ (u : UnleashTypes) (e : Engine u) (v : Evaluator u e) (default : Context (v.Other)) where
  open v use {Other, Payload}

  unfoldable pub post_proxy_all_features :
      EdgeToken
      → Dict String (e.State)
      → Dict String EdgeToken
      → PostContext Other
      → Option String
      → Result (List (EvaluatedToggle Payload))
  post_proxy_all_features edge_token engine_cache token_cache context client_ip =
      post_all_features u e v edge_token engine_cache token_cache (from_post Other default context)
        client_ip

  unfoldable pub post_frontend_all_features :
      EdgeToken
      → Dict String (e.State)
      → Dict String EdgeToken
      → PostContext Other
      → Option String
      → Result (List (EvaluatedToggle Payload))
  post_frontend_all_features edge_token engine_cache token_cache context client_ip =
      post_all_features u e v edge_token engine_cache token_cache (from_post Other default context)
        client_ip

  unfoldable pub post_proxy_enabled_features :
      EdgeToken
      → Dict String (e.State)
      → Dict String EdgeToken
      → PostContext Other
      → Option String
      → Result (List (EvaluatedToggle Payload))
  post_proxy_enabled_features edge_token engine_cache token_cache context client_ip =
      post_enabled_features u e v edge_token engine_cache token_cache
        (from_post Other default context) client_ip

  unfoldable pub post_frontend_enabled_features :
      EdgeToken
      → Dict String (e.State)
      → Dict String EdgeToken
      → PostContext Other
      → Option String
      → Result (List (EvaluatedToggle Payload))
  post_frontend_enabled_features edge_token engine_cache token_cache context client_ip =
      post_enabled_features u e v edge_token engine_cache token_cache
        (from_post Other default context) client_ip

  unfoldable pub post_frontend_evaluate_single_feature :
      EdgeToken
      → String
      → PostContext Other
      → Dict String (e.State)
      → Dict String EdgeToken
      → Option String
      → Result (EvaluatedToggle Payload)
  post_frontend_evaluate_single_feature edge_token feature_name context engine_cache token_cache
        client_ip =
      evaluate_feature u e v edge_token feature_name (from_post Other default context) token_cache
        engine_cache client_ip

-- `ClientMetrics`, as far as it is read
pub record ClientMetrics (t : MetricsTypes) : Type 0 where
  pub app_name : String
  pub bucket : t.Bucket
  pub metadata : t.Metadata

module _ (t : MetricsTypes)
    (from_bucket : t.Bucket → String → String → t.Metadata → List (ClientMetricsEnv t)) where
  unfoldable pub post_all_proxy_metrics :
      EdgeToken → ClientMetrics t → MetricsCache t → MetricsCache t × StatusCode
  post_all_proxy_metrics edge_token metrics metrics_cache = (
    register_client_metrics t from_bucket edge_token metrics.bucket metrics.app_name
        metrics.metadata metrics_cache,
    202,
  )

  unfoldable pub post_all_frontend_metrics :
      EdgeToken → ClientMetrics t → MetricsCache t → MetricsCache t × StatusCode
  post_all_frontend_metrics edge_token metrics metrics_cache = (
    register_client_metrics t from_bucket edge_token metrics.bucket metrics.app_name
        metrics.metadata metrics_cache,
    202,
  )

  unfoldable pub post_proxy_metrics :
      EdgeToken → ClientMetrics t → MetricsCache t → MetricsCache t × StatusCode
  post_proxy_metrics edge_token metrics metrics_cache = (
    register_client_metrics t from_bucket edge_token metrics.bucket metrics.app_name
        metrics.metadata metrics_cache,
    202,
  )

  unfoldable pub post_frontend_metrics :
      EdgeToken → ClientMetrics t → MetricsCache t → MetricsCache t × StatusCode
  post_frontend_metrics edge_token metrics metrics_cache = (
    register_client_metrics t from_bucket edge_token metrics.bucket metrics.app_name
        metrics.metadata metrics_cache,
    202,
  )

module _ (t : MetricsTypes)
    (connect_via : String → String → ClientApplication t → ClientApplication t) where
  unfoldable pub post_proxy_register :
      EdgeToken
      → ConnectVia
      → ClientApplication t
      → String
      → MetricsCache t
      → MetricsCache t × StatusCode
  post_proxy_register edge_token via client_application ulid metrics_cache = (
    register_client_application t connect_via edge_token via client_application ulid metrics_cache,
    202,
  )

  unfoldable pub post_frontend_register :
      EdgeToken
      → ConnectVia
      → ClientApplication t
      → String
      → MetricsCache t
      → MetricsCache t × StatusCode
  post_frontend_register edge_token via client_application ulid metrics_cache = (
    register_client_application t connect_via edge_token via client_application ulid metrics_cache,
    202,
  )

-- a handler that a scope serves
pub data Service : Type 0 where
  get_all post_all get_enabled post_metrics post_enabled post_register : Service
  post_single get_single post_all_metrics : Service

unfoldable pub configure_frontend_endpoints : Bool → List Service
configure_frontend_endpoints false =
    Service.get_all ∷ Service.post_all ∷ Service.get_enabled ∷ Service.post_metrics
    ∷ Service.post_enabled ∷ Service.post_register ∷ Service.post_single ∷ Service.get_single
    ∷ Service.post_all_metrics ∷ []
configure_frontend_endpoints true =
    Service.get_enabled ∷ Service.post_metrics ∷ Service.post_enabled ∷ Service.post_register
    ∷ Service.post_single ∷ Service.get_single ∷ []

unfoldable pub configure_proxy_endpoints : Bool → List Service
configure_proxy_endpoints false =
    Service.get_all ∷ Service.post_all ∷ Service.get_enabled ∷ Service.post_metrics
    ∷ Service.post_enabled ∷ Service.post_register ∷ Service.post_all_metrics ∷ []
configure_proxy_endpoints true =
    Service.get_enabled ∷ Service.post_metrics ∷ Service.post_enabled ∷ Service.post_register ∷ []
