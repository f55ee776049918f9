-- ===== src/Metrics/Cache.antt =====
-- server/src/metrics/client_metrics.rs: the cache and what is put into it.
-- Counts are `u32`, with the wrap-around of a release build.
use unleash_edge.Prelude.{
  ℕ, ◌+◌, ◌%◌, ◌^◌, String, Bool, false, none, some, List, [], ◌∷◌, string_eq, ◌==◌, unwrap_or,
  filter, map,
}
use unleash_edge.Dict
use unleash_edge.Dict.{Dict}
use unleash_edge.Types.{EdgeToken}
use unleash_edge.Metrics.Data.{
  MetricsTypes, ConnectVia, ClientApplication, ClientMetricsEnv, MetricsBatch, ApplicationKey,
  MetricsKey, metrics_key_eq, application_key_eq, application_key, metrics_key,
}

-- `a += b` on `u32`
abbrev pub add_count : ℕ → ℕ → ℕ
add_count a b = (a + b) % 2 ^ 32

module _ (t : MetricsTypes) where
  pub record MetricsCache : Type 0 where
    pub applications : Dict ApplicationKey (ClientApplication t)
    pub metrics : Dict MetricsKey (ClientMetricsEnv t)

  unfoldable pub add_variants : Dict String ℕ → Dict String ℕ → Dict String ℕ
  add_variants [] variants = variants
  add_variants ((k, added_count) ∷ rest) variants =
      add_variants rest (Dict.upsert k (λ count. add_count count added_count) added_count variants)

  -- the closure of `and_modify`
  unfoldable pub add_metric : ClientMetricsEnv t → ClientMetricsEnv t → ClientMetricsEnv t
  add_metric metric feature_stats = record feature_stats {
    yes = add_count feature_stats.yes metric.yes;
    no = add_count feature_stats.no metric.no;
    variants = add_variants metric.variants feature_stats.variants;
  }

  unfoldable pub sink_metrics :
      List (ClientMetricsEnv t)
      → Dict MetricsKey (ClientMetricsEnv t)
      → Dict MetricsKey (ClientMetricsEnv t)
  sink_metrics [] m = m
  sink_metrics (metric ∷ rest) m =
      sink_metrics rest (Dict.upsert (metrics_key t metric) (add_metric metric) metric m)

  unfoldable pub register_application : ClientApplication t → MetricsCache → MetricsCache
  register_application application self = record self {
    applications = Dict.insert (application_key t application) application self.applications;
  }

  unfoldable pub register_applications : List (ClientApplication t) → MetricsCache → MetricsCache
  register_applications [] self = self
  register_applications (a ∷ rest) self = register_applications rest (register_application a self)

  unfoldable pub reinsert_batch : MetricsBatch t → MetricsCache → MetricsCache
  reinsert_batch batch self =
      let registered = register_applications batch.applications self in
      record registered { metrics = sink_metrics batch.metrics registered.metrics }

  unfoldable pub reset_metrics : MetricsCache → MetricsCache
  reset_metrics self = record { applications = []; metrics = [] }

  -- `ClientApplication::connect_via` and `from_bucket_app_name_and_env` of unleash_types are parameters
  module _ (connect_via : String → String → ClientApplication t → ClientApplication t) where
    unfoldable pub sink_bulk_metrics : MetricsBatch t → ConnectVia → MetricsCache → MetricsCache
    sink_bulk_metrics metrics via self =
        let registered =
          register_applications
            (map (connect_via via.app_name via.instance_id) metrics.applications) self in
        record registered { metrics = sink_metrics metrics.metrics registered.metrics }

    -- whether a token has the environment of a metric
    abbrev pub belongs : EdgeToken → ClientMetricsEnv t → Bool
    belongs edge_token m = elim edge_token.environment [
      | none ↦ false
      | some e ↦ e == m.environment
    ]

    unfoldable pub register_bulk_metrics :
        ConnectVia → EdgeToken → MetricsBatch t → MetricsCache → MetricsCache
    register_bulk_metrics via edge_token metrics self =
        sink_bulk_metrics (record metrics { metrics = filter (belongs edge_token) metrics.metrics })
          via self

    -- `ulid` is the text that a missing instance id is replaced by
    unfoldable pub register_client_application :
        EdgeToken → ConnectVia → ClientApplication t → String → MetricsCache → MetricsCache
    register_client_application edge_token via client_application ulid self =
        let to_write = record (connect_via via.app_name via.instance_id client_application) {
          environment = edge_token.environment;
        } in
        let key : ApplicationKey = record {
          app_name = to_write.app_name;
          instance_id = unwrap_or to_write.instance_id ulid;
        } in
        record self { applications = Dict.insert key to_write self.applications }

  unfoldable pub register_client_metrics :
      (t.Bucket → String → String → t.Metadata → List (ClientMetricsEnv t))
      → EdgeToken
      → t.Bucket
      → String
      → t.Metadata
      → MetricsCache
      → MetricsCache
  register_client_metrics from_bucket edge_token bucket app_name metadata self = record self {
    metrics =
        sink_metrics
          (from_bucket bucket app_name (unwrap_or edge_token.environment "development") metadata)
          self.metrics;
  }
