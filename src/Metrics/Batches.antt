-- ===== src/Metrics/Batches.antt =====
-- server/src/metrics/client_metrics.rs: what is taken out of the cache to be sent, and how it is cut.
-- The size of a batch as JSON text is a parameter.
use unleash_edge.Prelude.{
  ℕ, ◌+◌, ◌*◌, ◌/◌, String, Bool, not, ◌&&◌, ◌||◌, List, [], ◌∷◌, ◌++◌, map, string_eq, ltb, ◌=ℕ◌,
  length, is_empty, filter, take, skip, range_from, if◌then◌else◌,
}
use unleash_edge.Dict
use unleash_edge.Dict.{Dict, values}
use unleash_edge.Metrics.Data.{
  MetricsTypes, ClientApplication, ClientMetricsEnv, MetricsBatch, ApplicationKey, MetricsKey,
  metrics_key_eq, application_key_eq, application_key, metrics_key,
}
use unleash_edge.Metrics.Cache.{MetricsCache}

abbrev pub upstream_max_body_size : ℕ
upstream_max_body_size = 100 * 1024

abbrev pub batch_body_size : ℕ
batch_body_size = 95 * 1024

-- `skip(counter * per_batch).take(…)` in `cut_into_sendable_batches`
unfoldable pub chunk {ℓ} : {A : Type ℓ} → ℕ → List A → ℕ → List A
chunk per_batch items counter =
    take (if per_batch =ℕ 0 && counter =ℕ 0 then length items else per_batch)
      (skip (counter * per_batch) items)

-- `into_group_map_by` and the insertions: a group for each environment, in the order of the metrics
unfoldable pub group_by_environment :
    (t : MetricsTypes)
    → List (ClientMetricsEnv t)
    → Dict String (List (ClientMetricsEnv t))
    → Dict String (List (ClientMetricsEnv t))
group_by_environment t [] groups = groups
group_by_environment t (m ∷ rest) groups =
    group_by_environment t rest
      (Dict.upsert m.environment (λ group. group ++ m ∷ []) (m ∷ []) groups)

module _ (t : MetricsTypes) where
  unfoldable pub remove_applications :
      List (ClientApplication t)
      → Dict ApplicationKey (ClientApplication t)
      → Dict ApplicationKey (ClientApplication t)
  remove_applications [] m = m
  remove_applications (a ∷ rest) m = remove_applications rest (Dict.remove (application_key t a) m)

  unfoldable pub remove_metrics :
      List (ClientMetricsEnv t)
      → Dict MetricsKey (ClientMetricsEnv t)
      → Dict MetricsKey (ClientMetricsEnv t)
  remove_metrics [] m = m
  remove_metrics (a ∷ rest) m = remove_metrics rest (Dict.remove (metrics_key t a) m)

  abbrev pub has_counts : ClientMetricsEnv t → Bool
  has_counts m = ltb 0 m.yes || ltb 0 m.no

  -- everything that has counts
  unfoldable pub due_batch : MetricsCache t → MetricsBatch t
  due_batch self = record {
    applications = values self.applications;
    metrics = filter has_counts (values self.metrics);
  }

module _ (t : MetricsTypes) (size_of_batch : MetricsBatch t → ℕ) where
  unfoldable pub sendable : MetricsBatch t → Bool
  sendable batch = ltb (size_of_batch batch) upstream_max_body_size

  abbrev pub batch_count : MetricsBatch t → ℕ
  batch_count batch = size_of_batch batch / batch_body_size + 1

  unfoldable pub cut : MetricsBatch t → ℕ → MetricsBatch t
  cut batch counter = record {
    applications = chunk (length batch.applications / batch_count batch) batch.applications counter;
    metrics = chunk (length batch.metrics / batch_count batch) batch.metrics counter;
  }

  abbrev pub has_content : MetricsBatch t → Bool
  has_content b = not (is_empty b.applications) || not (is_empty b.metrics)

  unfoldable pub cut_into_sendable_batches : MetricsBatch t → List (MetricsBatch t)
  cut_into_sendable_batches batch =
      filter has_content (map (cut batch) (range_from 0 (batch_count batch + 1)))

  unfoldable pub get_metrics_by_environment : MetricsCache t → Dict String (MetricsBatch t)
  get_metrics_by_environment self =
      map (λ g. (g.0, record { applications = values self.applications; metrics = g.1 }))
        (group_by_environment t (values self.metrics) [])

  -- the cache without the batch, and the batches to send
  unfoldable pub get_appropriately_sized_env_batches :
      MetricsBatch t → MetricsCache t → MetricsCache t × List (MetricsBatch t)
  get_appropriately_sized_env_batches batch self = (
    record {
      applications = remove_applications t batch.applications self.applications;
      metrics = remove_metrics t batch.metrics self.metrics;
    },
    if sendable batch then batch ∷ [] else cut_into_sendable_batches batch,
  )

  -- `get_appropriately_sized_batches` ends in the same way
  unfoldable pub get_appropriately_sized_batches :
      MetricsCache t → MetricsCache t × List (MetricsBatch t)
  get_appropriately_sized_batches self = get_appropriately_sized_env_batches (due_batch t self) self
