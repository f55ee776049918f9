-- ===== src/Metrics/Distinct.antt =====
-- The groups of `get_metrics_by_environment`: each environment has one at most.
use mathlib.Core.Option
use unleash_edge.Prelude.{◌≡◌, String, some, List, [], ◌∷◌, ◌++◌, arith, string_eq}
use unleash_edge.Dict.{Dict}
use unleash_edge.Dict.Unique.{IsUnique, upsert-IsUnique}
use unleash_edge.Metrics.Data.{MetricsTypes, ClientMetricsEnv, MetricsBatch, metrics_key_eq}
use unleash_edge.Metrics.Batches.{group_by_environment}
use unleash_edge.Metrics.Groups.{not_empty}

module _ (t : MetricsTypes) where
  pub groups-IsUnique :
      (l : List (ClientMetricsEnv t)) (groups : Dict String (List (ClientMetricsEnv t)))
      → IsUnique groups
      → IsUnique (group_by_environment t l groups)
  unfolding group_by_environment
  groups-IsUnique [] groups h = h
  groups-IsUnique (m ∷ l) groups h =
      groups-IsUnique l _
        (upsert-IsUnique m.environment (λ group. group ++ m ∷ []) (m ∷ []) groups h)

  pub of_group :
      (apps : List _) (l : List (ClientMetricsEnv t)) (b : MetricsBatch t)
      → Option.map {B = MetricsBatch t}
          (λ metrics. record { applications = apps; metrics = metrics })
          (not_empty t l)
        ≡ some b
      → b.metrics ≡ l
  of_group apps [] b h = absurd (ground arith)
  of_group apps (x ∷ l) b h = ground arith
