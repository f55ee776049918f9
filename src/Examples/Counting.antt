-- ===== src/Examples/Counting.antt =====
-- The theorems on metrics at concrete inputs.

use mathlib.Core.List.Memᴰ
use unleash_edge.Prelude.{
  ℕ, ◌≡◌, refl, String, Bool, true, some, [], ◌∷◌, Memᴰ, map, arith, none, inr, string_eq, flatten,
  filter, any,
}
use unleash_edge.Dict
use unleash_edge.Dict.{Dict, values}
use unleash_edge.Error.{EdgeError, Result, err}
use unleash_edge.Metrics.Data.{
  MetricsTypes, ClientMetricsEnv, MetricsBatch, MetricsKey, metrics_key, metrics_key_eq,
}
use unleash_edge.Metrics.Cache.{MetricsCache, add_count, sink_metrics, reinsert_batch}
use unleash_edge.Metrics.Batches.{
  sendable, cut_into_sendable_batches, get_appropriately_sized_env_batches,
  get_metrics_by_environment,
}
use unleash_edge.Metrics.Cutting.{cut_lossless_iff}
use unleash_edge.Metrics.Totals.{IsBounded, count_of, total, sink_metrics_counts}
use unleash_edge.Metrics.Variants.{variant_count}
use unleash_edge.Metrics.Indexed.{IsIndexed}
use unleash_edge.Metrics.Reinsert.{reinsert_conserves}
use unleash_edge.Metrics.Conserved.{turn_conserves}
use unleash_edge.Metrics.Sender.{Sender, send_metrics_turn}
use unleash_edge.Metrics.Backoff.{is_retried, answered, busy_failures}

abbrev types : MetricsTypes
types = record { AppDetails = ℕ; Metadata = ℕ; Bucket = ℕ }

abbrev usage : String → ℕ → ClientMetricsEnv types
usage feature n = record {
  app_name = "app";
  feature_name = feature;
  environment = "development";
  timestamp = 7200000;
  yes = n;
  no = 1;
  variants = ("blue", n) ∷ [];
  metadata = 0;
}

-- five metrics that are planned as three batches
abbrev five : MetricsBatch types
five = record {
  applications = [];
  metrics = usage "a" 1 ∷ usage "b" 1 ∷ usage "c" 1 ∷ usage "d" 1 ∷ usage "e" 1 ∷ [];
}

abbrev large : MetricsBatch types → ℕ
large _ = 200000

-- four metrics that are planned as three batches
abbrev four : MetricsBatch types
four = record {
  applications = [];
  metrics = usage "a" 1 ∷ usage "b" 1 ∷ usage "c" 1 ∷ usage "d" 1 ∷ [];
}

cut_lossless_iff_example :
    flatten (map (λ b. b.metrics) (cut_into_sendable_batches types large four)) ≡ four.metrics
cut_lossless_iff_example = (cut_lossless_iff types large four).1 (inr (omega arith))

abbrev one : Dict MetricsKey (ClientMetricsEnv types)
one = (metrics_key types (usage "a" 3), usage "a" 3) ∷ []

small : IsBounded types (λ x. x.yes) (usage "a" 4 ∷ [])
small x (Memᴰ.head e) = rw e (omega arith)
small x (Memᴰ.tail m) = absurd (Memᴰ.not-nil m)

small_no : IsBounded types (λ x. x.no) (usage "a" 4 ∷ [])
small_no x (Memᴰ.head e) = rw e (omega arith)
small_no x (Memᴰ.tail m) = absurd (Memᴰ.not-nil m)

sink_metrics_counts_example :
    (count_of types
        (λ x. x.yes)
        (metrics_key types (usage "a" 4))
        (sink_metrics types (usage "a" 4 ∷ []) one)
      ≡ 7)
    × (count_of types
          (λ x. x.no)
          (metrics_key types (usage "a" 4))
          (sink_metrics types (usage "a" 4 ∷ []) one)
        ≡ 2)
    × ((v : String)
        → count_of types
            (variant_count types v)
            (metrics_key types (usage "a" 4))
            (sink_metrics types (usage "a" 4 ∷ []) one)
          ≡ add_count
              (count_of types (variant_count types v) (metrics_key types (usage "a" 4)) one)
              (total types
                (variant_count types v)
                (metrics_key types (usage "a" 4))
                (usage "a" 4 ∷ [])))
unfolding Dict.get
sink_metrics_counts_example =
    sink_metrics_counts types (usage "a" 4 ∷ []) one (metrics_key types (usage "a" 4)) small
      small_no (omega arith) (omega arith)

one-IsIndexed : IsIndexed types one
unfolding Dict.contains_key
one-IsIndexed = (refl, refl, tt)

abbrev cache : MetricsCache types
cache = record { applications = []; metrics = one }

one_yes : IsBounded types (λ x. x.yes) (values one)
one_yes x (Memᴰ.head e) = rw e (omega arith)
one_yes x (Memᴰ.tail m) = absurd (Memᴰ.not-nil m)

one_no : IsBounded types (λ x. x.no) (values one)
one_no x (Memᴰ.head e) = rw e (omega arith)
one_no x (Memᴰ.tail m) = absurd (Memᴰ.not-nil m)

abbrev batch : MetricsBatch types
batch = record { applications = []; metrics = filter (λ _. true) (values one) }

reinsert_conserves_example :
    count_of types
      (variant_count types "blue")
      (metrics_key types (usage "a" 3))
      (reinsert_batch types batch
        (get_appropriately_sized_env_batches types large batch cache).0).metrics
    ≡ 3
unfolding Dict.get
reinsert_conserves_example =
    (reinsert_conserves types large (λ _. true) cache (metrics_key types (usage "a" 3))
        one-IsIndexed one_yes one_no).2
      "blue"

abbrev sender : Sender types
sender = record { cache = cache; failures = 10; interval = 660 }

abbrev unanswered : Bool × String → MetricsBatch types → Result (Unit {0})
unanswered _ _ = err EdgeError.edge_metrics_error

busy_failures_example :
    ((answered types 60 ((batch, 503) ∷ (batch, 429) ∷ []) sender).failures ≡ 12)
    × ((answered types 60 ((batch, 503) ∷ (batch, 429) ∷ []) sender).interval ≡ 780)
unfolding any
busy_failures_example =
    busy_failures types 60 ((batch, 503) ∷ (batch, 429) ∷ []) sender (refl, (refl, tt))
      (omega arith) refl

abbrev struggling : Bool × String → MetricsBatch types → Result (Unit {0})
struggling _ _ = err (EdgeError.edge_metrics_request_error 503 none)

retried :
    (target : Bool × String) (b : MetricsBatch types) → is_retried (struggling target b) ≡ true
unfolding any
retried target b = refl

abbrev little : MetricsBatch types → ℕ
little _ = 500

fits :
    (env : String) (b : MetricsBatch types)
    → Dict.get env (get_metrics_by_environment types little sender.cache) ≡ some b
    → sendable types little b ≡ true
unfolding sendable
fits env b h = refl

turn_conserves_example :
    (count_of types
        (λ x. x.yes)
        (metrics_key types (usage "a" 3))
        (send_metrics_turn types little struggling 60 [] sender).cache.metrics
      ≡ 3)
    × (count_of types
          (λ x. x.no)
          (metrics_key types (usage "a" 3))
          (send_metrics_turn types little struggling 60 [] sender).cache.metrics
        ≡ 1)
    × ((v : String)
        → count_of types
            (variant_count types v)
            (metrics_key types (usage "a" 3))
            (send_metrics_turn types little struggling 60 [] sender).cache.metrics
          ≡ count_of types (variant_count types v) (metrics_key types (usage "a" 3)) one)
unfolding Dict.get
turn_conserves_example =
    turn_conserves types 60 little struggling retried [] sender fits one-IsIndexed
      (metrics_key types (usage "a" 3)) one_yes one_no
