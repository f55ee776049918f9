-- ===== src/Metrics/Reinsert.antt =====
-- Metrics that are taken out of the cache and put back after a failed delivery: no count is lost.

use unleash_edge.Prelude.{
  mem_of_mem-filter, ℕ, ◌+◌, ◌^◌, ◌<◌, ◌≡◌, refl, ◌∙◌, ap, String, Bool, false, List, [], ◌∷◌, Memᴰ,
  arith, string_eq, ◌==◌, filter, Bool-cases, inl, inr,
}
use unleash_edge.Dict
use unleash_edge.Dict.{Dict, values}
use unleash_edge.Metrics.Data.{
  ClientApplication, MetricsTypes, ClientMetricsEnv, MetricsBatch, MetricsKey, metrics_key_eq,
  metrics_key,
}
use unleash_edge.Metrics.Cache.{
  register_applications, register_application, MetricsCache, add_count, add_metric, sink_metrics,
  reinsert_batch,
}
use unleash_edge.Metrics.Batches.{remove_metrics, get_appropriately_sized_env_batches}
use unleash_edge.Metrics.Removal.{others, remaining, others-IsIndexed}
use unleash_edge.Metrics.Indexed.{IsIndexed, contains_key-congr}
use unleash_edge.Metrics.Variants.{variant_count, variant_adds, variant_count_bounded}
use unleash_edge.Metrics.Totals.{count_of, total, IsBounded, sink_count, yes_adds, no_adds}

module _ (t : MetricsTypes) where
  module _ (count : ClientMetricsEnv t → ℕ) where
    absent_total :
        (m : Dict MetricsKey (ClientMetricsEnv t)) (k : MetricsKey)
        → IsIndexed t m
        → Dict.contains_key k m ≡ false
        → total t count k (values m) ≡ 0
    unfolding Dict.contains_key
    absent_total [] k h n = refl
    absent_total ((j, v) ∷ m) k (own, fresh, rest) n =
        ground
          (arith, own, n, absent_total m k rest, metrics_key_eq.beq_congr (metrics_key t v) j k)

    pub count_of-total :
        (m : Dict MetricsKey (ClientMetricsEnv t)) (k : MetricsKey)
        → IsIndexed t m
        → count_of t count k m ≡ total t count k (values m)
    unfolding Dict.get
    count_of-total [] k h = refl
    count_of-total ((j, v) ∷ m) k (own, fresh, rest) = elim (Bool-cases (j == k)) [
      | inl y ↦ ground (
        arith,
        y,
        own,
        metrics_key_eq.beq_congr (metrics_key t v) j k own,
        absent_total m k rest,
        contains_key-congr t j k m y,
      )
      | inr n ↦ ground (
        arith,
        n,
        own,
        metrics_key_eq.beq_congr (metrics_key t v) j k own,
        count_of-total m k rest,
      )
    ]

    total-filter :
        (p : ClientMetricsEnv t → Bool) (m : Dict MetricsKey (ClientMetricsEnv t)) (k : MetricsKey)
        → total t count k (values (others t p m)) + total t count k (filter p (values m))
          ≡ total t count k (values m)
    unfolding filter
    total-filter p [] k = omega arith
    total-filter p ((j, v) ∷ m) k =
        let rest = total-filter p m k in
        elim (Bool-cases (p v)) [ inl y ↦ rw y (omega arith) | inr n ↦ rw n (omega arith) ]

    pub count_of-bounded :
        (m : Dict MetricsKey (ClientMetricsEnv t)) (k : MetricsKey)
        → IsBounded t count (values m)
        → count_of t count k m < 2 ^ 32
    unfolding Dict.get
    count_of-bounded [] k h = omega arith
    count_of-bounded ((j, v) ∷ m) k h =
        ground (arith, h v (Memᴰ.head refl), count_of-bounded m k (λ x n. h x (Memᴰ.tail n)))

    taken_and_put_back :
        (adds : (x s : ClientMetricsEnv t)
          → count (add_metric t x s) ≡ add_count (count s) (count x))
        (p : ClientMetricsEnv t → Bool) (m : Dict MetricsKey (ClientMetricsEnv t)) (k : MetricsKey)
        → IsIndexed t m
        → IsBounded t count (values m)
        → count_of t count k
            (sink_metrics t (filter p (values m)) (remove_metrics t (filter p (values m)) m))
          ≡ count_of t count k m
    taken_and_put_back adds p m k h bounded =
        let batch = filter p (values m) in
        let rest = count_of-total (others t p m) k (others-IsIndexed t p m h) in
        let whole = count_of-total m k h in
        let parts = total-filter p m k in
        let gone = ap (count_of t count k) (remaining t p m h) in
        let top = count_of-bounded m k bounded in
        let put =
          sink_count t count adds batch (remove_metrics t batch m) k
            (λ x n. bounded x (mem_of_mem-filter p (values m) n).0) (omega arith) in
        put ∙ omega arith

  pub registered_metrics :
      (l : List (ClientApplication t)) (self : MetricsCache t)
      → (register_applications t l self).metrics ≡ self.metrics
  unfolding register_applications register_application
  registered_metrics [] self = refl
  registered_metrics (a ∷ l) self = registered_metrics l (register_application t a self)

  -- Taking any selection of the cache's metrics out, as a batch for upstream is, and putting the batch
  -- back after a failed delivery leaves every count as it was, those of the variants too. Each metric of the cache stands under
  -- its own key, once, and its counts are `u32` values.
  pub reinsert_conserves :
      (size_of_batch : MetricsBatch t → ℕ) (p : ClientMetricsEnv t → Bool) (self : MetricsCache t)
      (k : MetricsKey)
      → IsIndexed t self.metrics
      → IsBounded t (λ x. x.yes) (values self.metrics)
      → IsBounded t (λ x. x.no) (values self.metrics)
      → let batch : MetricsBatch t = record {
        applications = values self.applications;
        metrics = filter p (values self.metrics);
      } in
        let rest = (get_appropriately_sized_env_batches t size_of_batch batch self).0 in
        (count_of t (λ x. x.yes) k (reinsert_batch t batch rest).metrics
          ≡ count_of t (λ x. x.yes) k self.metrics)
        × (count_of t (λ x. x.no) k (reinsert_batch t batch rest).metrics
            ≡ count_of t (λ x. x.no) k self.metrics)
        × ((v : String)
            → count_of t (variant_count t v) k (reinsert_batch t batch rest).metrics
              ≡ count_of t (variant_count t v) k self.metrics)
  unfolding reinsert_batch get_appropriately_sized_env_batches
  reinsert_conserves size_of_batch p self k h yes_bounded no_bounded =
      let batch : MetricsBatch t = record {
        applications = values self.applications;
        metrics = filter p (values self.metrics);
      } in
      let rest = (get_appropriately_sized_env_batches t size_of_batch batch self).0 in
      let kept = registered_metrics (values self.applications) rest in
      (
        ap (λ m. count_of t (λ x. x.yes) k (sink_metrics t batch.metrics m)) kept
            ∙ taken_and_put_back (λ x. x.yes) (yes_adds t) p self.metrics k h yes_bounded,
        ap (λ m. count_of t (λ x. x.no) k (sink_metrics t batch.metrics m)) kept
            ∙ taken_and_put_back (λ x. x.no) (no_adds t) p self.metrics k h no_bounded,
        λ v.
            ap (λ m. count_of t (variant_count t v) k (sink_metrics t batch.metrics m)) kept
            ∙ taken_and_put_back (variant_count t v) (variant_adds t v) p self.metrics k h
                (λ x _. variant_count_bounded t v x),
      )
