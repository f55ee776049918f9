-- ===== src/Metrics/Conserved.antt =====
-- A turn of the sender while upstream is out of order: every count is still in the cache.

use unleash_edge.Prelude.{
  ℕ, ◌^◌, ◌<◌, ◌≡◌, refl, sym, ◌∙◌, ap, String, Bool, true, false, not, ◌||◌, some, List, [], ◌∷◌,
  arith, string_eq, is_empty, Bool-cases, inl, inr,
}
use unleash_edge.Dict
use unleash_edge.Dict.{Dict, values}
use unleash_edge.Error.{Result}
use unleash_edge.Types.{TokenRefresh}
use unleash_edge.Metrics.Data.{
  MetricsTypes, ClientApplication, ClientMetricsEnv, MetricsBatch, MetricsKey, metrics_key_eq,
}
use unleash_edge.Metrics.Cache.{MetricsCache, add_count, add_metric, sink_metrics, reinsert_batch}
use unleash_edge.Metrics.Batches.{
  remove_metrics, sendable, has_content, get_metrics_by_environment,
  get_appropriately_sized_env_batches,
}
use unleash_edge.Metrics.Indexed.{IsIndexed}
use unleash_edge.Metrics.Variants.{variant_count, variant_adds, variant_count_bounded}
use unleash_edge.Metrics.Totals.{count_of, total, IsBounded, yes_adds, no_adds}
use unleash_edge.Metrics.Reinsert.{count_of-total, count_of-bounded, registered_metrics}
use unleash_edge.Metrics.Distinct.{groups-IsUnique, of_group}
use unleash_edge.Dict.Unique.{IsUnique, mapped-IsUnique, get-tail}
use unleash_edge.Metrics.Round.{round}
use unleash_edge.Metrics.Groups.{of_environment, environment_batch}
use unleash_edge.Metrics.Sender.{
  Sender, decide_where_to_post, send_batches, send_environments, send_metrics_turn,
}
use unleash_edge.Metrics.Backoff.{is_retried, handle_result_cache}

module _ (t : MetricsTypes) where
  sink_nothing :
      (apps : List (ClientApplication t)) (l : List (ClientMetricsEnv t))
      (m : Dict MetricsKey (ClientMetricsEnv t))
      → (not (is_empty apps) || not (is_empty l)) ≡ false
      → m ≡ sink_metrics t l m
  unfolding sink_metrics
  sink_nothing apps [] m h = refl
  sink_nothing apps (x ∷ l) m h = absurd (ground arith)

  module _ (send_interval : ℕ) (size_of_batch : MetricsBatch t → ℕ)
      (send : Bool × String → MetricsBatch t → Result (Unit {0}))
      (retried : (target : Bool × String) (b : MetricsBatch t)
        → is_retried (send target b) ≡ true) where
    reinserted :
        (b : MetricsBatch t) (self : MetricsCache t)
        → (reinsert_batch t b self).metrics ≡ sink_metrics t b.metrics self.metrics
    unfolding reinsert_batch
    reinserted b self = ap (sink_metrics t b.metrics) (registered_metrics t b.applications self)

    one_sent :
        (target : Bool × String) (b : MetricsBatch t) (s : Sender t)
        → (send_batches t size_of_batch send send_interval target (b ∷ []) s).cache.metrics
          ≡ sink_metrics t b.metrics s.cache.metrics
    unfolding send_batches
    one_sent target b s = elim (Bool-cases (has_content t size_of_batch b)) [
      | inl y ↦ rw y (
          ap (λ c. c.metrics) (handle_result_cache t send_interval b (send target b) s)
          ∙ rw (retried target b) (reinserted b s.cache))
      | inr n ↦ rw n (sink_nothing b.applications b.metrics s.cache.metrics n)
    ]

    sent :
        (target : Bool × String) (b : MetricsBatch t) (s : Sender t)
        → sendable t size_of_batch b ≡ true
        → let (cache, batches) = get_appropriately_sized_env_batches t size_of_batch b s.cache in
          (send_batches t size_of_batch send send_interval target batches
            (record s { cache = cache })).cache.metrics
          ≡ sink_metrics t b.metrics (remove_metrics t b.metrics s.cache.metrics)
    unfolding get_appropriately_sized_env_batches
    sent target b s h = rw h (
        one_sent target b
          (record s { cache = (get_appropriately_sized_env_batches t size_of_batch b s.cache).0 }))

    module _ (count : ClientMetricsEnv t → ℕ)
        (adds : (x s : ClientMetricsEnv t)
          → count (add_metric t x s) ≡ add_count (count s) (count x))
        (known_tokens : Dict String TokenRefresh) (all : List (ClientMetricsEnv t)) (k : MetricsKey)
        (bounded : IsBounded t count all) (top : total t count k all < 2 ^ 32) where
      -- a batch that fits into one request and has all the metrics of its environment
      abbrev IsWhole : Dict String (MetricsBatch t) → Type 0
      IsWhole l =
          (env : String) (b : MetricsBatch t)
          → Dict.get env l ≡ some b
          → (sendable t size_of_batch b ≡ true) × (b.metrics ≡ of_environment t env all)

      environments_conserve :
          (l : Dict String (MetricsBatch t)) (s : Sender t)
          → IsUnique l
          → IsWhole l
          → count_of t count k s.cache.metrics ≡ total t count k all
          → count_of t count k
              (send_environments t size_of_batch send send_interval known_tokens l s).cache.metrics
            ≡ total t count k all
      unfolding send_environments Dict.get
      environments_conserve [] s unique whole h = h
      environments_conserve ((env, b) ∷ l) s (fresh, unique) whole h =
          let (fits, same) = whole env b (rw (string_eq.beq_refl env) refl) in
          let target = decide_where_to_post env known_tokens in
          environments_conserve l _ unique (λ i w g. whole i w (get-tail i env b w l fresh g))
            (ap (count_of t count k) (sent target b s fits)
              ∙ (ap
                    (λ x.
                      count_of t count k (sink_metrics t x (remove_metrics t x s.cache.metrics)))
                    same
                  ∙ round t count adds env all s.cache.metrics k bounded top h))

    module _ (known_tokens : Dict String TokenRefresh) (s : Sender t)
        (fits : (env : String) (b : MetricsBatch t)
          → Dict.get env (get_metrics_by_environment t size_of_batch s.cache) ≡ some b
          → sendable t size_of_batch b ≡ true)
        (indexed : IsIndexed t s.cache.metrics) where
      count_conserved :
          (count : ClientMetricsEnv t → ℕ)
          (adds : (x s : ClientMetricsEnv t)
            → count (add_metric t x s) ≡ add_count (count s) (count x))
          (k : MetricsKey)
          → IsBounded t count (values s.cache.metrics)
          → count_of t count k
              (send_metrics_turn t size_of_batch send send_interval known_tokens s).cache.metrics
            ≡ count_of t count k s.cache.metrics
      unfolding send_metrics_turn get_metrics_by_environment
      count_conserved count adds k bounded =
          let all = values s.cache.metrics in
          let held = count_of-total t count s.cache.metrics k indexed in
          let top = count_of-bounded t count s.cache.metrics k bounded in
          environments_conserve count adds known_tokens all k bounded (omega arith)
            (get_metrics_by_environment t size_of_batch s.cache) s
            (mapped-IsUnique _ _ (groups-IsUnique t all [] tt))
            (λ env b g. (
              fits env b g,
              of_group t _ _ b (sym (environment_batch t size_of_batch s.cache env) ∙ g),
            ))
            held
          ∙ sym held

      -- While upstream answers every batch with a status that does not blame the batch, the endpoint or
      -- the token, a turn of the sender loses no count: for every key the cache counts afterwards what
      -- it counted before, those of the variants too. Each metric of the cache stands under its own key, once, its counts are `u32`
      -- values, and the metrics of each environment fit into one request.
      pub turn_conserves :
          (k : MetricsKey)
          → IsBounded t (λ x. x.yes) (values s.cache.metrics)
          → IsBounded t (λ x. x.no) (values s.cache.metrics)
          → let after =
              (send_metrics_turn t size_of_batch send send_interval known_tokens s).cache.metrics in
            (count_of t (λ x. x.yes) k after ≡ count_of t (λ x. x.yes) k s.cache.metrics)
            × (count_of t (λ x. x.no) k after ≡ count_of t (λ x. x.no) k s.cache.metrics)
            × ((v : String)
                → count_of t (variant_count t v) k after
                  ≡ count_of t (variant_count t v) k s.cache.metrics)
      turn_conserves k yes_bounded no_bounded = (
        count_conserved (λ x. x.yes) (yes_adds t) k yes_bounded,
        count_conserved (λ x. x.no) (no_adds t) k no_bounded,
        λ v.
            count_conserved (variant_count t v) (variant_adds t v) k
              (λ x _. variant_count_bounded t v x),
      )
