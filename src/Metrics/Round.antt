-- ===== src/Metrics/Round.antt =====
-- The metrics of an environment, taken out and put back: every count is as it was.
use unleash_edge.Prelude.{
  mem_of_mem-filter, ℕ, ◌^◌, ◌<◌, ◌≡◌, refl, sym, ◌∙◌, ap, String, Bool, true, false, List, [], ◌∷◌,
  arith, string_eq, ◌==◌, filter, any, Bool-cases, inl, inr, if◌then◌else◌,
}
use unleash_edge.Dict
use unleash_edge.Dict.{Dict, values}
use unleash_edge.Dict.Laws.{get-remove}
use unleash_edge.Metrics.Data.{
  MetricsTypes, ClientMetricsEnv, MetricsKey, metrics_key_eq, metrics_key,
}
use unleash_edge.Metrics.Cache.{add_count, add_metric, sink_metrics}
use unleash_edge.Metrics.Batches.{remove_metrics}
use unleash_edge.Metrics.Totals.{count_of, total, IsBounded, sink_count}
use unleash_edge.Metrics.Groups.{of_environment}

module _ (t : MetricsTypes) where
  -- whether a list has a metric with the key
  abbrev has_key : MetricsKey → List (ClientMetricsEnv t) → Bool
  has_key k l = any (λ x. metrics_key t x == k) l

  key_environment :
      (x : ClientMetricsEnv t) (k : MetricsKey)
      → metrics_key t x == k ≡ true
      → x.environment == k.environment ≡ true
  key_environment x k h = ground arith

  has_key-environment :
      (env : String) (l : List (ClientMetricsEnv t)) (k : MetricsKey)
      → has_key k (of_environment t env l) ≡ true
      → k.environment == env ≡ true
  unfolding any filter
  has_key-environment env [] k h = absurd (ground arith)
  has_key-environment env (x ∷ l) k h = elim (Bool-cases (x.environment == env)) [
    | inl y ↦ elim (Bool-cases (metrics_key t x == k)) [
      | inl same ↦
          sym (string_eq.beq_congr x.environment k.environment env (key_environment x k same)) ∙ y
      | inr other ↦ has_key-environment env l k (rw (y, other) at h)
    ]
    | inr n ↦ has_key-environment env l k (rw n at h)
  ]

  module _ (count : ClientMetricsEnv t → ℕ) where
    count_of-remove :
        (l : List (ClientMetricsEnv t)) (m : Dict MetricsKey (ClientMetricsEnv t)) (k : MetricsKey)
        → count_of t count k (remove_metrics t l m)
          ≡ (if has_key k l then 0 else count_of t count k m)
    unfolding any remove_metrics
    count_of-remove [] m k = refl
    count_of-remove (x ∷ l) m k =
        count_of-remove l (Dict.remove (metrics_key t x) m) k
        ∙ ground (arith, get-remove k (metrics_key t x) m)

    total-absent :
        (l : List (ClientMetricsEnv t)) (k : MetricsKey)
        → has_key k l ≡ false
        → total t count k l ≡ 0
    unfolding any
    total-absent [] k h = refl
    total-absent (x ∷ l) k h = ground (arith, total-absent l k)

    total-environment :
        (env : String) (l : List (ClientMetricsEnv t)) (k : MetricsKey)
        → k.environment == env ≡ true
        → total t count k (of_environment t env l) ≡ total t count k l
    unfolding filter
    total-environment env [] k h = refl
    total-environment env (x ∷ l) k h = elim (Bool-cases (metrics_key t x == k)) [
      | inl same ↦
          let own : x.environment == env ≡ true =
            string_eq.beq_congr x.environment k.environment env (key_environment x k same) ∙ h in
          rw (own, same) (let rest = total-environment env l k h in omega arith)
      | inr other ↦ elim (Bool-cases (x.environment == env)) [
        | inl y ↦ rw (y, other) (let rest = total-environment env l k h in omega arith)
        | inr n ↦ rw (n, other) (let rest = total-environment env l k h in omega arith)
      ]
    ]

    -- what an environment loses by the removal it has again after the batch is put back
    pub round :
        (adds : (x s : ClientMetricsEnv t)
          → count (add_metric t x s) ≡ add_count (count s) (count x))
        (env : String) (all : List (ClientMetricsEnv t)) (m : Dict MetricsKey (ClientMetricsEnv t))
        (k : MetricsKey)
        → IsBounded t count all
        → total t count k all < 2 ^ 32
        → count_of t count k m ≡ total t count k all
        → count_of t count k (
            sink_metrics t
              (of_environment t env all)
              (remove_metrics t (of_environment t env all) m))
          ≡ total t count k all
    round adds env all m k bounded top h =
        let l = of_environment t env all in
        let gone = count_of-remove l m k in
        let small : IsBounded t count l = λ x n. bounded x (mem_of_mem-filter _ all n).0 in
        elim (Bool-cases (has_key k l)) [
          | inl y ↦
              let left : count_of t count k (remove_metrics t l m) ≡ 0 =
                gone ∙ ap (λ b. if b then 0 else count_of t count k m) y in
              let part = total-environment env all k (has_key-environment env all k y) in
              sink_count t count adds l (remove_metrics t l m) k small (omega arith) ∙ omega arith
          | inr n ↦
              let left : count_of t count k (remove_metrics t l m) ≡ count_of t count k m =
                gone ∙ ap (λ b. if b then 0 else count_of t count k m) n in
              let part = total-absent l k n in
              sink_count t count adds l (remove_metrics t l m) k small (omega arith) ∙ omega arith
        ]
