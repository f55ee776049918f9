-- ===== src/Metrics/Totals.antt =====
-- What the cache counts: for each key, the sum of what was put in.
use unleash_edge.Prelude.{
  String, ℕ, ◌+◌, ◌^◌, ◌<◌, ◌≡◌, refl, ◌∙◌, ap, Bool, true, false, Option, none, some, List, [],
  ◌∷◌, Memᴰ, arith, string_eq, ◌==◌, if◌then◌else◌,
}
use unleash_edge.Dict
use unleash_edge.Dict.{Dict}
use unleash_edge.Dict.Laws.{get-upsert}
use unleash_edge.Metrics.Data.{
  MetricsTypes, ClientMetricsEnv, MetricsKey, metrics_key_eq, metrics_key,
}
use unleash_edge.Metrics.Variants.{variant_count, variant_adds, variant_count_bounded}
use unleash_edge.Metrics.Cache.{add_count, add_metric, sink_metrics}

wrapped : (a b c : ℕ) → a ≡ add_count b c → a < 2 ^ 32
wrapped a b c h = omega arith

added : (a b c : ℕ) → add_count (add_count a b) c ≡ add_count a (b + c)
added a b c = omega arith

module _ (t : MetricsTypes) (count : ClientMetricsEnv t → ℕ) where
  abbrev pub count_in : Option (ClientMetricsEnv t) → ℕ
  count_in none = 0
  count_in (some s) = count s

  -- what the table counts for a key
  abbrev pub count_of : MetricsKey → Dict MetricsKey (ClientMetricsEnv t) → ℕ
  count_of k m = count_in (Dict.get k m)

  -- the sum of the counts of the metrics of a list that have the key
  abbrev pub total : MetricsKey → List (ClientMetricsEnv t) → ℕ
  total k [] = 0
  total k (x ∷ xs) = (if metrics_key t x == k then count x else 0) + total k xs

  abbrev pub IsBounded : List (ClientMetricsEnv t) → Type 0
  IsBounded l = (x : ClientMetricsEnv t) → Memᴰ x l → count x < 2 ^ 32

  module _
      (adds : (x s : ClientMetricsEnv t)
        → count (add_metric t x s) ≡ add_count (count s) (count x)) where
    merged :
        (x : ClientMetricsEnv t) (o : Option (ClientMetricsEnv t)) (b : Bool)
        → count x < 2 ^ 32
        → count_in o < 2 ^ 32
        → count_in (if b then elim o [ none ↦ some x | some w ↦ some (add_metric t x w) ] else o)
          ≡ add_count (count_in o) (if b then count x else 0)
    merged x none true small bounded = omega arith
    merged x none false small bounded = omega arith
    merged x (some w) true small bounded = adds x w
    merged x (some w) false small bounded = omega arith

    count-upsert :
        (x : ClientMetricsEnv t) (m : Dict MetricsKey (ClientMetricsEnv t)) (k : MetricsKey)
        → count x < 2 ^ 32
        → count_of k m < 2 ^ 32
        → count_of k (Dict.upsert (metrics_key t x) (add_metric t x) x m)
          ≡ add_count (count_of k m) (if metrics_key t x == k then count x else 0)
    count-upsert x m k small bounded =
        ap count_in (get-upsert k (metrics_key t x) (add_metric t x) x m)
        ∙ merged x (Dict.get k m) (metrics_key t x == k) small bounded

    pub sink_count :
        (l : List (ClientMetricsEnv t)) (m : Dict MetricsKey (ClientMetricsEnv t)) (k : MetricsKey)
        → IsBounded l
        → count_of k m < 2 ^ 32
        → count_of k (sink_metrics t l m) ≡ add_count (count_of k m) (total k l)
    unfolding sink_metrics
    sink_count [] m k small bounded = omega arith
    sink_count (x ∷ xs) m k small bounded =
        let m' = Dict.upsert (metrics_key t x) (add_metric t x) x m in
        let first = count-upsert x m k (small x (Memᴰ.head refl)) bounded in
        let rest = sink_count xs m' k (λ y n. small y (Memᴰ.tail n)) (wrapped _ _ _ first) in
        rest
        ∙ (ap (λ c. add_count c (total k xs)) first
            ∙ added (count_of k m) (if metrics_key t x == k then count x else 0) (total k xs))

module _ (t : MetricsTypes) where
  pub yes_adds : (x s : ClientMetricsEnv t) → (add_metric t x s).yes ≡ add_count s.yes x.yes
  unfolding add_metric
  yes_adds x s = refl

  pub no_adds : (x s : ClientMetricsEnv t) → (add_metric t x s).no ≡ add_count s.no x.no
  unfolding add_metric
  no_adds x s = refl

  variant_counted :
      (v : String) (o : Option (ClientMetricsEnv t)) → count_in t (variant_count t v) o < 2 ^ 32
  variant_counted v none = omega arith
  variant_counted v (some s) = variant_count_bounded t v s

  -- For every key (application, feature, environment, hour) the cache counts, after metrics are put in,
  -- what it counted before and all the counts of the metrics with that key, in whatever order they
  -- come, modulo `2 ^ 32`: the uses, the refusals, and the uses of each variant. The first two are
  -- assumed to be `u32` values; what a table counts for a variant is the sum of its entries for it.
  pub sink_metrics_counts :
      (l : List (ClientMetricsEnv t)) (m : Dict MetricsKey (ClientMetricsEnv t)) (k : MetricsKey)
      → IsBounded t (λ x. x.yes) l
      → IsBounded t (λ x. x.no) l
      → count_of t (λ x. x.yes) k m < 2 ^ 32
      → count_of t (λ x. x.no) k m < 2 ^ 32
      → (count_of t (λ x. x.yes) k (sink_metrics t l m)
          ≡ add_count (count_of t (λ x. x.yes) k m) (total t (λ x. x.yes) k l))
        × (count_of t (λ x. x.no) k (sink_metrics t l m)
            ≡ add_count (count_of t (λ x. x.no) k m) (total t (λ x. x.no) k l))
        × ((v : String)
            → count_of t (variant_count t v) k (sink_metrics t l m)
              ≡ add_count (count_of t (variant_count t v) k m) (total t (variant_count t v) k l))
  sink_metrics_counts l m k yes_small no_small yes_bounded no_bounded = (
    sink_count t (λ x. x.yes) yes_adds l m k yes_small yes_bounded,
    sink_count t (λ x. x.no) no_adds l m k no_small no_bounded,
    λ v.
        sink_count t (variant_count t v) (variant_adds t v) l m k
          (λ x _. variant_count_bounded t v x) (variant_counted v (Dict.get k m)),
  )
