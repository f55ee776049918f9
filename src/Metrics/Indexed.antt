-- ===== src/Metrics/Indexed.antt =====
-- The index of the metrics cache: one entry for each key, under its own key.
use unleash_edge.Prelude.{
  ◌≡◌, refl, ◌∙◌, true, false, List, [], ◌∷◌, arith, string_eq, ◌==◌, Bool-cases, inl, inr,
  beq_congr_right,
}
use unleash_edge.Dict
use unleash_edge.Dict.{Dict}
use unleash_edge.Metrics.Data.{
  MetricsTypes, ClientMetricsEnv, MetricsKey, metrics_key_eq, metrics_key,
}
use unleash_edge.Metrics.Cache.{add_metric, sink_metrics}

module _ (t : MetricsTypes) where
  -- Each entry stands under the key of its metric, and no key has two entries.
  abbrev pub IsIndexed : Dict MetricsKey (ClientMetricsEnv t) → Type 0
  IsIndexed [] = Unit
  IsIndexed ((j, v) ∷ m) =
      (metrics_key t v == j ≡ true) × (Dict.contains_key j m ≡ false) × IsIndexed m

  pub contains_key-congr :
      (i j : MetricsKey) (m : Dict MetricsKey (ClientMetricsEnv t))
      → i == j ≡ true
      → Dict.contains_key i m ≡ Dict.contains_key j m
  unfolding Dict.contains_key
  contains_key-congr i j [] h = refl
  contains_key-congr i j ((k, v) ∷ m) h =
      ground (arith, contains_key-congr i j m h, beq_congr_right k i j h)

  contains_key-upsert :
      (j k : MetricsKey) (f : ClientMetricsEnv t → ClientMetricsEnv t) (v : ClientMetricsEnv t)
      (m : Dict MetricsKey (ClientMetricsEnv t))
      → Dict.contains_key j m ≡ false
      → k == j ≡ false
      → Dict.contains_key j (Dict.upsert k f v m) ≡ false
  unfolding Dict.upsert Dict.contains_key
  contains_key-upsert j k f v [] h n = ground (arith, n)
  contains_key-upsert j k f v ((i, w) ∷ m) h n = ground (arith, h, n, contains_key-upsert j k f v m)

  upsert-IsIndexed :
      (x : ClientMetricsEnv t) (m : Dict MetricsKey (ClientMetricsEnv t))
      → IsIndexed m
      → IsIndexed (Dict.upsert (metrics_key t x) (add_metric t x) x m)
  unfolding Dict.upsert add_metric Dict.contains_key
  upsert-IsIndexed x [] h = (metrics_key_eq.beq_refl (metrics_key t x), refl, tt)
  upsert-IsIndexed x ((j, v) ∷ m) (own, fresh, rest) = elim (Bool-cases (j == metrics_key t x)) [
    | inl y ↦ rw y (own, fresh, rest)
    | inr n ↦ rw n (
      own,
      contains_key-upsert j (metrics_key t x) (add_metric t x) x m fresh
          (metrics_key_eq.beq_comm (metrics_key t x) j ∙ n),
      upsert-IsIndexed x m rest,
    )
  ]

  -- Putting metrics in keeps each metric of the cache under its own key, once.
  pub sink_metrics-IsIndexed :
      (l : List (ClientMetricsEnv t)) (m : Dict MetricsKey (ClientMetricsEnv t))
      → IsIndexed m
      → IsIndexed (sink_metrics t l m)
  unfolding sink_metrics
  sink_metrics-IsIndexed [] m h = h
  sink_metrics-IsIndexed (x ∷ xs) m h = sink_metrics-IsIndexed xs _ (upsert-IsIndexed x m h)
