-- ===== src/Metrics/Removal.antt =====
-- What is left of the cache's metrics when some of them are taken out.
use mathlib.Core.List.Memᴰ
use unleash_edge.Prelude.{
  mem_of_mem-filter, ◌≡◌, refl, ◌∙◌, ap, Bool, true, false, not, List, [], ◌∷◌, Memᴰ, arith,
  string_eq, ◌==◌, filter, Bool-cases, inl, inr,
}
use unleash_edge.Dict
use unleash_edge.Dict.{Dict, values}
use unleash_edge.Metrics.Data.{
  MetricsTypes, ClientMetricsEnv, MetricsKey, metrics_key_eq, metrics_key,
}
use unleash_edge.Metrics.Batches.{remove_metrics}
use unleash_edge.Metrics.Indexed.{IsIndexed, contains_key-congr}

module _ (t : MetricsTypes) where
  -- the entries that fail a test on their metric
  abbrev pub others :
      (ClientMetricsEnv t → Bool)
      → Dict MetricsKey (ClientMetricsEnv t)
      → Dict MetricsKey (ClientMetricsEnv t)
  others p m = filter (λ e. not (p e.1)) m

  -- removing a key that has no entry
  remove_absent :
      (j : MetricsKey) (m : Dict MetricsKey (ClientMetricsEnv t))
      → Dict.contains_key j m ≡ false
      → Dict.remove j m ≡ m
  unfolding Dict.remove Dict.contains_key
  remove_absent j [] h = refl
  remove_absent j ((k, v) ∷ m) h = ground (arith, remove_absent j m)

  -- an entry whose key no removed metric has stays in front
  remove_others :
      (l : List (ClientMetricsEnv t)) (j : MetricsKey) (v : ClientMetricsEnv t)
      (m : Dict MetricsKey (ClientMetricsEnv t))
      → ((x : ClientMetricsEnv t) → Memᴰ x l → j == metrics_key t x ≡ false)
      → remove_metrics t l ((j, v) ∷ m) ≡ (j, v) ∷ remove_metrics t l m
  unfolding remove_metrics Dict.remove
  remove_others [] j v m h = refl
  remove_others (x ∷ xs) j v m h =
      rw (h x (Memᴰ.head refl))
        (remove_others xs j v (Dict.remove (metrics_key t x) m) (λ y n. h y (Memᴰ.tail n)))

  -- a metric of the table has its key in it
  listed_key :
      (m : Dict MetricsKey (ClientMetricsEnv t)) (x : ClientMetricsEnv t)
      → IsIndexed t m
      → Memᴰ x (values m)
      → Dict.contains_key (metrics_key t x) m ≡ true
  unfolding Dict.contains_key
  listed_key [] x h n = absurd (Memᴰ.not-nil n)
  listed_key ((j, v) ∷ m) x (own, fresh, rest) n = elim (Memᴰ.cases_cons n) [
    | inl e ↦ rw e (ground (arith, own, metrics_key_eq.beq_comm j (metrics_key t v)))
    | inr n' ↦ ground (arith, listed_key m x rest n')
  ]

  remove_head :
      (j : MetricsKey) (v : ClientMetricsEnv t) (m : Dict MetricsKey (ClientMetricsEnv t))
      → metrics_key t v == j ≡ true
      → Dict.contains_key j m ≡ false
      → Dict.remove (metrics_key t v) ((j, v) ∷ m) ≡ m
  unfolding Dict.remove
  remove_head j v m own fresh = ground (
    arith,
    own,
    fresh,
    metrics_key_eq.beq_comm j (metrics_key t v),
    contains_key-congr t (metrics_key t v) j m own,
    remove_absent (metrics_key t v) m,
  )

  other_key :
      (j : MetricsKey) (m : Dict MetricsKey (ClientMetricsEnv t)) (x : ClientMetricsEnv t)
      → IsIndexed t m
      → Dict.contains_key j m ≡ false
      → Memᴰ x (values m)
      → j == metrics_key t x ≡ false
  other_key j m x h fresh n =
      ground (arith, fresh, listed_key m x h n, contains_key-congr t j (metrics_key t x) m)

  -- what a removal of some metrics of the table leaves
  pub remaining :
      (p : ClientMetricsEnv t → Bool) (m : Dict MetricsKey (ClientMetricsEnv t))
      → IsIndexed t m
      → remove_metrics t (filter p (values m)) m ≡ others p m
  unfolding filter remove_metrics Dict.remove
  remaining p [] h = refl
  remaining p ((j, v) ∷ m) (own, fresh, rest) = elim (Bool-cases (p v)) [
    | inl y ↦ rw y (
        ap (remove_metrics t (filter p (values m))) (remove_head j v m own fresh)
        ∙ remaining p m rest)
    | inr n ↦ rw n (
        remove_others (filter p (values m)) j v m
          (λ x o. other_key j m x rest fresh (mem_of_mem-filter p (values m) o).0)
        ∙ ap (λ l. (j, v) ∷ l) (remaining p m rest))
  ]

  others-contains_key :
      (p : ClientMetricsEnv t → Bool) (m : Dict MetricsKey (ClientMetricsEnv t)) (j : MetricsKey)
      → Dict.contains_key j m ≡ false
      → Dict.contains_key j (others p m) ≡ false
  unfolding filter Dict.contains_key
  others-contains_key p [] j h = refl
  others-contains_key p ((k, v) ∷ m) j h = elim (Bool-cases (p v)) [
    | inl y ↦ rw y (others-contains_key p m j (ground arith))
    | inr n ↦ rw n (ground (arith, others-contains_key p m j))
  ]

  pub others-IsIndexed :
      (p : ClientMetricsEnv t → Bool) (m : Dict MetricsKey (ClientMetricsEnv t))
      → IsIndexed t m
      → IsIndexed t (others p m)
  unfolding filter
  others-IsIndexed p [] h = tt
  others-IsIndexed p ((k, v) ∷ m) (own, fresh, rest) = elim (Bool-cases (p v)) [
    | inl y ↦ rw y (others-IsIndexed p m rest)
    | inr n ↦ rw n (own, others-contains_key p m k fresh, others-IsIndexed p m rest)
  ]
