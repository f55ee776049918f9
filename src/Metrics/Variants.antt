-- ===== src/Metrics/Variants.antt =====
-- The counts of the variants of a metric.
use unleash_edge.Prelude.{
  ℕ, ◌+◌, ◌%◌, ◌^◌, ◌<◌, ◌≡◌, refl, ◌∙◌, String, false, [], ◌∷◌, arith, string_eq, ◌==◌, unwrap_or,
  if◌then◌else◌, Bool-cases, inl, inr,
}
use unleash_edge.Dict
use unleash_edge.Dict.{Dict}
use unleash_edge.Dict.Unique.{IsUnique, same_key}
use unleash_edge.Metrics.Data.{MetricsTypes, ClientMetricsEnv}
use unleash_edge.Metrics.Cache.{add_count, add_variants, add_metric}

-- the sum of the entries of a variant
abbrev pub sum_of : String → Dict String ℕ → ℕ
sum_of v [] = 0
sum_of v ((k, n) ∷ l) = (if k == v then n else 0) + sum_of v l

-- In a table with each variant once, that is the entry.
sum_of-absent : (v : String) (l : Dict String ℕ) → Dict.contains_key v l ≡ false → sum_of v l ≡ 0
unfolding Dict.contains_key
sum_of-absent v [] h = refl
sum_of-absent v ((k, n) ∷ l) h = ground (arith, sum_of-absent v l)

pub sum_of-get :
    (v : String) (l : Dict String ℕ) → IsUnique l → sum_of v l ≡ unwrap_or (Dict.get v l) 0
unfolding Dict.get
sum_of-get v [] h = refl
sum_of-get v ((k, n) ∷ l) (fresh, rest) = elim (Bool-cases (k == v)) [
  | inl y ↦ rw y (ground (arith, sum_of-absent v l (same_key v k l y ∙ fresh)))
  | inr o ↦ let ih = sum_of-get v l rest in rw o (omega arith)
]

sum-upsert :
    (v k : String) (a : ℕ) (m : Dict String ℕ)
    → sum_of v (Dict.upsert k (λ count. add_count count a) a m) % 2 ^ 32
      ≡ (sum_of v m + (if k == v then a else 0)) % 2 ^ 32
unfolding Dict.upsert
sum-upsert v k a [] = omega arith
sum-upsert v k a ((i, n) ∷ m) = elim (Bool-cases (i == k)) [
  | inl y ↦
      let same = string_eq.beq_congr i k v y in
      elim (Bool-cases (k == v)) [
        | inl z ↦ rw (y, same, z) (omega arith)
        | inr z ↦ rw (y, same, z) (omega arith)
      ]
  | inr o ↦ let rest = sum-upsert v k a m in rw o (omega arith)
]

module _ (t : MetricsTypes) where
  sum-add_variants :
      (v : String) (l m : Dict String ℕ)
      → sum_of v (add_variants t l m) % 2 ^ 32 ≡ (sum_of v m + sum_of v l) % 2 ^ 32
  unfolding add_variants
  sum-add_variants v [] m = omega arith
  sum-add_variants v ((k, a) ∷ l) m =
      let first = sum-upsert v k a m in
      let rest = sum-add_variants v l (Dict.upsert k (λ count. add_count count a) a m) in
      omega arith

  -- what a metric counts for a variant, as a `u32`
  abbrev pub variant_count : String → ClientMetricsEnv t → ℕ
  variant_count v x = sum_of v x.variants % 2 ^ 32

  pub variant_adds :
      (v : String) (x s : ClientMetricsEnv t)
      → variant_count v (add_metric t x s) ≡ add_count (variant_count v s) (variant_count v x)
  unfolding add_metric
  variant_adds v x s = let sums = sum-add_variants v x.variants s.variants in omega arith

  pub variant_count_bounded : (v : String) (x : ClientMetricsEnv t) → variant_count v x < 2 ^ 32
  variant_count_bounded v x = omega arith
