-- ===== src/Examples/Features.antt =====
-- The theorems on features and their cache at concrete inputs.

use unleash_edge.Prelude.{
  ℕ, ◌≡◌, refl, true, false, none, [], ◌∷◌, Memᴰ, arith, inr, string_eq, leb,
}
use unleash_edge.Dict.{contains}
use unleash_edge.Filters.{filter_client_features, query_filters}
use unleash_edge.Filters.Access.{filter_client_features_iff}
use unleash_edge.FeatureCache.{FeatureCache, update_client_features}
use unleash_edge.FeatureCache.Merge.{update_features_iff}
use unleash_edge.FeatureCache.Notify.{CacheOp}
use unleash_edge.Examples.Samples.{
  sample_types, sample_engine, features_of, toggle, banner, project_token,
}

filter_client_features_iff_example :
    Memᴰ toggle
      (filter_client_features sample_types
        (features_of (banner ∷ toggle ∷ []))
        (query_filters sample_types none ("a" ∷ []))).features
unfolding contains
filter_client_features_iff_example =
    (filter_client_features_iff sample_types none ("a" ∷ []) (features_of (banner ∷ toggle ∷ []))
        toggle).1
      (Memᴰ.tail (Memᴰ.head refl)) ("a", refl, inr (inr refl))

update_features_iff_example :
    Memᴰ banner
      (update_client_features sample_types project_token
        (features_of (banner ∷ toggle ∷ []))
        (features_of [])).features
unfolding contains
update_features_iff_example =
    (update_features_iff sample_types project_token (features_of (banner ∷ toggle ∷ []))
        (features_of []) banner).2
      (Memᴰ.head refl) refl refl

leb_total : (a b : ℕ) → leb a b ≡ false → leb b a ≡ true
leb_total a b h = ground arith

abbrev cache : FeatureCache sample_types
cache = record { features = ("development", features_of (banner ∷ [])) ∷ []; sent = [] }

abbrev removal : CacheOp sample_types sample_engine
removal = CacheOp.remove_features "development"
