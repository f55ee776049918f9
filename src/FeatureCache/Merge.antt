-- ===== src/FeatureCache/Merge.antt =====
-- What an update keeps and replaces.
use Prim.Native.Nat.{max}
use mathlib.Core.List.Memᴰ
use unleash_edge.Prelude.{
  string_eq, is_some, ◌≡◌, ◌⊎◌, inl, inr, refl, Bool, true, false, not, arith, Memᴰ, Bool-cases,
  unwrap_or, mem-filter, mem_of_mem-filter,
}
use unleash_edge.Dict.{contains}
use unleash_edge.Features.{UnleashTypes, ClientFeatures}
use unleash_edge.Features.Sort.{sort-mem, mem_of_sort, IsSorted, sort-IsSorted}
use unleash_edge.Types.{EdgeToken}
use unleash_edge.FeatureCache.{update_projects_from_feature_update, update_client_features}

not-true : (b : Bool) → not b ≡ true → b ≡ false
not-true b h = ground arith

module _ (u : UnleashTypes) (token : EdgeToken) where
  open u use {Feature, project, feature_le}

  -- whether the token fetches for the feature's project
  abbrev pub in_reach : Feature → Bool
  in_reach f = contains token.projects (unwrap_or (project f) "default")

  -- Which features an update leaves: with the wildcard those of the update, else those of the update
  -- and the old ones whose project is out of the token's reach.
  pub update_features_iff :
      (old update : ClientFeatures u) (f : Feature)
      → (Memᴰ f (update_client_features u token old update).features
          → Memᴰ f update.features
            ⊎ (Memᴰ f old.features × (in_reach f ≡ false) × (contains token.projects "*" ≡ false)))
        × (Memᴰ f update.features → Memᴰ f (update_client_features u token old update).features)
        × (Memᴰ f old.features
            → in_reach f ≡ false
            → contains token.projects "*" ≡ false
            → Memᴰ f (update_client_features u token old update).features)
  unfolding update_client_features update_projects_from_feature_update
  update_features_iff old update f = elim (Bool-cases (contains token.projects "*")) [
    | inl all ↦ (
      λ m. inl (rw all at (mem_of_sort feature_le _ m)),
      λ m. sort-mem feature_le _ (rw all m),
      λ m r n. absurd (cc (all, n)),
    )
    | inr some_only ↦ (
      λ m. elim (Memᴰ.append_cases _ (rw some_only at (mem_of_sort feature_le _ m))) [
        | inl old_one ↦
            let (n, r) = mem_of_mem-filter (λ g. not (in_reach g)) old.features old_one in
            inr (n, not-true (in_reach f) r, some_only)
        | inr new_one ↦ inl new_one
      ],
      λ m. sort-mem feature_le _ (rw some_only (Memᴰ.append_right _ m)),
      λ m r n.
          sort-mem feature_le _ (rw some_only (Memᴰ.append_left _ (mem-filter _ _ m (rw r refl)))),
    )
  ]

  -- An update never lowers the version, leaves the features sorted where the order of features is
  -- total, and keeps the query and the meta that were there.
  pub update_client_features_fields :
      (old update : ClientFeatures u)
      → ((a b : Feature) → feature_le a b ≡ false → feature_le b a ≡ true)
      → IsSorted feature_le (update_client_features u token old update).features
        × ((update_client_features u token old update).version ≡ max old.version update.version)
        × (is_some old.query ≡ true → (update_client_features u token old update).query ≡ old.query)
        × (is_some old.meta ≡ true → (update_client_features u token old update).meta ≡ old.meta)
  unfolding update_client_features
  update_client_features_fields old update total =
      (sort-IsSorted feature_le total _, refl, λ h. ground arith, λ h. ground arith)
