-- ===== src/Filters/Access.antt =====
-- What a filtered answer holds.
use text.Mathlib.Text.{starts_with}
use unleash_edge.Prelude.{
  ◌≡◌, ◌⊎◌, refl, String, true, Option, none, some, List, arith, Memᴰ, is_empty, all, mem-filter,
  mem_of_mem-filter, string_eq,
}
use unleash_edge.Dict.{contains}
use unleash_edge.Features.{UnleashTypes, ClientFeatures}
use unleash_edge.Filters.{
  from, with_filter, apply, filter_features, filter_client_features, name_prefix_filter,
  project_filter_from_projects, query_filters,
}

module _ (u : UnleashTypes) where
  open u use {Feature, name, project}

  -- whether a token with these projects may see the feature
  abbrev pub Visible : List String → Feature → Type 0
  Visible projects f =
      (p : String) × (project f ≡ some p)
      × ((is_empty projects ≡ true) ⊎ (contains projects "*" ≡ true) ⊎ (contains projects p ≡ true))

  Visible-sound :
      (projects : List String) (f : Feature)
      → project_filter_from_projects u projects f ≡ true
      → Visible projects f
  unfolding project_filter_from_projects
  Visible-sound projects f h = ground arith

  Visible-complete :
      (projects : List String) (f : Feature)
      → Visible projects f
      → project_filter_from_projects u projects f ≡ true
  unfolding project_filter_from_projects
  Visible-complete projects f (p, e, h) = ground arith

  -- what the filters of a request ask of a feature
  abbrev pub Wanted : Option String → List String → Feature → Type 0
  Wanted none projects f = Visible projects f
  Wanted (some prefix) projects f = (starts_with (name f) prefix ≡ true) × Visible projects f

  apply-Wanted :
      (prefix : Option String) (projects : List String) (f : Feature)
      → apply u (query_filters u prefix projects) f ≡ true
      → Wanted prefix projects f
  unfolding apply query_filters with_filter from name_prefix_filter all
  apply-Wanted none projects f h = Visible-sound projects f (ground arith)
  apply-Wanted (some prefix) projects f h = (ground arith, Visible-sound projects f (ground arith))

  Wanted-apply :
      (prefix : Option String) (projects : List String) (f : Feature)
      → Wanted prefix projects f
      → apply u (query_filters u prefix projects) f ≡ true
  unfolding apply query_filters with_filter from name_prefix_filter all
  Wanted-apply none projects f h = ground (arith, Visible-complete projects f h)
  Wanted-apply (some prefix) projects f (n, h) = ground (arith, Visible-complete projects f h)

  -- The filters of a request leave exactly the features of the cache whose name has the prefix that is
  -- asked for, if any, and whose project the projects allow: a feature without a project is never
  -- shown, and no projects or the wildcard allow every project. All else is unchanged.
  pub filter_client_features_iff :
      (prefix : Option String) (projects : List String) (c : ClientFeatures u) (f : Feature)
      → (Memᴰ f (filter_client_features u c (query_filters u prefix projects)).features
          → Memᴰ f c.features × Wanted prefix projects f)
        × (Memᴰ f c.features
            → Wanted prefix projects f
            → Memᴰ f (filter_client_features u c (query_filters u prefix projects)).features)
        × (record (filter_client_features u c (query_filters u prefix projects)) {
          features = c.features;
        }
            ≡ c)
  unfolding filter_client_features filter_features
  filter_client_features_iff prefix projects c f = (
    λ m.
        let (n, h) = mem_of_mem-filter (apply u (query_filters u prefix projects)) c.features m in
        (n, apply-Wanted prefix projects f h),
    λ m w.
        mem-filter (apply u (query_filters u prefix projects)) c.features m
          (Wanted-apply prefix projects f w),
    refl,
  )
