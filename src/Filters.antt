-- ===== src/Filters.antt =====
-- server/src/filters.rs
pub mod Access
use text.Mathlib.Text.{starts_with}
use unleash_edge.Prelude.{
  String, Bool, true, false, ◌&&◌, ◌||◌, Option, none, some, List, [], ◌∷◌, ◌++◌, string_eq,
  is_empty, all, filter,
}
use unleash_edge.Dict.{contains}
use unleash_edge.Features.{UnleashTypes, ClientFeatures}
use unleash_edge.Types.{EdgeToken}

module _ (u : UnleashTypes) where
  open u use {Feature, name, project}

  abbrev pub FeatureFilter : Type 0
  FeatureFilter = Feature → Bool

  -- `FeatureFilterSet`
  abbrev pub FeatureFilterSet : Type 0
  FeatureFilterSet = List FeatureFilter

  -- `FeatureFilterSet::from`
  unfoldable pub from : FeatureFilter → FeatureFilterSet
  from filter = filter ∷ []

  unfoldable pub with_filter : FeatureFilterSet → FeatureFilter → FeatureFilterSet
  with_filter self filter = self ++ filter ∷ []

  unfoldable pub apply : FeatureFilterSet → Feature → Bool
  apply self feature = all (λ filter. filter feature) self

  unfoldable pub filter_features : ClientFeatures u → FeatureFilterSet → List Feature
  filter_features feature_cache filters = filter (apply filters) feature_cache.features

  unfoldable pub filter_client_features : ClientFeatures u → FeatureFilterSet → ClientFeatures u
  filter_client_features feature_cache filters = record feature_cache {
    features = filter_features feature_cache filters;
  }

  unfoldable pub name_prefix_filter : String → FeatureFilter
  name_prefix_filter name_prefix f = starts_with (name f) name_prefix

  unfoldable pub name_match_filter : String → FeatureFilter
  name_match_filter name_prefix f = starts_with (name f) name_prefix

  abbrev project_test : List String → Option String → Bool
  project_test projects none = false
  project_test projects (some feature_project) =
      is_empty projects || contains projects "*" || contains projects feature_project

  unfoldable pub project_filter_from_projects : List String → FeatureFilter
  project_filter_from_projects projects feature = project_test projects (project feature)

  unfoldable pub project_filter : EdgeToken → FeatureFilter
  project_filter token = project_filter_from_projects token.projects

  -- what `get_feature_filter` and `get_query_filters` build
  unfoldable pub query_filters : Option String → List String → FeatureFilterSet
  query_filters none projects = with_filter [] (project_filter_from_projects projects)
  query_filters (some prefix) projects =
      with_filter (from (name_prefix_filter prefix)) (project_filter_from_projects projects)
