-- ===== src/Broadcaster/Served.antt =====
-- What a subscriber is to be served, told without the filters of the program.
use text.Mathlib.Text.{starts_with}
use unleash_edge.Prelude.{
  ◌≡◌, refl, ap, String, Bool, true, false, ◌&&◌, ◌||◌, Option, none, some, List, [], ◌∷◌,
  string_eq, filter, all, is_empty, arith, Option-cases, inl, inr,
}
use unleash_edge.Dict
use unleash_edge.Dict.{contains}
use unleash_edge.Error.{EdgeError, Result, err, ◌>>=◌}
use unleash_edge.Features.{UnleashTypes, ClientFeatures}
use unleash_edge.Filters.{
  filter_client_features, filter_features, apply, query_filters, with_filter, from,
  name_prefix_filter, project_filter_from_projects,
}
use unleash_edge.FeatureCache
use unleash_edge.FeatureCache.{FeatureCache}
use unleash_edge.Broadcaster.{
  StreamingQuery, resolve_features, get_query_filters, query_of_streaming,
}

abbrev pub has_prefix : Option String → String → Bool
has_prefix none name = true
has_prefix (some prefix) name = starts_with name prefix

-- no projects, or the wildcard, allow every project; a feature without one is never shown
abbrev pub may_see : List String → Option String → Bool
may_see projects none = false
may_see projects (some p) = is_empty projects || contains projects "*" || contains projects p

filter-congr :
    {A : Type 0} (p q : A → Bool) → ((x : A) → p x ≡ q x) → (l : List A) → filter p l ≡ filter q l
unfolding filter
filter-congr p q same [] = refl
filter-congr p q same (x ∷ l) = ground (arith, same x, filter-congr p q same l)

module _ (u : UnleashTypes) where
  abbrev pub wanted : StreamingQuery → u.Feature → Bool
  wanted q f = has_prefix q.name_prefix (u.name f) && may_see q.projects (u.project f)

  -- the part of features that a query is for
  abbrev pub part_for : StreamingQuery → ClientFeatures u → ClientFeatures u
  part_for q f = record f {
    features = filter (wanted q) f.features;
    query = some (record {
      tags = none;
      projects = some q.projects;
      name_prefix = q.name_prefix;
      environment = some q.environment;
      inline_segment_constraints = some false;
    });
  }

  wanted_lem :
      (q : StreamingQuery) (f : u.Feature)
      → apply u (query_filters u q.name_prefix q.projects) f ≡ wanted q f
  unfolding apply query_filters with_filter from name_prefix_filter project_filter_from_projects all
  wanted_lem q f = elim (Option-cases q.name_prefix) [
    | inl n ↦ elim (Option-cases (u.project f)) [
      | inl no_project ↦ rw (n, no_project) refl
      | inr (p, y) ↦ rw (n, y) (ground arith)
    ]
    | inr (prefix, z) ↦ elim (Option-cases (u.project f)) [
      | inl no_project ↦ rw (z, no_project) (ground arith)
      | inr (p, y) ↦ rw (z, y) (ground arith)
    ]
  ]

  module _ (encode : ClientFeatures u → Result String) where
    -- the text for a query, from what the cache has for its environment
    abbrev pub text_for : StreamingQuery → FeatureCache u → Result String
    text_for q features_cache = elim (Dict.get q.environment features_cache.features) [
      | none ↦ err EdgeError.authorization_denied
      | some f ↦ encode (part_for q f)
    ]

    pub text_for_lem :
        (q : StreamingQuery) (features_cache : FeatureCache u)
        → (resolve_features u encode q features_cache >>= encode) ≡ text_for q features_cache
    unfolding resolve_features get_query_filters query_of_streaming FeatureCache.get
        filter_client_features filter_features
    text_for_lem q features_cache =
        elim (Option-cases (Dict.get q.environment features_cache.features)) [
          | inl miss ↦ rw (miss, resolve_features, FeatureCache.get, ◌>>=◌, text_for) refl
          | inr (f, hit) ↦
              rw (hit, resolve_features, FeatureCache.get, ◌>>=◌, text_for)
                (ap
                  (λ (l : List (u.Feature)).
                    encode (record f { features = l; query = (part_for q f).query }))
                  (filter-congr _ (wanted q) (wanted_lem q) f.features))
        ]
