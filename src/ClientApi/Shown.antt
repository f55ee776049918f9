-- ===== src/ClientApi/Shown.antt =====
-- What a client may be shown: the features that its token's projects allow, and no others.
use text.Mathlib.Text.{starts_with}
use mathlib.Core.Option
use unleash_edge.Prelude.{
  ◌≡◌, refl, sym, ◌∙◌, ap, subst, String, Bool, true, false, Option, none, some, List, [], ◌∷◌,
  Memᴰ, string_eq, arith, Bool-cases, Option-cases, if◌then◌else◌, inl, inr,
}
use unleash_edge.Dict
use unleash_edge.Dict.{Dict}
use unleash_edge.Error.{EdgeError, ok, err, ok_or, bind-ok, ok_inj}
use unleash_edge.Types.{EdgeToken}
use unleash_edge.Tokens.{cache_key}
use unleash_edge.Features.{UnleashTypes, ClientFeatures, Engine}
use unleash_edge.Filters.{
  FeatureFilterSet, from, with_filter, name_match_filter, name_prefix_filter, project_filter,
  project_filter_from_projects, query_filters, filter_client_features,
}
use unleash_edge.Filters.Access.{Visible, Wanted, filter_client_features_iff}
use unleash_edge.FeatureCache
use unleash_edge.FeatureCache.{FeatureCache}
use unleash_edge.Refresher.State.{Refresher, get_features_by_filter, token_is_subsumed}
use unleash_edge.Refresher.Fetch.{Upstream}
use unleash_edge.Refresher.Serve.{
  features_for_filter, features_after_hydration, register_and_hydrate_token, hydration_failed,
}
use unleash_edge.ClientApi.{
  validated, query_of, get_feature_filter, cached_features, with_query, resolve_cached_features,
  feature_filters, first_feature, resolve_features, get_feature,
}

if_true : {A : Type 0} {b : Bool} {z : A} (x y : A) → b ≡ true → (if b then x else y) ≡ z → x ≡ z
if_true x y s h = ground arith

if_false : {A : Type 0} {b : Bool} {z : A} (x y : A) → b ≡ false → (if b then x else y) ≡ z → y ≡ z
if_false x y s h = ground arith

mapped_some :
    {A B : Type 0} (f : A → B) (o : Option A) (b : B)
    → Option.map f o ≡ some b
    → (a : A) × (o ≡ some a) × (f a ≡ b)
mapped_some f none b h = absurd (ground arith)
mapped_some f (some a) b h = (a, refl, ground arith)

module _ (u : UnleashTypes) where
  -- the features are filtered from something
  abbrev IsFiltered : FeatureFilterSet u → ClientFeatures u → Type 0
  IsFiltered filters c = (all : ClientFeatures u) × (filter_client_features u all filters ≡ c)

  filtered-Wanted :
      (prefix : Option String) (projects : List String) (c : ClientFeatures u) (f : u.Feature)
      → IsFiltered (query_filters u prefix projects) c
      → Memᴰ f c.features
      → Wanted u prefix projects f
  filtered-Wanted prefix projects c f (all, same) m =
      ((filter_client_features_iff u prefix projects all f).0
        (subst (λ x. Memᴰ f x.features) (sym same) m)).1

  mapped-IsFiltered :
      (filters : FeatureFilterSet u) (o : Option (ClientFeatures u)) (x : EdgeError)
      (c : ClientFeatures u)
      → ok_or x (Option.map (λ f. filter_client_features u f filters) o) ≡ ok c
      → IsFiltered filters c
  mapped-IsFiltered filters none x c h = absurd (ground arith)
  mapped-IsFiltered filters (some f) x c h = (f, ground arith)

  match_filters :
      (name : String) (t : EdgeToken)
      → feature_filters u name t ≡ query_filters u (some name) t.projects
  unfolding feature_filters from with_filter name_match_filter name_prefix_filter project_filter
      project_filter_from_projects query_filters
  match_filters name t = refl

  -- The answer carries the query of the token that the cache has, and each of its features has the
  -- prefix that was asked for and a project that the token's projects allow.
  abbrev pub IsShown : EdgeToken → Dict String EdgeToken → Option String → ClientFeatures u → Type 0
  IsShown edge_token token_cache prefix c =
      (t : EdgeToken) × (Dict.get edge_token.token token_cache ≡ some t)
      × (c.query ≡ some (query_of u prefix t))
      × ((f : u.Feature) → Memᴰ f c.features → Wanted u prefix t.projects f)

  queried :
      (edge_token : EdgeToken) (token_cache : Dict String EdgeToken) (prefix : Option String)
      (t : EdgeToken) (f c : ClientFeatures u)
      → Dict.get edge_token.token token_cache ≡ some t
      → IsFiltered (query_filters u prefix t.projects) f
      → with_query u (query_of u prefix t) f ≡ c
      → IsShown edge_token token_cache prefix c
  unfolding with_query
  queried edge_token token_cache prefix t f c hit filtered same = (
    t,
    hit,
    ap (λ x. x.query) (sym same),
    λ g m.
        filtered-Wanted prefix t.projects f g filtered
          (subst (λ x. Memᴰ g x.features) (sym same) m),
  )

  -- Without a refresher, features are answered only to a token that is in the cache of tokens; they
  -- carry that token's query, and each of them has the prefix that was asked for and a project that the
  -- token's projects allow.
  pub cached-IsShown :
      (edge_token : EdgeToken) (features_cache : FeatureCache u)
      (token_cache : Dict String EdgeToken) (prefix : Option String) (c : ClientFeatures u)
      → resolve_cached_features u edge_token features_cache token_cache prefix ≡ ok c
      → IsShown edge_token token_cache prefix c
  unfolding resolve_cached_features get_feature_filter validated cached_features
  cached-IsShown edge_token features_cache token_cache prefix c h =
      elim (Option-cases (Dict.get edge_token.token token_cache)) [
        | inl miss ↦ absurd (ground (arith, rw miss at h))
        | inr (t, hit) ↦
            let filters = query_filters u prefix t.projects in
            let (f, found, same) =
              bind-ok (cached_features u features_cache t filters)
                (λ f. ok (with_query u (query_of u prefix t) f)) c (rw hit at h) in
            queried edge_token token_cache prefix t f c hit
              (mapped-IsFiltered filters (FeatureCache.get u (cache_key t) features_cache) _ f
                found)
              (ok_inj _ c same)
      ]

  first_of :
      (x : EdgeError) (l : List (u.Feature)) (f : u.Feature)
      → elim l [ [] ↦ err x | feature ∷ _ ↦ ok feature ] ≡ ok f
      → Memᴰ f l
  first_of x [] f h = absurd (ground arith)
  first_of x (y ∷ l) f h = Memᴰ.head (ground arith)

  first-mem :
      (feature_name : String) (c : ClientFeatures u) (f : u.Feature)
      → first_feature u feature_name c ≡ ok f
      → Memᴰ f c.features
  unfolding first_feature
  first-mem feature_name c f h = first_of _ c.features f h

  module _ (e : Engine u) (w : Upstream u e) where
    held-IsFiltered :
        (t : EdgeToken) (filters : FeatureFilterSet u) (self : Refresher u e) (x : EdgeError)
        (c : ClientFeatures u)
        → ok_or x (get_features_by_filter u e t filters self) ≡ ok c
        → IsFiltered filters c
    unfolding get_features_by_filter
    held-IsFiltered t filters self x c h =
        elim (Option-cases (FeatureCache.get u (cache_key t) self.features_cache)) [
          | inl miss ↦ absurd (ground (arith, rw (miss, get_features_by_filter, ok_or) at h))
          | inr (f, hit) ↦ (f, ok_inj _ c (rw (hit, get_features_by_filter, ok_or) at h))
        ]

    after-IsFiltered :
        (t : EdgeToken) (filters : FeatureFilterSet u) (self after : Refresher u e)
        (c : ClientFeatures u)
        → features_after_hydration u e w t filters self ≡ some (after, ok c)
        → IsFiltered filters c
    unfolding features_after_hydration
    after-IsFiltered t filters self after c h = elim (Bool-cases self.strict) [
      | inl s ↦ absurd (ground (arith, if_true _ _ s h))
      | inr n ↦
          let (s, ran, same) =
            mapped_some _ (register_and_hydrate_token u e w t self) _ (if_false _ _ n h) in
          held-IsFiltered t filters s (hydration_failed u e) c (ap (λ p. p.1) same)
    ]

    answer-IsFiltered :
        (t : EdgeToken) (filters : FeatureFilterSet u) (self after : Refresher u e)
        (c : ClientFeatures u)
        → features_for_filter u e w t filters self ≡ some (after, ok c)
        → IsFiltered filters c
    unfolding features_for_filter
    answer-IsFiltered t filters self after c h =
        elim (Option-cases (get_features_by_filter u e t filters self)) [
          | inl miss ↦ after-IsFiltered t filters self after c (rw (miss, features_for_filter) at h)
          | inr (f, hit) ↦ elim (Bool-cases (token_is_subsumed u e t self)) [
            | inl y ↦ held-IsFiltered t filters self EdgeError.not_ready c (
                ap (ok_or EdgeError.not_ready) hit
                ∙ ground (arith, if_true _ _ y (rw (hit, features_for_filter) at h)))
            | inr n ↦
                after-IsFiltered t filters self after c
                  (if_false _ _ n (rw (hit, features_for_filter) at h))
          ]
        ]

    -- With a refresher, and whatever upstream says, features are answered only to a token that is in the
    -- cache of tokens; they carry that token's query, and each of them has the prefix that was asked for
    -- and a project that the token's projects allow.
    pub resolve-IsShown :
        (edge_token : EdgeToken) (token_cache : Dict String EdgeToken) (prefix : Option String)
        (self after : Refresher u e) (c : ClientFeatures u)
        → resolve_features u e w edge_token token_cache prefix self ≡ some (after, ok c)
        → IsShown edge_token token_cache prefix c
    unfolding resolve_features get_feature_filter validated
    resolve-IsShown edge_token token_cache prefix self after c h =
        elim (Option-cases (Dict.get edge_token.token token_cache)) [
          | inl miss ↦
              absurd
                (ground (arith, rw (miss, resolve_features, get_feature_filter, validated) at h))
          | inr (t, hit) ↦
              let filters = query_filters u prefix t.projects in
              let ((s, answer), ran, same) =
                mapped_some _ (features_for_filter u e w t filters self) _
                  (rw (hit, resolve_features, get_feature_filter, validated) at h) in
              let (f, good, full) = bind-ok answer _ c (ap (λ p. p.1) same) in
              queried edge_token token_cache prefix t f c hit
                (answer-IsFiltered t filters self s f (ran ∙ ap (λ r. some (s, r)) good))
                (ok_inj _ c full)
        ]

    -- A single feature is answered only to a token that is in the cache of tokens; its name has the name
    -- that was asked for as a prefix, and its project is one that the token's projects allow.
    pub get_feature_shown :
        (edge_token : EdgeToken) (token_cache : Dict String EdgeToken) (feature_name : String)
        (self after : Refresher u e) (f : u.Feature)
        → get_feature u e w edge_token token_cache feature_name self ≡ some (after, ok f)
        → (t : EdgeToken) × (Dict.get edge_token.token token_cache ≡ some t)
          × (starts_with (u.name f) feature_name ≡ true)
          × Visible u t.projects f
    unfolding get_feature validated
    get_feature_shown edge_token token_cache feature_name self after f h =
        elim (Option-cases (Dict.get edge_token.token token_cache)) [
          | inl miss ↦ absurd (ground (arith, rw (miss, get_feature, validated) at h))
          | inr (t, hit) ↦
              let filters = feature_filters u feature_name t in
              let ((s, answer), ran, same) =
                mapped_some _ (features_for_filter u e w t filters self) _
                  (rw (hit, get_feature, validated) at h) in
              let (c, good, first) =
                bind-ok answer (first_feature u feature_name) f (ap (λ p. p.1) same) in
              let filtered =
                answer-IsFiltered t filters self s c (ran ∙ ap (λ r. some (s, r)) good) in
              let wanted =
                filtered-Wanted (some feature_name) t.projects c f
                  (subst (λ l. IsFiltered l c) (match_filters feature_name t) filtered)
                  (first-mem feature_name c f first) in
              (t, hit, wanted.0, wanted.1)
        ]
