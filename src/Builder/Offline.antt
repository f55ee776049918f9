-- ===== src/Builder/Offline.antt =====
-- Offline mode: what the caches hold.
use mathlib.Core.List.Memᴰ
use unleash_edge.Prelude.{
  ◌≡◌, refl, sym, ◌∙◌, ap, String, Bool, ◌||◌, none, some, List, [], ◌∷◌, map, Memᴰ, string_eq,
  ◌==◌, any, if◌then◌else◌, arith,
}
use unleash_edge.Dict
use unleash_edge.Dict.{Dict}
use unleash_edge.Dict.Laws.{get-insert}
use unleash_edge.Types.{EdgeToken, TokenType}
use unleash_edge.Tokens.{cache_key}
use unleash_edge.Features.{UnleashTypes, ClientFeatures, Engine}
use unleash_edge.FeatureCache
use unleash_edge.FeatureCache.{FeatureCache, send_full_update}
use unleash_edge.TokenValidator.{insert_tokens}
use unleash_edge.TokenValidator.Register.{insert_tokens_added}
use unleash_edge.Refresher.Fetch.{compiled}
use unleash_edge.Builder.{
  token_of_text, typed, Caches, build_caches, put_features, load_offline_engine_cache,
  load_offline_tokens, build_offline_mode,
}

module _ (u : UnleashTypes) (e : Engine u) where
  pub features-put :
      (k key : String) (f : ClientFeatures u) (c : Caches u e)
      → FeatureCache.get u k (put_features u e key f c).features_cache
        ≡ (if key == k then some f else FeatureCache.get u k c.features_cache)
  unfolding put_features FeatureCache.insert FeatureCache.get send_full_update
  features-put k key f c = get-insert k key f c.features_cache.features

  pub engine-put :
      (k key : String) (f : ClientFeatures u) (c : Caches u e)
      → Dict.get k (put_features u e key f c).engine_cache
        ≡ (if key == k then some (compiled u e f) else Dict.get k c.engine_cache)
  unfolding put_features
  engine-put k key f c = get-insert k key (compiled u e f) c.engine_cache

  -- whether one of the tokens has the key
  abbrev pub wanted_by : String → List EdgeToken → Bool
  wanted_by k l = any (λ t. cache_key t == k) l

  loaded_features :
      (k : String) (f : ClientFeatures u) (l : List EdgeToken) (c : Caches u e)
      → FeatureCache.get u k (load_offline_tokens u e f l c).features_cache
        ≡ (if wanted_by k l then some f else FeatureCache.get u k c.features_cache)
  unfolding load_offline_tokens any load_offline_engine_cache
  loaded_features k f [] c = refl
  loaded_features k f (t ∷ ts) c =
      loaded_features k f ts _
      ∙ ground (
        arith,
        features-put k (cache_key t) f
            (record c { token_cache = Dict.insert t.token t c.token_cache }),
      )

  loaded_engine :
      (k : String) (f : ClientFeatures u) (l : List EdgeToken) (c : Caches u e)
      → Dict.get k (load_offline_tokens u e f l c).engine_cache
        ≡ (if wanted_by k l then some (compiled u e f) else Dict.get k c.engine_cache)
  unfolding load_offline_tokens any load_offline_engine_cache
  loaded_engine k f [] c = refl
  loaded_engine k f (t ∷ ts) c =
      loaded_engine k f ts _
      ∙ ground (
        arith,
        engine-put k (cache_key t) f
            (record c { token_cache = Dict.insert t.token t c.token_cache }),
      )

  loaded_tokens :
      (f : ClientFeatures u) (l : List EdgeToken) (c : Caches u e)
      → (load_offline_tokens u e f l c).token_cache ≡ insert_tokens l c.token_cache
  unfolding load_offline_tokens insert_tokens load_offline_engine_cache put_features
  loaded_tokens f [] c = refl
  loaded_tokens f (t ∷ ts) c = loaded_tokens f ts _

  -- whether a text of the command line names the environment
  abbrev pub named_by : String → List String → Bool
  named_by k texts = any (λ t. cache_key (token_of_text t) == k) texts

  wanted_by-map :
      (k : String) (g : String → EdgeToken) (texts : List String)
      → ((t : String) → cache_key (g t) ≡ cache_key (token_of_text t))
      → wanted_by k (map g texts) ≡ named_by k texts
  unfolding any
  wanted_by-map k g [] h = refl
  wanted_by-map k g (t ∷ ts) h = ground (arith, h t, wanted_by-map k g ts h)

  typed_key : (y : TokenType) (t : EdgeToken) → cache_key (typed y t) ≡ cache_key t
  unfolding cache_key
  typed_key y t = refl

  three_loads :
      {A : Type 0} (a b c : Bool) (x y : A)
      → (if c then x else if b then x else if a then x else y) ≡ (if a || b || c then x else y)
  three_loads a b c x y = ground arith

  module _ (f : ClientFeatures u) (tokens client_tokens frontend_tokens : List String) where
    -- the environments that the texts name
    abbrev pub named : String → Bool
    named k = named_by k tokens || named_by k client_tokens || named_by k frontend_tokens

    abbrev tokens_of : List EdgeToken
    tokens_of = map token_of_text tokens

    abbrev clients_of : List EdgeToken
    clients_of = map (λ t. typed TokenType.client (token_of_text t)) client_tokens

    abbrev frontends_of : List EdgeToken
    frontends_of = map (λ t. typed TokenType.frontend (token_of_text t)) frontend_tokens

    wanted_three :
        {A : Type 0} (k : String) (x y : A)
        → (if wanted_by k frontends_of
            then x
            else if wanted_by k clients_of
            then x
            else if wanted_by k tokens_of
            then x
            else y)
          ≡ (if named k then x else y)
    wanted_three k x y =
        rw
          (
            wanted_by-map k token_of_text tokens (λ t. refl),
            wanted_by-map k (λ t. typed TokenType.client (token_of_text t)) client_tokens
                (λ t. typed_key TokenType.client (token_of_text t)),
            wanted_by-map k (λ t. typed TokenType.frontend (token_of_text t)) frontend_tokens
                (λ t. typed_key TokenType.frontend (token_of_text t)),
          )
          (three_loads (named_by k tokens) (named_by k client_tokens) (named_by k frontend_tokens) x
            y)

    offline_features :
        (k : String)
        → FeatureCache.get u k
            (build_offline_mode u e f tokens client_tokens frontend_tokens).features_cache
          ≡ (if named k then some f else none)
    unfolding build_offline_mode build_caches FeatureCache.get FeatureCache.new Dict.get
    offline_features k =
        let one = load_offline_tokens u e f tokens_of (build_caches u e) in
        let two = load_offline_tokens u e f clients_of one in
        ground (
          arith,
          loaded_features k f frontends_of two,
          loaded_features k f clients_of one,
          loaded_features k f tokens_of (build_caches u e),
          wanted_three k (some f) none,
        )

    offline_engine :
        (k : String)
        → Dict.get k (build_offline_mode u e f tokens client_tokens frontend_tokens).engine_cache
          ≡ (if named k then some (compiled u e f) else none)
    unfolding build_offline_mode build_caches Dict.get
    offline_engine k =
        let one = load_offline_tokens u e f tokens_of (build_caches u e) in
        let two = load_offline_tokens u e f clients_of one in
        ground (
          arith,
          loaded_engine k f frontends_of two,
          loaded_engine k f clients_of one,
          loaded_engine k f tokens_of (build_caches u e),
          wanted_three k (some (compiled u e f)) none,
        )

    offline_frontend :
        (text : String)
        → Memᴰ text frontend_tokens
        → (s : EdgeToken) × (Dict.get
              (token_of_text text).token
              (build_offline_mode u e f tokens client_tokens frontend_tokens).token_cache
            ≡ some s)
          × (s.token_type ≡ some TokenType.frontend)
    unfolding build_offline_mode
    offline_frontend text m =
        let two =
          load_offline_tokens u e f clients_of
            (load_offline_tokens u e f tokens_of (build_caches u e)) in
        rw (loaded_tokens f frontends_of two) (
          insert_tokens_added frontends_of two.token_cache
            (λ s. s.token_type ≡ some TokenType.frontend)
            (Memᴰ.map (λ t. typed TokenType.frontend (token_of_text t)) m)
            (λ w n same.
              let (t, o, eq) =
                Memᴰ.of_map (λ t. typed TokenType.frontend (token_of_text t)) frontend_tokens n in
              ap (λ (s : EdgeToken). s.token_type) (sym eq)))

    -- In offline mode the features of the bootstrap file, and an engine compiled from them, stand under
    -- exactly the environments that the tokens of the command line name, and a frontend token is known
    -- as one, whatever other kind its text was given as too.
    pub offline_serves :
        let after = build_offline_mode u e f tokens client_tokens frontend_tokens in
        ((k : String)
          → (FeatureCache.get u k after.features_cache ≡ (if named k then some f else none))
            × (Dict.get k after.engine_cache ≡ (if named k then some (compiled u e f) else none)))
        × ((text : String)
            → Memᴰ text frontend_tokens
            → (s : EdgeToken) × (Dict.get (token_of_text text).token after.token_cache ≡ some s)
              × (s.token_type ≡ some TokenType.frontend))
    offline_serves = (λ k. (offline_features k, offline_engine k), offline_frontend)
