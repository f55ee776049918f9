-- ===== src/Builder/Started.antt =====
-- The start with an upstream: what the refresher and the cache of tokens hold.

use mathlib.Core.Option
use unleash_edge.Prelude.{
  ◌≡◌, refl, sym, ap, subst, String, Bool, true, false, ◌&&◌, Option, none, some, List, [], ◌∷◌,
  Memᴰ, string_eq, is_empty, arith, Bool-cases, inl, inr,
}
use unleash_edge.Dict
use unleash_edge.Dict.{Dict}
use unleash_edge.Error.{Result, ok, or_else, bind-ok, ok_inj}
use unleash_edge.Types.{EdgeToken, Millis}
use unleash_edge.Features.{UnleashTypes, ClientFeatures, Engine}
use unleash_edge.FeatureCache
use unleash_edge.FeatureCache.{FeatureCache}
use unleash_edge.TokenValidator.Register.{insert_tokens_added}
use unleash_edge.Refresher.State
use unleash_edge.Refresher.State.{Refresher, register_token_for_refresh}
use unleash_edge.Refresher.Engines.{InSync}
use unleash_edge.Refresher.Fetch.{compiled}
use unleash_edge.Builder.{
  Caches, build_caches, put_features, hydrate_features, hydrate_from_persistent_storage,
  register_for_refresh, startup_caches, build_edge,
}
use unleash_edge.Builder.Offline.{features-put, engine-put}

-- one tuple of a pair in a pair
flat : {A : Type 0} {P Q R : A → Type 0} → ((a : A) × P a × (Q a × R a)) → (a : A) × P a × Q a × R a
flat (a, p, (q, r)) = (a, p, q, r)

module _ (u : UnleashTypes) (e : Engine u) where
  -- For each key there is an engine exactly where there are features, compiled from just those.
  abbrev pub IsCompiled : Caches u e → Type 0
  IsCompiled c =
      (k : String)
      → Dict.get k c.engine_cache
        ≡ Option.map (compiled u e) (FeatureCache.get u k c.features_cache)

  put-IsCompiled :
      (key : String) (f : ClientFeatures u) (c : Caches u e)
      → IsCompiled c
      → IsCompiled (put_features u e key f c)
  put-IsCompiled key f c h k =
      ground (arith, h k, engine-put u e k key f c, features-put u e k key f c)

  pub hydrate-IsCompiled :
      (l : List (String × ClientFeatures u)) (c : Caches u e)
      → IsCompiled c
      → IsCompiled (hydrate_features u e l c)
  unfolding hydrate_features
  hydrate-IsCompiled [] c h = h
  hydrate-IsCompiled ((key, f) ∷ l) c h = hydrate-IsCompiled l _ (put-IsCompiled key f c h)

  pub hydrated_tokens :
      (l : List (String × ClientFeatures u)) (c : Caches u e)
      → (hydrate_features u e l c).token_cache ≡ c.token_cache
  unfolding hydrate_features put_features
  hydrated_tokens [] c = refl
  hydrated_tokens ((key, f) ∷ l) c = hydrated_tokens l _

  registered-InSync :
      (t : EdgeToken) (self : Refresher u e)
      → InSync u e self
      → InSync u e (register_token_for_refresh u e t none self)
  unfolding register_token_for_refresh
  registered-InSync t self h =
      elim (Bool-cases (Dict.contains_key t.token self.tokens_to_refresh)) [
        | inl y ↦ rw y h
        | inr n ↦ rw n h
      ]

  register-InSync :
      (l : List EdgeToken) (self : Refresher u e)
      → InSync u e self
      → InSync u e (register_for_refresh u e l self)
  unfolding register_for_refresh
  register-InSync [] self h = h
  register-InSync (t ∷ ts) self h =
      register-InSync ts (register_token_for_refresh u e t none self) (registered-InSync t self h)

  module _ (upsert : List EdgeToken → List EdgeToken → List EdgeToken)
      (validate : List String → Result (List EdgeToken)) (client : Result (Unit {0}))
      (tokens : List String) where
    startup-IsCompiled :
        (storage : Option (Result (List EdgeToken) × Result (List (String × ClientFeatures u))))
        → IsCompiled (startup_caches u e upsert validate client storage tokens)
    unfolding startup_caches hydrate_from_persistent_storage build_caches Dict.get FeatureCache.get
        FeatureCache.new
    startup-IsCompiled none k = refl
    startup-IsCompiled (some (stored_tokens, stored_features)) k =
        hydrate-IsCompiled (or_else stored_features []) _ (λ j. refl) k

    startup_stored :
        (stored_tokens : List EdgeToken)
        (stored_features : Result (List (String × ClientFeatures u))) {t : EdgeToken}
        → Memᴰ t stored_tokens
        → (s : EdgeToken) × (Dict.get t.token
              (startup_caches u e upsert validate client
                (some (ok stored_tokens, stored_features))
                tokens).token_cache
            ≡ some s)
          × Memᴰ s stored_tokens
          × (s.token ≡ t.token)
    unfolding startup_caches hydrate_from_persistent_storage
    startup_stored stored_tokens stored_features {t} m =
        rw (hydrated_tokens (or_else stored_features []) _) (
          flat (
            insert_tokens_added stored_tokens _ (λ s. Memᴰ s stored_tokens × (s.token ≡ t.token)) m
              (λ w n same. (n, same))))

    module _ (strict streaming delta : Bool) (interval : Millis)
        (storage : Option
          (Result (List EdgeToken) × Result (List (String × ClientFeatures u)))) where
      -- what a start that succeeds gives
      started :
          (cache : Dict String EdgeToken) (r : Refresher u e)
          → build_edge u e upsert validate client storage strict streaming delta interval tokens
            ≡ ok (cache, r)
          → (strict && is_empty tokens ≡ false)
            × (strict && is_empty cache ≡ false)
            × (cache ≡ (startup_caches u e upsert validate client storage tokens).token_cache)
            × InSync u e r
      unfolding build_edge State.new
      started cache r h = elim (Bool-cases (strict && is_empty tokens)) [
        | inl y ↦ absurd (ground (arith, rw (y, build_edge) at h))
        | inr n ↦
            let c = startup_caches u e upsert validate client storage tokens in
            let (x, built, rest) = bind-ok client _ (cache, r) (rw (n, build_edge) at h) in
            elim (Bool-cases (strict && is_empty c.token_cache)) [
              | inl y ↦ absurd (ground (arith, rw y at rest))
              | inr m ↦
                  let same = ok_inj _ (cache, r) (rw m at rest) in
                  let tokens_same = ap (λ p. p.0) same in
                  (
                    n,
                    subst (λ d. strict && is_empty d ≡ false) tokens_same m,
                    sym tokens_same,
                    subst (InSync u e) (ap (λ p. p.1) same)
                        (register-InSync _ _ (startup-IsCompiled storage)),
                  )
            ]
      ]

      -- A start that succeeds has an engine for each environment exactly where the refresher has features,
      -- compiled from those; and in strict mode tokens were given and at least one token is in the cache.
      pub build_edge-InSync :
          (cache : Dict String EdgeToken) (r : Refresher u e)
          → build_edge u e upsert validate client storage strict streaming delta interval tokens
            ≡ ok (cache, r)
          → InSync u e r × (strict ≡ true → (is_empty tokens ≡ false) × (is_empty cache ≡ false))
      build_edge-InSync cache r h =
          let (given, held, same, compiled_all) = started cache r h in
          (compiled_all, λ s. (ground arith, ground arith))

    -- After a start with a backup that can be read, the cache holds the backup's record of each token of
    -- the backup, with its secret, whatever upstream has just answered for that token.
    pub build_edge_keeps_backup :
        (strict streaming delta : Bool) (interval : Millis) (stored_tokens : List EdgeToken)
        (stored_features : Result (List (String × ClientFeatures u)))
        (cache : Dict String EdgeToken) (r : Refresher u e)
        → build_edge u e upsert validate client
            (some (ok stored_tokens, stored_features))
            strict
            streaming
            delta
            interval
            tokens
          ≡ ok (cache, r)
        → (t : EdgeToken) → Memᴰ t stored_tokens
        → (s : EdgeToken) × (Dict.get t.token cache ≡ some s)
          × Memᴰ s stored_tokens
          × (s.token ≡ t.token)
    build_edge_keeps_backup strict streaming delta interval stored_tokens stored_features cache r h
          t m =
        let (given, held, same, compiled_all) =
          started strict streaming delta interval (some (ok stored_tokens, stored_features)) cache r
            h in
        rw same (startup_stored stored_tokens stored_features m)
