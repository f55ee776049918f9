-- ===== src/Persistence/Restart.antt =====
-- What a new process has after a turn of saving.
use mathlib.Core.Option
use unleash_edge.Prelude.{
  ◌≡◌, refl, ◌∙◌, ap, String, Bool, true, false, Option, none, some, List, [], ◌∷◌, string_eq,
  arith, ◌==◌, or_option, filter, is_empty, Bool-cases, inl, inr, if◌then◌else◌,
}
use unleash_edge.Dict
use unleash_edge.Dict.{Dict, values, extend}
use unleash_edge.Dict.Laws.{get-insert}
use unleash_edge.Dict.Unique.{IsUnique, extend-IsUnique, get-extend, get-absent, or_none}
use unleash_edge.Error.{ok}
use unleash_edge.Types.{EdgeToken}
use unleash_edge.Features.{UnleashTypes, ClientFeatures, Engine}
use unleash_edge.FeatureCache
use unleash_edge.FeatureCache.{FeatureCache, send_full_update}
use unleash_edge.TokenValidator.{insert_tokens}
use unleash_edge.EdgeApi.{is_validated}
use unleash_edge.Refresher.Fetch.{compiled}
use unleash_edge.Builder.{
  Caches, build_caches, put_features, hydrate_features, hydrate_from_persistent_storage,
}
use unleash_edge.Builder.Started.{IsCompiled, hydrate-IsCompiled, hydrated_tokens}
use unleash_edge.Persistence.{
  EdgePersistence, tokens_to_save, save_known_tokens, save_all_features, persist_turn, restored,
}
use unleash_edge.Persistence.Durable.{IsDurable}

-- each token stands under its secret
abbrev pub IsKeyed : Dict String EdgeToken → Type 0
IsKeyed [] = Unit
IsKeyed ((k, t) ∷ m) = (k ≡ t.token) × IsKeyed m

abbrev pub if_validated : EdgeToken → Option EdgeToken
if_validated t = if is_validated t then some t else none

-- the entry of a validated token, in front of entries among which its key is not
saved_entry :
    (b : Bool) (t : EdgeToken) (o m : Option EdgeToken)
    → is_validated t ≡ true
    → (b ≡ true → o ≡ none)
    → or_option (Option.bind o if_validated) (if b then some t else m)
      ≡ or_option (Option.bind (if b then some t else o) if_validated) m
unfolding Option.bind
saved_entry true t none m valid h = rw valid refl
saved_entry true t (some w) m valid h = absurd (ground (arith, h refl))
saved_entry false t none m valid h = refl
saved_entry false t (some w) m valid h = refl

dropped_entry :
    (b : Bool) (t : EdgeToken) (o : Option EdgeToken)
    → is_validated t ≡ false
    → (b ≡ true → o ≡ none)
    → Option.bind o if_validated ≡ Option.bind (if b then some t else o) if_validated
unfolding Option.bind
dropped_entry true t none invalid h = rw invalid refl
dropped_entry true t (some w) invalid h = absurd (ground (arith, h refl))
dropped_entry false t o invalid h = refl

get-insert_tokens :
    (k : String) (m c : Dict String EdgeToken)
    → IsUnique m
    → IsKeyed m
    → Dict.get k (insert_tokens (filter is_validated (values m)) c)
      ≡ or_option (Option.bind (Dict.get k m) if_validated) (Dict.get k c)
unfolding Dict.get filter insert_tokens Option.bind
get-insert_tokens k [] c h g = refl
get-insert_tokens k ((j, t) ∷ m) c (fresh, rest) (keyed, others) =
    elim (Bool-cases (is_validated t)) [
      | inl valid ↦ rw valid (
          get-insert_tokens k m (Dict.insert t.token t c) rest others
          ∙ (ap (or_option (Option.bind (Dict.get k m) if_validated))
                (rw keyed (get-insert k t.token t c))
              ∙ saved_entry (j == k) t (Dict.get k m) (Dict.get k c) valid
                  (get-absent k j m fresh)))
      | inr invalid ↦ rw invalid (
          get-insert_tokens k m c rest others
          ∙ ap (λ o. or_option o (Dict.get k c))
              (dropped_entry (j == k) t (Dict.get k m) invalid (get-absent k j m fresh)))
    ]

module _ (u : UnleashTypes) (e : Engine u) where
  hydrated_features :
      (l : List (String × ClientFeatures u)) (c : Caches u e)
      → (hydrate_features u e l c).features_cache.features ≡ extend c.features_cache.features l
  unfolding hydrate_features put_features FeatureCache.insert extend send_full_update
  hydrated_features [] c = refl
  hydrated_features ((k, f) ∷ l) c = hydrated_features l (put_features u e k f c)

  -- the caches that saved tokens and features give
  abbrev started : List EdgeToken → List (String × ClientFeatures u) → Caches u e
  started tokens features =
      hydrate_from_persistent_storage u e (ok tokens) (ok features) (build_caches u e)

  started_tokens :
      (k : String) (token_cache : Dict String EdgeToken)
      (features : List (String × ClientFeatures u))
      → IsUnique token_cache
      → IsKeyed token_cache
      → Dict.get k (started (filter is_validated (values token_cache)) features).token_cache
        ≡ Option.bind (Dict.get k token_cache) if_validated
  unfolding hydrate_from_persistent_storage build_caches Dict.get
  started_tokens k token_cache features unique keyed =
      ap (Dict.get k) (hydrated_tokens u e features _)
      ∙ (get-insert_tokens k token_cache [] unique keyed ∙ or_none _)

  started_features :
      (k : String) (tokens : List EdgeToken) (table : Dict String (ClientFeatures u))
      → IsUnique table
      → FeatureCache.get u k (started tokens (extend [] table)).features_cache ≡ Dict.get k table
  unfolding hydrate_from_persistent_storage build_caches FeatureCache.get FeatureCache.new Dict.get
  started_features k tokens table once =
      ap (Dict.get k) (hydrated_features (extend [] table) _)
      ∙ (get-extend k [] (extend [] table) (extend-IsUnique [] table tt)
          ∙ (or_none _ ∙ (get-extend k [] table once ∙ or_none _)))

  started-IsCompiled :
      (tokens : List EdgeToken) (features : List (String × ClientFeatures u))
      → IsCompiled u e (started tokens features)
  unfolding hydrate_from_persistent_storage build_caches Dict.get FeatureCache.get FeatureCache.new
  started-IsCompiled tokens features = hydrate-IsCompiled u e features _ (λ j. refl)

  module _ (p : EdgePersistence u) (durable : IsDurable u p) (token_cache : Dict String EdgeToken)
      (features_cache : FeatureCache u) (store : p.Store) where
    -- the store after the tokens are saved
    abbrev pub halfway : p.Store
    halfway = (p.save_tokens (tokens_to_save u p token_cache) store).0

    persist_turn_lem :
        is_empty token_cache ≡ false
        → FeatureCache.is_empty u features_cache ≡ false
        → persist_turn u p token_cache features_cache store
          ≡ (p.save_features features_cache.features halfway).0
    unfolding persist_turn save_known_tokens save_all_features
    persist_turn_lem some_token some_features = rw (some_token, some_features) refl

    restored_lem :
        (some_token : is_empty token_cache ≡ false)
        (some_features : FeatureCache.is_empty u features_cache ≡ false)
        → (p.save_tokens (tokens_to_save u p token_cache) store).1 ≡ ok tt
        → (p.save_features features_cache.features halfway).1 ≡ ok tt
        → restored u p e (persist_turn u p token_cache features_cache store)
          ≡ some (
              hydrate_from_persistent_storage u e
                (ok (tokens_to_save u p token_cache))
                (ok (extend [] features_cache.features))
                (build_caches u e))
    unfolding restored Option.bind
    restored_lem some_token some_features tokens_saved features_saved =
        let kept =
          durable.tokens_apart features_cache.features halfway
          ∙ durable.tokens_kept (tokens_to_save u p token_cache) store tokens_saved in
        rw
          (
            persist_turn_lem some_token some_features,
            kept,
            durable.features_kept features_cache.features halfway features_saved,
          )
          refl

    -- A new process that starts from a backup has, after a turn of saving in which both saves succeed,
    -- exactly the validated tokens and the features that the old one had, and engines compiled from these.
    -- The old one had a token and features for an environment, each key once and each token under its
    -- secret, and the backup keeps what it is given.
    pub restart_restores :
        is_empty token_cache ≡ false
        → FeatureCache.is_empty u features_cache ≡ false
        → IsUnique token_cache
        → IsKeyed token_cache
        → IsUnique features_cache.features
        → (p.save_tokens (tokens_to_save u p token_cache) store).1 ≡ ok tt
        → (p.save_features features_cache.features halfway).1 ≡ ok tt
        → (c : Caches u e) × (restored u p e (persist_turn u p token_cache features_cache store)
            ≡ some c)
          × ((k : String)
              → (Dict.get k c.token_cache ≡ Option.bind (Dict.get k token_cache) if_validated)
                × (FeatureCache.get u k c.features_cache ≡ FeatureCache.get u k features_cache)
                × (Dict.get k c.engine_cache
                    ≡ Option.map (compiled u e) (FeatureCache.get u k features_cache)))
    unfolding FeatureCache.get
    restart_restores some_token some_features unique keyed once tokens_saved features_saved = (
      _,
      restored_lem some_token some_features tokens_saved features_saved,
      λ k.
          let tokens = tokens_to_save u p token_cache in
          let f = started_features k tokens features_cache.features once in
          (
            started_tokens k token_cache (extend [] features_cache.features) unique keyed,
            f,
            started-IsCompiled tokens (extend [] features_cache.features) k
                ∙ ap (Option.map (compiled u e)) f,
          ),
    )
