-- ===== src/Persistence.antt =====
-- server/src/persistence/mod.rs: what a backup promises to save and load, and the turns of saving. A
-- backup is a state that the saves change; a panic while loading is `none`. JSON is serde_json's: a
-- parameter.
pub mod File
pub mod Redis
pub mod S3
pub mod Written
pub mod Durable
pub mod Failures
pub mod Restart
use mathlib.Core.Option
use unleash_edge.Prelude.{
  String, Bool, Option, none, some, List, [], ◌∷◌, filter, is_empty, if◌then◌else◌,
}
use unleash_edge.Dict.{Dict, values}
use unleash_edge.Error.{EdgeError, Result}
use unleash_edge.Types.{EdgeToken}
use unleash_edge.Features.{UnleashTypes, ClientFeatures}
use unleash_edge.FeatureCache
use unleash_edge.FeatureCache.{FeatureCache}
use unleash_edge.EdgeApi.{is_validated}
use unleash_edge.Builder.{Caches, build_caches, hydrate_from_persistent_storage}
use unleash_edge.Features.{Engine}

-- `serde_json` for values of one type: writing may fail, and a text may be none of the type's.
pub record Json (A : Type 0) : Type 0 where
  pub to_text : A → Option String
  pub of_text : String → Option A
  -- the texts of the two errors
  pub write_error : String
  pub parse_error : String

module _ (u : UnleashTypes) where
  -- `Vec<(String, ClientFeatures)>`
  abbrev pub FeatureList : Type 0
  FeatureList = List (String × ClientFeatures u)

  -- `trait EdgePersistence`
  pub record EdgePersistence : Type 1 where
    pub Store : Type 0
    pub load_tokens : Store → Option (Result (List EdgeToken))
    pub save_tokens : List EdgeToken → Store → Store × Result (Unit {0})
    pub load_features : Store → Option (Result (Dict String (ClientFeatures u)))
    pub save_features : FeatureList → Store → Store × Result (Unit {0})

  module _ (p : EdgePersistence) where
    open p use {Store, load_tokens, save_tokens, load_features, save_features}

    -- What is to be saved: the validated tokens, and all features.
    abbrev pub tokens_to_save : Dict String EdgeToken → List EdgeToken
    tokens_to_save token_cache = filter is_validated (values token_cache)

    -- a failure is only logged
    unfoldable pub save_known_tokens : Dict String EdgeToken → Store → Store
    save_known_tokens token_cache persister =
        if is_empty token_cache
        then persister
        else (save_tokens (tokens_to_save token_cache) persister).0

    unfoldable pub save_all_features : FeatureCache u → Store → Store
    save_all_features features_cache persister =
        if FeatureCache.is_empty u features_cache
        then persister
        else (save_features features_cache.features persister).0

    -- a turn of `persist_data` where there is a persister
    unfoldable pub persist_turn : Dict String EdgeToken → FeatureCache u → Store → Store
    persist_turn token_cache features_cache persister =
        save_all_features features_cache (save_known_tokens token_cache persister)

    -- the caches of a new process from a backup
    unfoldable pub restored : (e : Engine u) → Store → Option (Caches u e)
    restored e persister = Option.bind (load_tokens persister) (λ tokens.
        Option.bind (load_features persister) (λ features.
          some (hydrate_from_persistent_storage u e tokens features (build_caches u e))))
