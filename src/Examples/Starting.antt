-- ===== src/Examples/Starting.antt =====
-- The theorems on the start at concrete inputs.
use unleash_edge.Prelude.{
  ◌≡◌, refl, String, true, false, none, some, List, [], ◌∷◌, Memᴰ, string_eq, filter, any, is_empty,
  filter_map, try_fold, take,
}
use unleash_edge.Dict
use unleash_edge.Dict.{Dict, contains}
use unleash_edge.Text.{trim, split, contains_char}
use unleash_edge.Error.{EdgeError, Result, ok, err}
use unleash_edge.Types
use unleash_edge.Types.{EdgeToken, TokenType}
use unleash_edge.Features.{ClientFeatures}
use unleash_edge.FeatureCache
use unleash_edge.FeatureCache.{FeatureCache, send_full_update}
use unleash_edge.TokenValidator.{
  register_tokens, register_unknown, get_unknown_and_known_tokens, insert_tokens, parse,
}
use unleash_edge.Tokens.{
  cache_key, from_str, from_trimmed_str, read_parts, read_env_and_key, simplify,
  filter_unique_tokens, filter_unique_from, keep_unless_subsumed,
}
use unleash_edge.Refresher.State
use unleash_edge.Refresher.State.{Refresher, insert_refreshes, register_token_for_refresh}
use unleash_edge.Refresher.Engines.{InSync}
use unleash_edge.Builder.{
  build_edge, build_offline_mode, startup_caches, hydrate_from_persistent_storage, hydrate_features,
  put_features, build_caches, register_for_refresh, token_of_text,
}
use unleash_edge.Builder.Offline.{offline_serves}
use unleash_edge.Builder.Started.{build_edge-InSync, build_edge_keeps_backup}
use unleash_edge.Examples.Samples.{sample_types, sample_engine, features_of, toggle, project_token}

abbrev bootstrap : ClientFeatures sample_types
bootstrap = features_of (toggle ∷ [])

offline_serves_example :
    (FeatureCache.get sample_types "development"
        (build_offline_mode sample_types sample_engine bootstrap [] []
          ("a:development.2222222" ∷ [])).features_cache
      ≡ some bootstrap)
    × (Dict.get "development"
          (build_offline_mode sample_types sample_engine bootstrap [] []
            ("a:development.2222222" ∷ [])).engine_cache
        ≡ some bootstrap)
unfolding any token_of_text from_str from_trimmed_str read_parts read_env_and_key trim split
    contains_char take cache_key
offline_serves_example =
    (offline_serves sample_types sample_engine bootstrap [] [] ("a:development.2222222" ∷ [])).0
      "development"

abbrev unreachable : List String → Result (List EdgeToken)
unreachable _ = err EdgeError.edge_token_error

abbrev backup : Result (List EdgeToken) × Result (List (String × ClientFeatures sample_types))
backup = (ok (project_token ∷ []), ok (("development", bootstrap) ∷ []))

abbrev known : Dict String EdgeToken
known = ("a:development.2222222", project_token) ∷ []

abbrev refresher : Refresher sample_types sample_engine
refresher = record {
  tokens_to_refresh = ("a:development.2222222", Types.new project_token none) ∷ [];
  features_cache = record {
    features = ("development", bootstrap) ∷ [];
    sent = FeatureCache.UpdateType.full "development" ∷ [];
  };
  engine_cache = ("development", bootstrap) ∷ [];
  refresh_interval = 1000;
  strict = true;
  streaming = false;
  delta = false;
}

-- upstream does not answer, and the backup has a client token and its features
strict_start :
    build_edge sample_types sample_engine
      (λ a b. a)
      unreachable
      (ok tt)
      (some backup)
      true
      false
      false
      1000
      ("a:development.2222222" ∷ [])
    ≡ ok (known, refresher)
unfolding any token_of_text from_str from_trimmed_str read_parts read_env_and_key trim split
    contains_char take cache_key build_edge startup_caches hydrate_from_persistent_storage
    hydrate_features put_features build_caches register_for_refresh register_token_for_refresh
    simplify filter_unique_tokens filter_unique_from keep_unless_subsumed insert_refreshes filter
    filter_map try_fold contains State.new Dict.get Dict.insert Dict.retain Dict.contains_key
    FeatureCache.insert FeatureCache.new FeatureCache.get send_full_update register_tokens
    register_unknown get_unknown_and_known_tokens insert_tokens parse Types.new
strict_start = refl

build_edge-InSync_example :
    InSync sample_types sample_engine refresher
    × (true ≡ true
        → (is_empty {A = String} ("a:development.2222222" ∷ []) ≡ false) × (is_empty known ≡ false))
build_edge-InSync_example =
    build_edge-InSync sample_types sample_engine (λ a b. a) unreachable (ok tt)
      ("a:development.2222222" ∷ []) true false false 1000 (some backup) known refresher
      strict_start

build_edge_keeps_backup_example :
    (s : EdgeToken) × (Dict.get "a:development.2222222" known ≡ some s)
    × Memᴰ s (project_token ∷ [])
    × (s.token ≡ "a:development.2222222")
build_edge_keeps_backup_example =
    build_edge_keeps_backup sample_types sample_engine (λ a b. a) unreachable (ok tt)
      ("a:development.2222222" ∷ []) true false false 1000 (project_token ∷ [])
      (ok (("development", bootstrap) ∷ [])) known refresher strict_start project_token
      (Memᴰ.head refl)
