-- ===== src/Builder.antt =====
-- server/src/builder.rs and server/src/offline/offline_hotload.rs: the caches at the start.
-- What a file, the persistence and upstream give is an argument.
pub mod Offline
pub mod Started
pub mod Bootstrap
use unleash_edge.Prelude.{
  String, Bool, ◌&&◌, Option, none, some, List, [], ◌∷◌, ◌++◌, map, string_eq, is_empty, is_some,
  filter, if◌then◌else◌, option_lawful,
}
use unleash_edge.Dict
use unleash_edge.Dict.{Dict, values}
use unleash_edge.Error.{EdgeError, Result, ok, err, or_else, ◌>>=◌}
use unleash_edge.Types.{EdgeToken, TokenType, Millis, token_type_lawful}
use unleash_edge.Tokens.{from_str, offline_token, cache_key}
use unleash_edge.Features.{UnleashTypes, ClientFeatures, Engine}
use unleash_edge.FeatureCache
use unleash_edge.FeatureCache.{FeatureCache}
use unleash_edge.TokenValidator.{TokenValidator, register_tokens, insert_tokens}
use unleash_edge.Refresher.State
use unleash_edge.Refresher.State.{Refresher, FeatureRefresherMode, register_token_for_refresh}
use unleash_edge.Refresher.Fetch.{compiled}

-- a token of the command line
unfoldable pub token_of_text : String → EdgeToken
token_of_text token = or_else (from_str token) (offline_token token)

abbrev pub typed : TokenType → EdgeToken → EdgeToken
typed token_type token = record token { token_type = some token_type }

abbrev pub is_client : EdgeToken → Bool
is_client candidate =
    (option_lawful token_type_lawful).beq candidate.token_type (some TokenType.client)

-- the refresher's mode by `(strict, streaming)`
abbrev pub refresher_mode : Bool → Bool → FeatureRefresherMode
refresher_mode strict streaming =
    if streaming
    then FeatureRefresherMode.streaming
    else if strict
    then FeatureRefresherMode.strict
    else FeatureRefresherMode.dynamic

module _ (u : UnleashTypes) (e : Engine u) where
  -- `CacheContainer`
  pub record Caches : Type 0 where
    pub token_cache : Dict String EdgeToken
    pub features_cache : FeatureCache u
    pub engine_cache : Dict String (e.State)

  unfoldable pub build_caches : Caches
  build_caches = record {
    token_cache = [];
    features_cache = FeatureCache.new u [];
    engine_cache = [];
  }

  -- features go into the cache, and a new engine compiled from them
  unfoldable pub put_features : String → ClientFeatures u → Caches → Caches
  put_features key features c = record c {
    features_cache = (FeatureCache.insert u key features c.features_cache).0;
    engine_cache = Dict.insert key (compiled u e features) c.engine_cache;
  }

  -- the loop over the loaded features
  unfoldable pub hydrate_features : List (String × ClientFeatures u) → Caches → Caches
  hydrate_features [] c = c
  hydrate_features ((key, features) ∷ rest) c = hydrate_features rest (put_features key features c)

  -- what cannot be loaded is empty
  unfoldable pub hydrate_from_persistent_storage :
      Result (List EdgeToken) → Result (List (String × ClientFeatures u)) → Caches → Caches
  hydrate_from_persistent_storage tokens features c =
      hydrate_features (or_else features [])
        (record c { token_cache = insert_tokens (or_else tokens []) c.token_cache })

  unfoldable pub load_offline_engine_cache : EdgeToken → ClientFeatures u → Caches → Caches
  unfolding put_features
  load_offline_engine_cache edge_token client_features c =
      put_features (cache_key edge_token) client_features c

  -- the loop over tokens of one kind
  unfoldable pub load_offline_tokens : ClientFeatures u → List EdgeToken → Caches → Caches
  load_offline_tokens client_features [] c = c
  load_offline_tokens client_features (edge_token ∷ rest) c =
      load_offline_tokens client_features rest (
        load_offline_engine_cache edge_token client_features
          (record c { token_cache = Dict.insert edge_token.token edge_token c.token_cache }))

  unfoldable pub build_offline_mode :
      ClientFeatures u → List String → List String → List String → Caches
  build_offline_mode client_features tokens client_tokens frontend_tokens =
      load_offline_tokens client_features
        (map (λ t. typed TokenType.frontend (token_of_text t)) frontend_tokens)
        (load_offline_tokens client_features
          (map (λ t. typed TokenType.client (token_of_text t)) client_tokens)
          (load_offline_tokens client_features (map token_of_text tokens) build_caches))

  -- `bootstrap` is what opening, reading and parsing the bootstrap file gives, if there is one.
  unfoldable pub build_offline :
      Option (Result (ClientFeatures u)) → List String → List String → List String → Result Caches
  build_offline bootstrap tokens client_tokens frontend_tokens =
      if is_empty tokens && is_empty client_tokens
      then err (
          EdgeError.no_tokens
            "No tokens provided. Tokens must be specified when running in offline mode")
      else elim bootstrap [
        | none ↦ err EdgeError.no_features_file
        | some loaded ↦
            loaded >>= (λ f. ok (build_offline_mode f tokens client_tokens frontend_tokens))
      ]

  -- the loop over the known tokens in a turn of `start_hotload_loop`
  unfoldable pub reload_tokens : ClientFeatures u → List String → Caches → Caches
  reload_tokens bootstrap [] c = c
  reload_tokens bootstrap (token ∷ rest) c =
      reload_tokens bootstrap rest (load_offline_engine_cache (token_of_text token) bootstrap c)

  unfoldable pub hotload_turn : Option (Result (ClientFeatures u)) → List String → Caches → Caches
  hotload_turn (some (ok bootstrap)) known_tokens c = reload_tokens bootstrap known_tokens c
  hotload_turn (some (err x)) known_tokens c = c
  hotload_turn none known_tokens c = c

  -- the loop that registers the client tokens
  unfoldable pub register_for_refresh : List EdgeToken → Refresher u e → Refresher u e
  register_for_refresh [] self = self
  register_for_refresh (token ∷ rest) self =
      register_for_refresh rest (register_token_for_refresh u e token none self)

  -- `upsert` and `validate` are the parameters of the registration, `client` is what building the HTTP
  -- client and parsing the upstream URL gives, `storage` what the persistence loads, if there is one.
  module _ (upsert : List EdgeToken → List EdgeToken → List EdgeToken)
      (validate : List String → Result (List EdgeToken)) (client : Result (Unit {0}))
      (storage : Option (Result (List EdgeToken) × Result (List (String × ClientFeatures u)))) where
    -- the caches after the registration and the hydration
    unfoldable pub startup_caches : List String → Caches
    startup_caches tokens =
        let v : TokenValidator = record {
          token_cache = [];
          persistence = is_some storage;
          saved = [];
        } in
        let c : Caches = record build_caches {
          token_cache = (register_tokens upsert validate tokens v).0.token_cache;
        } in
        elim storage [
          | none ↦ c
          | some (stored_tokens, stored_features) ↦
              hydrate_from_persistent_storage stored_tokens stored_features c
        ]

    unfoldable pub build_edge :
        Bool → Bool → Bool → Millis → List String → Result (Dict String EdgeToken × Refresher u e)
    build_edge strict streaming delta interval tokens =
        if strict && is_empty tokens
        then err (
            EdgeError.no_tokens
              "No tokens provided. Tokens must be specified when running with strict behavior")
        else client >>= (λ _.
          let c = startup_caches tokens in
          if strict && is_empty c.token_cache
          then err (
              EdgeError.no_tokens
                "No valid tokens was provided on startup. At least one valid token must be specified at startup when running in Strict mode")
          else ok (
            c.token_cache,
            register_for_refresh (filter is_client (values c.token_cache)) (
                State.new u e c.features_cache c.engine_cache interval
                  (refresher_mode strict streaming) delta),
          ))
