-- ===== src/Persistence/Redis.antt =====
-- server/src/persistence/redis.rs: the backup in Redis, a table of texts. What the server answers to a
-- connection, a `GET` and a `SET` is a parameter: an error's text, or that it is done. A single node and a
-- cluster take the same calls.

use Prim.Native.String.{◌++◌ as append_text}
use unleash_edge.Prelude.{String, Option, none, some, List, [], string_eq}
use unleash_edge.Dict
use unleash_edge.Dict.{Dict, extend}
use unleash_edge.Error.{EdgeError, Result, ok, err, ok_or, ◌>>=◌}
use unleash_edge.Types.{EdgeToken}
use unleash_edge.Features.{UnleashTypes, ClientFeatures}
use unleash_edge.Persistence.{Json, FeatureList, EdgePersistence}

-- the text of the error, if there is one
pub record RedisServer : Type 0 where
  pub connects : Option String
  pub gets : String → Option String
  pub sets : String → Option String
  -- the error for a key without a value
  pub no_value : String

abbrev pub Keys : Type 0
Keys = Dict String String

abbrev pub features_key : String
features_key = "unleash-features"

abbrev pub tokens_key : String
tokens_key = "unleash-tokens"

-- `From<RedisError> for EdgeError`
unfoldable pub redis_error : String → EdgeError
redis_error text = EdgeError.persistence_error (append_text "Error connecting to Redis: " text)

-- nothing, or the error of a text
unfoldable pub failed : Option String → Result (Unit {0})
failed none = ok tt
failed (some text) = err (redis_error text)

module _ (server : RedisServer) where
  unfoldable pub get_key : String → Keys → Result String
  get_key key keys = failed server.connects >>= (λ _.
      failed (server.gets key) >>= (λ _. ok_or (redis_error server.no_value) (Dict.get key keys)))

  unfoldable pub set_key : String → String → Keys → Keys × Result (Unit {0})
  set_key key raw keys = elim (failed server.connects >>= (λ _. failed (server.sets key))) [
    | ok _ ↦ (Dict.insert key raw keys, ok tt)
    | err e ↦ (keys, err e)
  ]

  -- the text of a value is set, if it has one
  unfoldable pub set_value : {A : Type 0} → Json A → String → A → Keys → Keys × Result (Unit {0})
  set_value json key value keys = elim (json.to_text value) [
    | none ↦ (keys, err (EdgeError.json_parse_error json.write_error))
    | some raw ↦ set_key key raw keys
  ]

  unfoldable pub load_tokens : Json (List EdgeToken) → Keys → Result (List EdgeToken)
  load_tokens json keys = get_key tokens_key keys >>= (λ raw_tokens.
      ok_or (EdgeError.token_parse_error "Failed to load tokens from redis")
        (json.of_text raw_tokens))

  unfoldable pub save_tokens :
      Json (List EdgeToken) → List EdgeToken → Keys → Keys × Result (Unit {0})
  save_tokens json tokens keys = set_value json tokens_key tokens keys

  module _ (u : UnleashTypes) where
    unfoldable pub load_features :
        Json (FeatureList u) → Keys → Result (Dict String (ClientFeatures u))
    load_features json keys =
        get_key features_key keys
        >>= (λ raw.
            ok_or (EdgeError.client_features_parse_error json.parse_error) (json.of_text raw))
        >>= (λ raw_features. ok (extend [] raw_features))

    unfoldable pub save_features :
        Json (FeatureList u) → FeatureList u → Keys → Keys × Result (Unit {0})
    save_features json features keys = set_value json features_key features keys

    -- `impl EdgePersistence for RedisPersister`
    abbrev pub redis_persister : Json (List EdgeToken) → Json (FeatureList u) → EdgePersistence u
    redis_persister tokens_json features_json = record {
      Store = Keys;
      load_tokens = λ keys. some (load_tokens tokens_json keys);
      save_tokens = save_tokens tokens_json;
      load_features = λ keys. some (load_features features_json keys);
      save_features = save_features features_json;
    }
