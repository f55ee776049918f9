-- ===== src/Persistence/S3.antt =====
-- server/src/persistence/s3.rs: the backup in a bucket, a table of the objects by key. What the service
-- answers to a call is a parameter. A body that cannot be read is a panic: `none`.
use Prim.Native.String.{◌++◌ as append_text}
use unleash_edge.Prelude.{String, Bool, Option, none, some, List, [], string_eq, if◌then◌else◌}
use unleash_edge.Dict
use unleash_edge.Dict.{Dict, extend}
use unleash_edge.Error.{EdgeError, Result, ok, err, ok_or, ◌>>=◌}
use unleash_edge.Types.{EdgeToken}
use unleash_edge.Features.{UnleashTypes, ClientFeatures}
use unleash_edge.Persistence.{Json, FeatureList, EdgePersistence}

-- The text of the error for a key, if there is one; whether a body can be read; whether a put is accepted.
pub record Service : Type 0 where
  pub get_fails : String → Option String
  pub collects : String → Bool
  pub puts : String → Bool
  -- the error for a key without an object
  pub no_such_key : String

abbrev pub Bucket : Type 0
Bucket = Dict String String

abbrev pub features_key : String
features_key = "/unleash-features.json"

abbrev pub tokens_key : String
tokens_key = "/unleash-tokens.json"

module _ (s3 : Service) where
  -- `get_object`: the body, or the text of the error
  unfoldable pub get_object : String → Bucket → Option String × String
  get_object key bucket = elim (s3.get_fails key) [
    | some error ↦ (none, error)
    | none ↦ (Dict.get key bucket, s3.no_such_key)
  ]

  -- `body.collect().await.expect(…)`
  abbrev pub collect : {A : Type 0} → String → A → Option A
  collect key a = if s3.collects key then some a else none

  -- `put_object` of the text of a value
  unfoldable pub put_value :
      {A : Type 0}
      → Json A
      → String
      → EdgeError
      → EdgeError
      → A
      → Bucket
      → Bucket × Result (Unit {0})
  put_value json key no_text no_put value bucket = elim (json.to_text value) [
    | none ↦ (bucket, err no_text)
    | some body ↦ if s3.puts key then (Dict.insert key body bucket, ok tt) else (bucket, err no_put)
  ]

  -- the tokens of an object, or the error of the call
  abbrev pub tokens_of_object :
      Json (List EdgeToken) → Option String × String → Option (Result (List EdgeToken))
  tokens_of_object json (none, error) =
      some (err (EdgeError.persistence_error (append_text "failed to get object " error)))
  tokens_of_object json (some body, error) =
      collect tokens_key
        (ok_or (EdgeError.persistence_error "Failed to deserialize tokens") (json.of_text body))

  unfoldable pub load_tokens : Json (List EdgeToken) → Bucket → Option (Result (List EdgeToken))
  load_tokens json bucket = tokens_of_object json (get_object tokens_key bucket)

  unfoldable pub save_tokens :
      Json (List EdgeToken) → List EdgeToken → Bucket → Bucket × Result (Unit {0})
  save_tokens json tokens bucket =
      put_value json tokens_key (EdgeError.persistence_error "Failed to serialize tokens")
        (EdgeError.persistence_error "Failed to save tokens") tokens bucket

  module _ (u : UnleashTypes) where
    -- an object that cannot be got, for whatever reason, is a table without features
    unfoldable pub load_features :
        Json (FeatureList u) → Bucket → Option (Result (Dict String (ClientFeatures u)))
    load_features json bucket = elim (get_object features_key bucket).0 [
      | none ↦ some (ok [])
      | some body ↦ collect features_key (
          ok_or (EdgeError.persistence_error "Failed to deserialize features") (json.of_text body)
          >>= (λ deser. ok (extend [] deser)))
    ]

    unfoldable pub save_features :
        Json (FeatureList u) → FeatureList u → Bucket → Bucket × Result (Unit {0})
    save_features json features bucket =
        put_value json features_key (EdgeError.persistence_error "Failed to serialize features")
          (EdgeError.persistence_error "Failed to save features") features bucket

    -- `impl EdgePersistence for S3Persister`
    abbrev pub s3_persister : Json (List EdgeToken) → Json (FeatureList u) → EdgePersistence u
    s3_persister tokens_json features_json = record {
      Store = Bucket;
      load_tokens = load_tokens tokens_json;
      save_tokens = save_tokens tokens_json;
      load_features = load_features features_json;
      save_features = save_features features_json;
    }
