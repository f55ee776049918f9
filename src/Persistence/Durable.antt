-- ===== src/Persistence/Durable.antt =====
-- What is asked of a backup, and that each of the three is one as long as its reads succeed.

use unleash_edge.Prelude.{
  ◌≡◌, refl, sym, ◌∙◌, ap, String, true, Option, none, some, List, [], string_eq, arith,
}
use unleash_edge.Dict
use unleash_edge.Dict.{Dict, extend}
use unleash_edge.Error.{EdgeError, ok, ok_or, ◌>>=◌}
use unleash_edge.Types.{EdgeToken}
use unleash_edge.Features.{UnleashTypes}
use unleash_edge.Persistence.{Json, FeatureList, EdgePersistence}
use unleash_edge.Persistence.Written.{
  save-Written, save_other, set-Written, set_value_other, put-Written, put_other,
}
use unleash_edge.Persistence.File
use unleash_edge.Persistence.File.{
  FileSystem, Folder, file_persister, open_file, load, write_all, save,
}
use unleash_edge.Persistence.Redis
use unleash_edge.Persistence.Redis.{
  RedisServer, Keys, redis_persister, failed, get_key, set_key, set_value,
}
use unleash_edge.Persistence.S3
use unleash_edge.Persistence.S3.{Service, Bucket, s3_persister, get_object, put_value}

-- What was saved without an error is loaded, and saving features leaves the tokens.
pub record IsDurable (u : UnleashTypes) (p : EdgePersistence u) : Type 0 where
  pub tokens_kept :
      (l : List EdgeToken) (s : p.Store)
      → (p.save_tokens l s).1 ≡ ok tt
      → p.load_tokens (p.save_tokens l s).0 ≡ some (ok l)
  pub features_kept :
      (l : FeatureList u) (s : p.Store)
      → (p.save_features l s).1 ≡ ok tt
      → p.load_features (p.save_features l s).0 ≡ some (ok (extend [] l))
  pub tokens_apart :
      (l : FeatureList u) (s : p.Store) → p.load_tokens (p.save_features l s).0 ≡ p.load_tokens s

-- What is written is read again.
abbrev pub RoundTrips : {A : Type 0} → Json A → Type 0
RoundTrips {A} json = (a : A) (t : String) → json.to_text a ≡ some t → json.of_text t ≡ some a

module _ (u : UnleashTypes) (tokens : Json (List EdgeToken)) (features : Json (FeatureList u))
    (tokens_round : RoundTrips tokens) (features_round : RoundTrips features) where
  -- A folder keeps what is saved without an error, as long as its two files can be opened and read
  -- and no write of them fails after it has returned.
  file-IsDurable :
      (fs : FileSystem)
      → ((path : String) → fs.opens path ≡ true)
      → ((path : String) → fs.reads path ≡ true)
      → ((path : String) → fs.fails_late path ≡ none)
      → IsDurable u (file_persister fs u tokens features)
  unfolding File.save_tokens File.load_tokens File.save_features File.load_features load open_file
  file-IsDurable fs can_open can_read finishes = record {
    tokens_kept = λ l s done.
        let (text, e, found) = save-Written tokens _ l s fs _ _ _ (finishes File.token_path) done in
        rw (can_open File.token_path, can_read File.token_path, found, tokens_round l text e) refl;
    features_kept = λ l s done.
        let (text, e, found) =
          save-Written features _ l s fs _ _ _ (finishes File.features_path) done in
        rw
          (can_open File.features_path, can_read File.features_path, found, features_round l text e)
          refl;
    tokens_apart =
        λ l s. rw (save_other features File.features_path l s fs _ _ _ File.token_path refl) refl;
  }

  got :
      (server : RedisServer) (key raw : String) (keys : Keys)
      → server.connects ≡ none
      → server.gets key ≡ none
      → Dict.get key keys ≡ some raw
      → get_key server key keys ≡ ok raw
  unfolding get_key failed
  got server key raw keys up answers found = ground (arith, up, answers, found)

  -- Redis keeps what is saved without an error, as long as it answers.
  redis-IsDurable :
      (server : RedisServer)
      → server.connects ≡ none
      → ((key : String) → server.gets key ≡ none)
      → IsDurable u (redis_persister server u tokens features)
  unfolding Redis.save_tokens Redis.load_tokens Redis.save_features Redis.load_features get_key
  redis-IsDurable server up answers = record {
    tokens_kept = λ l s done.
        let (text, e, found) = set-Written tokens _ l s server done in
        rw
          (
            got server Redis.tokens_key text _ up (answers Redis.tokens_key) found,
            tokens_round l text e,
          )
          refl;
    features_kept = λ l s done.
        let (text, e, found) = set-Written features _ l s server done in
        rw
          (
            got server Redis.features_key text _ up (answers Redis.features_key) found,
            features_round l text e,
          )
          refl;
    tokens_apart = λ l s.
        ap
          (λ (o : Option String). some (
            failed server.connects
            >>= (λ _.
                failed (server.gets Redis.tokens_key)
                >>= (λ _. ok_or (Redis.redis_error server.no_value) o))
            >>= (λ raw.
                ok_or (EdgeError.token_parse_error "Failed to load tokens from redis")
                  (tokens.of_text raw))))
          (set_value_other features Redis.features_key l s server Redis.tokens_key refl);
  }

  got_object :
      (s3 : Service) (key : String) (bucket : Bucket)
      → s3.get_fails key ≡ none
      → get_object s3 key bucket ≡ (Dict.get key bucket, s3.no_such_key)
  unfolding get_object
  got_object s3 key bucket gets = ground (arith, gets)

  -- A bucket keeps what is saved without an error, as long as objects and their bodies can be got.
  s3-IsDurable :
      (s3 : Service)
      → ((key : String) → s3.get_fails key ≡ none)
      → ((key : String) → s3.collects key ≡ true)
      → IsDurable u (s3_persister s3 u tokens features)
  unfolding S3.save_tokens S3.load_tokens S3.save_features S3.load_features
  s3-IsDurable s3 gets collects = record {
    tokens_kept = λ l s done.
        let (text, e, found) = put-Written tokens _ l s s3 _ _ done in
        rw
          (
            got_object s3 S3.tokens_key _ (gets S3.tokens_key),
            S3.load_tokens,
            found,
            collects S3.tokens_key,
            tokens_round l text e,
          )
          refl;
    features_kept = λ l s done.
        let (text, e, found) = put-Written features _ l s s3 _ _ done in
        rw
          (
            got_object s3 S3.features_key _ (gets S3.features_key),
            S3.load_features,
            found,
            collects S3.features_key,
            features_round l text e,
          )
          refl;
    tokens_apart = λ l s. ap (S3.tokens_of_object s3 tokens) (
        got_object s3 S3.tokens_key _ (gets S3.tokens_key)
        ∙ (ap (λ (o : Option String). (o, s3.no_such_key))
              (put_other features S3.features_key l s s3 _ _ S3.tokens_key refl)
            ∙ sym (got_object s3 S3.tokens_key s (gets S3.tokens_key))));
  }

  -- Each of the three backups keeps what is saved without an error, as long as its reads succeed: the
  -- files of a folder can be opened and read, Redis answers, and objects and their bodies can be got. For
  -- the files it is also asked that no write fails after it has returned: such an error is not seen.
  -- JSON that is written is read again.
  pub persisters-IsDurable :
      (fs : FileSystem) (server : RedisServer) (s3 : Service)
      → ((path : String)
          → (fs.opens path ≡ true) × (fs.reads path ≡ true) × (fs.fails_late path ≡ none))
      → server.connects ≡ none
      → ((key : String) → server.gets key ≡ none)
      → ((key : String) → (s3.get_fails key ≡ none) × (s3.collects key ≡ true))
      → IsDurable u (file_persister fs u tokens features)
        × IsDurable u (redis_persister server u tokens features)
        × IsDurable u (s3_persister s3 u tokens features)
  persisters-IsDurable fs server s3 readable up answers found = (
    file-IsDurable fs (λ path. (readable path).0) (λ path. (readable path).1)
        (λ path. (readable path).2),
    redis-IsDurable server up answers,
    s3-IsDurable s3 (λ key. (found key).0) (λ key. (found key).1),
  )
