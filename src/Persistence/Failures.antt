-- ===== src/Persistence/Failures.antt =====
-- What a save that fails leaves of the backup.
use unleash_edge.Prelude.{
  ◌≡◌, ◌⊎◌, refl, String, true, false, none, some, string_eq, Option-cases, Bool-cases, inl, inr,
}
use unleash_edge.Dict
use unleash_edge.Dict.{Dict}
use unleash_edge.Error.{EdgeError, Result-cases, ok, err, ◌>>=◌}
use unleash_edge.Persistence.{Json}
use unleash_edge.Persistence.Written.{set_same}
use unleash_edge.Persistence.File.{FileSystem, write_all, save}
use unleash_edge.Persistence.Redis.{RedisServer, failed, set_key, set_value}
use unleash_edge.Persistence.S3.{Service, put_value}

module _ {A : Type 0} (json : Json A) (key : String) (value : A) (m : Dict String String) where
  redis_kept :
      (server : RedisServer)
      → ((set_value server json key value m).1 ≡ ok tt)
        ⊎ ((set_value server json key value m).0 ≡ m)
  unfolding set_value set_key
  redis_kept server = elim (Option-cases (json.to_text value)) [
    | inl e ↦ inr (rw (e, set_value) refl)
    | inr (raw, e) ↦
        elim (Result-cases (failed server.connects >>= (λ _. failed (server.sets key)))) [
          | inl (x, f) ↦ inr (rw (e, set_value, f, set_key) refl)
          | inr (_, f) ↦ inl (rw (e, set_value, f, set_key) refl)
        ]
  ]

  s3_kept :
      (s3 : Service) (n w : EdgeError)
      → ((put_value s3 json key n w value m).1 ≡ ok tt)
        ⊎ ((put_value s3 json key n w value m).0 ≡ m)
  unfolding put_value
  s3_kept s3 n w = elim (Option-cases (json.to_text value)) [
    | inl e ↦ inr (rw (e, put_value) refl)
    | inr (body, e) ↦ elim (Bool-cases (s3.puts key)) [
      | inl y ↦ inl (rw (e, put_value, y) refl)
      | inr n' ↦ inr (rw (e, put_value, n') refl)
    ]
  ]

  -- What a save to a file leaves where it does not write the new contents, and what it tells: a file that
  -- cannot be created is as it was, with an error; else the old contents are gone. The file is empty, with
  -- an error, if there is no text, and has a part of the text if writing fails: with an error if
  -- the write itself does, and without one if it does so after it has returned.
  abbrev pub FileSaves : FileSystem → EdgeError → EdgeError → EdgeError → Type 0
  FileSaves fs c n w =
      let (after, result) = save fs json key c n w value m in
      (fs.creates key ≡ false → (after ≡ m) × (result ≡ err c))
      × (fs.creates key ≡ true
          → json.to_text value ≡ none
          → (Dict.get key after ≡ some "") × (result ≡ err n))
      × ((text part : String)
          → fs.creates key ≡ true
          → json.to_text value ≡ some text
          → (fs.fails key ≡ some part → (Dict.get key after ≡ some part) × (result ≡ err w))
            × (fs.fails key ≡ none
                → fs.fails_late key ≡ some part
                → (Dict.get key after ≡ some part) × (result ≡ ok tt)))

  file_saves : (fs : FileSystem) (c n w : EdgeError) → FileSaves fs c n w
  unfolding save write_all
  file_saves fs c n w = (
    λ no_file. (rw (no_file, save) refl, rw (no_file, save) refl),
    λ y e. (rw (y, e, save) (set_same key "" m), rw (y, e, save) refl),
    λ text part y e. (
      λ f.
          (rw (y, e, save, f, write_all) (set_same key part _), rw (y, e, save, f, write_all) refl),
      λ f late. (
        rw (y, e, save, f, write_all, late) (set_same key part _),
        rw (y, e, save, f, write_all) refl,
      ),
    ),
  )

  pub failed_save :
      (server : RedisServer) (s3 : Service) (fs : FileSystem) (c n w : EdgeError)
      → (((set_value server json key value m).1 ≡ ok tt)
          ⊎ ((set_value server json key value m).0 ≡ m))
        × (((put_value s3 json key n w value m).1 ≡ ok tt)
            ⊎ ((put_value s3 json key n w value m).0 ≡ m))
        × FileSaves fs c n w
  failed_save server s3 fs c n w = (redis_kept server, s3_kept s3 n w, file_saves fs c n w)
