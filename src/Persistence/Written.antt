-- ===== src/Persistence/Written.antt =====
-- What the saves of the three backups leave in their tables.

use unleash_edge.Prelude.{
  ◌≡◌, refl, ◌∙◌, String, false, none, some, unwrap_or, string_eq, arith, ◌==◌, Option-cases,
  Bool-cases, inl, inr,
}
use unleash_edge.Dict
use unleash_edge.Dict.{Dict, extend}
use unleash_edge.Dict.Laws.{get-insert}
use unleash_edge.Error.{EdgeError, Result-cases, ok, ◌>>=◌}
use unleash_edge.Persistence.{Json}
use unleash_edge.Persistence.File.{FileSystem, write_all, save}
use unleash_edge.Persistence.Redis.{RedisServer, failed, set_key, set_value}
use unleash_edge.Persistence.S3.{Service, put_value}

-- A table has the text of a value under a key.
abbrev pub Written : {A : Type 0} → Json A → String → A → Dict String String → Type 0
Written json key value after =
    ((text : String) × (json.to_text value ≡ some text) × (Dict.get key after ≡ some text))

pub set_same : (k v : String) (m : Dict String String) → Dict.get k (Dict.insert k v m) ≡ some v
set_same k v m = ground (arith, get-insert k k v m, string_eq.beq_refl k)

set_other :
    (k j v : String) (m : Dict String String)
    → k == j ≡ false
    → Dict.get j (Dict.insert k v m) ≡ Dict.get j m
set_other k j v m n = ground (arith, get-insert j k v m, n)

module _ {A : Type 0} (json : Json A) (key : String) (value : A) (m : Dict String String) where
  module _ (fs : FileSystem) (c n w : EdgeError) where
    pub save-Written :
        fs.fails_late key ≡ none
        → (save fs json key c n w value m).1 ≡ ok tt
        → Written json key value (save fs json key c n w value m).0
    unfolding save write_all
    save-Written finishes done = elim (Bool-cases (fs.creates key)) [
      | inl y ↦ elim (Option-cases (json.to_text value)) [
        | inl e ↦ absurd (ground (arith, rw (y, e, save) at done))
        | inr (text, e) ↦ elim (Option-cases (fs.fails key)) [
          | inl f ↦ (text, e, rw (y, e, save, f, write_all, finishes) (set_same key text _))
          | inr (part, f) ↦ absurd (ground (arith, rw (y, e, save, f, write_all) at done))
        ]
      ]
      | inr n' ↦ absurd (ground (arith, rw (n', save) at done))
    ]

    pub save_other :
        (j : String)
        → key == j ≡ false
        → Dict.get j (save fs json key c n w value m).0 ≡ Dict.get j m
    unfolding save write_all
    save_other j h = elim (Bool-cases (fs.creates key)) [
      | inl y ↦ elim (Option-cases (json.to_text value)) [
        | inl e ↦ rw (y, e, save) (set_other key j "" m h)
        | inr (text, e) ↦ elim (Option-cases (fs.fails key)) [
          | inl f ↦
              rw (y, e, save, f, write_all)
                (set_other key j (unwrap_or (fs.fails_late key) text) _ h ∙ set_other key j "" m h)
          | inr (part, f) ↦
              rw (y, e, save, f, write_all) (set_other key j part _ h ∙ set_other key j "" m h)
        ]
      ]
      | inr n' ↦ rw (n', save) refl
    ]

  module _ (server : RedisServer) where
    pub set-Written :
        (set_value server json key value m).1 ≡ ok tt
        → Written json key value (set_value server json key value m).0
    unfolding set_value set_key
    set-Written done = elim (Option-cases (json.to_text value)) [
      | inl e ↦ absurd (ground (arith, rw (e, set_value) at done))
      | inr (raw, e) ↦
          elim (Result-cases (failed server.connects >>= (λ _. failed (server.sets key)))) [
            | inl (x, f) ↦ absurd (ground (arith, rw (e, set_value, f, set_key) at done))
            | inr (_, f) ↦ (raw, e, rw (e, set_value, f, set_key) (set_same key raw m))
          ]
    ]

    pub set_value_other :
        (j : String)
        → key == j ≡ false
        → Dict.get j (set_value server json key value m).0 ≡ Dict.get j m
    unfolding set_value set_key
    set_value_other j h = elim (Option-cases (json.to_text value)) [
      | inl e ↦ rw (e, set_value) refl
      | inr (raw, e) ↦
          elim (Result-cases (failed server.connects >>= (λ _. failed (server.sets key)))) [
            | inl (x, f) ↦ rw (e, set_value, f, set_key) refl
            | inr (_, f) ↦ rw (e, set_value, f, set_key) (set_other key j raw m h)
          ]
    ]

  module _ (s3 : Service) (n w : EdgeError) where
    pub put-Written :
        (put_value s3 json key n w value m).1 ≡ ok tt
        → Written json key value (put_value s3 json key n w value m).0
    unfolding put_value
    put-Written done = elim (Option-cases (json.to_text value)) [
      | inl e ↦ absurd (ground (arith, rw (e, put_value) at done))
      | inr (body, e) ↦ elim (Bool-cases (s3.puts key)) [
        | inl y ↦ (body, e, rw (e, put_value, y) (set_same key body m))
        | inr n' ↦ absurd (ground (arith, rw (e, put_value, n') at done))
      ]
    ]

    pub put_other :
        (j : String)
        → key == j ≡ false
        → Dict.get j (put_value s3 json key n w value m).0 ≡ Dict.get j m
    unfolding put_value
    put_other j h = elim (Option-cases (json.to_text value)) [
      | inl e ↦ rw (e, put_value) refl
      | inr (body, e) ↦ elim (Bool-cases (s3.puts key)) [
        | inl y ↦ rw (e, put_value, y) (set_other key j body m h)
        | inr n' ↦ rw (e, put_value, n') refl
      ]
    ]
