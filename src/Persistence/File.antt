-- ===== src/Persistence/File.antt =====
-- server/src/persistence/file.rs: the backup in a folder. The folder is a table of the contents of its
-- files by name; what the file system lets happen to a file is a parameter.

use unleash_edge.Prelude.{
  String, Bool, unwrap_or, Option, none, some, List, [], string_eq, if◌then◌else◌,
}
use unleash_edge.Dict
use unleash_edge.Dict.{Dict, extend}
use unleash_edge.Error.{EdgeError, Result, ok, err, ok_or, ◌>>=◌}
use unleash_edge.Types.{EdgeToken}
use unleash_edge.Features.{UnleashTypes, ClientFeatures}
use unleash_edge.Persistence.{Json, FeatureList, EdgePersistence}

-- Which files can be opened, read and created; what of a text gets into a file when a write fails; and what
-- is left of one whose write fails after `write_all` has returned. A file of tokio is written in the
-- background, and nothing flushes it, so that such an error is never seen.
pub record FileSystem : Type 0 where
  pub opens : String → Bool
  pub reads : String → Bool
  pub creates : String → Bool
  pub fails : String → Option String
  pub fails_late : String → Option String

abbrev pub Folder : Type 0
Folder = Dict String String

abbrev pub token_path : String
token_path = "unleash_tokens.json"

abbrev pub features_path : String
features_path = "unleash_features.json"

module _ (fs : FileSystem) where
  -- `File::open`
  unfoldable pub open_file : String → Folder → Option String
  open_file path folder = if fs.opens path then Dict.get path folder else none

  unfoldable pub load :
      {A : Type 0} → Json A → String → EdgeError → EdgeError → EdgeError → Folder → Result A
  unfolding open_file
  load json path no_open no_read no_parse folder =
      ok_or no_open (open_file path folder) >>= (λ contents.
        if fs.reads path then ok_or no_parse (json.of_text contents) else err no_read)

  -- `write_all` to a file that was created
  unfoldable pub write_all : String → String → EdgeError → Folder → Folder × Result (Unit {0})
  write_all path text no_write folder = elim (fs.fails path) [
    | none ↦ (Dict.insert path (unwrap_or (fs.fails_late path) text) folder, ok tt)
    | some part ↦ (Dict.insert path part folder, err no_write)
  ]

  -- a file is created, and so made empty, before the value is written as text
  unfoldable pub save :
      {A : Type 0}
      → Json A
      → String
      → EdgeError
      → EdgeError
      → EdgeError
      → A
      → Folder
      → Folder × Result (Unit {0})
  save json path no_create no_text no_write value folder =
      if fs.creates path
      then elim (json.to_text value) [
        | none ↦ (Dict.insert path "" folder, err no_text)
        | some text ↦ write_all path text no_write (Dict.insert path "" folder)
      ]
      else (folder, err no_create)

  unfoldable pub load_tokens : Json (List EdgeToken) → Folder → Result (List EdgeToken)
  load_tokens json folder =
      load json token_path
        (EdgeError.persistence_error "Cannot load tokens from backup, opening backup file failed")
        (EdgeError.persistence_error "Cannot load tokens from backup, reading backup file failed")
        (EdgeError.persistence_error "Cannot load tokens from backup, parsing backup file failed")
        folder

  unfoldable pub save_tokens :
      Json (List EdgeToken) → List EdgeToken → Folder → Folder × Result (Unit {0})
  save_tokens json tokens folder =
      save json token_path
        (EdgeError.persistence_error
          "Cannot write tokens to backup. Opening backup file for writing failed")
        (EdgeError.persistence_error "Failed to serialize tokens")
        (EdgeError.persistence_error "Could not serialize tokens to disc") tokens folder

  module _ (u : UnleashTypes) where
    unfoldable pub load_features :
        Json (FeatureList u) → Folder → Result (Dict String (ClientFeatures u))
    load_features json folder =
        load json features_path
          (EdgeError.persistence_error
            "Cannot load features from backup, opening backup file failed")
          (EdgeError.persistence_error
            "Cannot load features from backup, reading backup file failed")
          (EdgeError.persistence_error
            "Cannot load features from backup, parsing backup file failed")
          folder
        >>= (λ contents. ok (extend [] contents))

    unfoldable pub save_features :
        Json (FeatureList u) → FeatureList u → Folder → Folder × Result (Unit {0})
    save_features json features folder =
        save json features_path
          (EdgeError.persistence_error
            "Cannot write tokens to backup. Opening backup file for writing failed")
          (EdgeError.persistence_error "Failed to serialize features")
          (EdgeError.persistence_error "Could not serialize tokens to disc") features folder

    -- `impl EdgePersistence for FilePersister`
    abbrev pub file_persister : Json (List EdgeToken) → Json (FeatureList u) → EdgePersistence u
    file_persister tokens_json features_json = record {
      Store = Folder;
      load_tokens = λ folder. some (load_tokens tokens_json folder);
      save_tokens = save_tokens tokens_json;
      load_features = λ folder. some (load_features features_json folder);
      save_features = save_features features_json;
    }
