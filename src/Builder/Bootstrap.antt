-- ===== src/Builder/Bootstrap.antt =====
-- server/src/offline/offline_hotload.rs: the features of a bootstrap file. What serde_json reads of a text
-- is a parameter, and so is a feature with the fields that are set and the default ones.
use mathlib.Core.Option
use unleash_edge.Prelude.{
  ℕ, ◌⊎◌, String, Bool, Option, none, some, List, [], ◌∷◌, map, string_eq, inl, inr,
}
use unleash_edge.Dict.{Dict}
use unleash_edge.Error.{EdgeError, Result, ok, err}
use unleash_edge.Features.{UnleashTypes, ClientFeatures}

pub record SimpleFeature : Type 0 where
  pub enabled : Bool
  pub variant : Option String

-- `Variant`; `weight_type` is `WeightType::Fix`, and there are no payload and no overrides
pub record FixedVariant : Type 0 where
  pub name : String
  pub weight : ℕ
  pub stickiness : String

-- what is set of a `ClientFeature`; the one strategy is called "default", with nothing else
pub record SetFields : Type 0 where
  pub name : String
  pub enabled : Bool
  pub variants : Option (List FixedVariant)
  pub strategies : List String
  pub project : String

module _ (u : UnleashTypes) (client_feature : SetFields → u.Feature) where
  abbrev pub fixed_variant : String → FixedVariant
  fixed_variant variant_name = record { name = variant_name; weight = 1000; stickiness = "default" }

  unfoldable pub simple_feature : String → SimpleFeature → u.Feature
  simple_feature feature_name simple_feat = client_feature (record {
    name = feature_name;
    enabled = simple_feat.enabled;
    variants = Option.map (λ variant_name. fixed_variant variant_name ∷ []) simple_feat.variant;
    strategies = "default" ∷ [];
    project = "default";
  })

  unfoldable pub make_simple_bootstrap : Dict String SimpleFeature → ClientFeatures u
  make_simple_bootstrap simple_bootstrap = record {
    version = 2;
    features = map (λ f. simple_feature f.0 f.1) simple_bootstrap;
    segments = none;
    query = none;
    meta = none;
  }

  module _ (read_simple : String → Option (Dict String SimpleFeature))
      (read_features : String → ClientFeatures u ⊎ String) where
    unfoldable pub parse_bootstrap : String → ClientFeatures u ⊎ String
    parse_bootstrap content = elim (read_simple content) [
      | some simple ↦ inl (make_simple_bootstrap simple)
      | none ↦ read_features content
    ]

    -- the text of the file, if it can be opened and read
    unfoldable pub load_bootstrap : String → Option String → Result (ClientFeatures u)
    load_bootstrap bootstrap_path content = elim content [
      | none ↦ err EdgeError.no_features_file
      | some text ↦ elim (parse_bootstrap text) [
        | inl features ↦ ok features
        | inr e ↦ err (EdgeError.invalid_backup_file bootstrap_path e)
      ]
    ]
