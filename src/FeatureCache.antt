-- ===== src/FeatureCache.antt =====
-- server/src/feature_cache.rs: the features of each environment, and the updates that are sent to the subscribers.
pub mod Merge
pub mod Notify
use Prim.Native.Nat.{max}
use mathlib.Core.Option
use unleash_edge.Prelude.{
  ℕ, ◌≡◌, String, Bool, true, false, not, Option, none, some, List, [], ◌∷◌, ◌++◌, map, string_eq,
  is_empty as is_empty_list, filter, unwrap_or, or_option, if◌then◌else◌, length,
}
use unleash_edge.Dict
use unleash_edge.Dict.{Dict, contains}
use unleash_edge.Features.{UnleashTypes, ClientFeatures, Engine}
use unleash_edge.Features.Sort.{sort}
use unleash_edge.Types.{EdgeToken}

pub data UpdateType : Type 0 where
  full update : String → UpdateType
  deletion : UpdateType

-- `sent` is what went into `update_sender`, oldest first.
pub record FeatureCache (u : UnleashTypes) : Type 0 where
  pub features : Dict String (ClientFeatures u)
  pub sent : List UpdateType

module _ (u : UnleashTypes) where
  open u use {Feature, Segment, name, project, feature_le, segment_le, deduplicate}

  unfoldable pub update_projects_from_feature_update :
      EdgeToken → List Feature → List Feature → List Feature
  update_projects_from_feature_update token original updated =
      if contains token.projects "*"
      then updated
      else filter (λ toggle. not (contains token.projects (unwrap_or (project toggle) "default")))
          original
        ++ updated

  unfoldable pub merge_segments_update :
      Option (List Segment) → Option (List Segment) → Option (List Segment)
  merge_segments_update (some s) (some o) = some (deduplicate (o ++ s))
  merge_segments_update (some s) none = some s
  merge_segments_update none (some o) = some o
  merge_segments_update none none = none

  unfoldable pub update_client_features :
      EdgeToken → ClientFeatures u → ClientFeatures u → ClientFeatures u
  update_client_features token old new_features = record {
    version = max old.version new_features.version;
    features =
        sort feature_le
          (update_projects_from_feature_update token old.features new_features.features);
    segments =
        Option.map (sort segment_le) (merge_segments_update old.segments new_features.segments);
    query = or_option old.query new_features.query;
    meta = or_option old.meta new_features.meta;
  }

  -- `FeatureCache::new`
  unfoldable pub new : Dict String (ClientFeatures u) → FeatureCache u
  new features = record { features = features; sent = [] }

  unfoldable pub len : FeatureCache u → ℕ
  len c = length c.features

  unfoldable pub get : String → FeatureCache u → Option (ClientFeatures u)
  get key c = Dict.get key c.features

  unfoldable pub send_full_update : String → FeatureCache u → FeatureCache u
  send_full_update cache_key c = record c { sent = c.sent ++ UpdateType.full cache_key ∷ [] }

  -- the cache, and what `insert` returns
  unfoldable pub insert :
      String → ClientFeatures u → FeatureCache u → FeatureCache u × Option (ClientFeatures u)
  insert key features c = (
    send_full_update key (record c { features = Dict.insert key features c.features }),
    Dict.get key c.features,
  )

  unfoldable pub remove : String → FeatureCache u → FeatureCache u × Option (ClientFeatures u)
  remove key c = (
    send_full_update key (record c { features = Dict.remove key c.features }),
    Dict.get key c.features,
  )

  unfoldable pub modify : String → EdgeToken → ClientFeatures u → FeatureCache u → FeatureCache u
  modify key token features c = send_full_update key (record c {
    features =
        Dict.upsert key (λ existing. update_client_features token existing features) features
          c.features;
  })

  unfoldable pub is_empty : FeatureCache u → Bool
  is_empty c = is_empty_list c.features

  module _ (e : Engine u) where
    unfoldable pub apply_delta : String → e.Delta → FeatureCache u → FeatureCache u
    apply_delta key delta c = send_full_update key (record c {
      features =
          Dict.upsert key (λ existing. e.apply_delta existing delta) (e.create_from_delta delta)
            c.features;
    })
