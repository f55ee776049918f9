-- ===== src/Features.antt =====
-- The types of the crate unleash_types, and the engine of unleash_yggdrasil: parameters of the model.
-- A struct that the program builds field by field is a record here; of the others the program uses
-- what the record `UnleashTypes` names.
pub mod Sort
use unleash_edge.Prelude.{ℕ, String, Bool, Option, none, List}

pub record UnleashTypes : Type 1 where
  pub Feature : Type 0  -- ClientFeature
  pub Segment : Type 0
  pub Tags : Type 0
  pub Meta : Type 0
  pub name : Feature → String
  pub project : Feature → Option String
  pub feature_le : Feature → Feature → Bool  -- ClientFeature: Ord
  pub segment_le : Segment → Segment → Bool  -- Segment: Ord
  pub deduplicate : List Segment → List Segment  -- Vec<Segment>: Deduplicate

pub record Query (u : UnleashTypes) : Type 0 where
  pub tags : Option (u.Tags)
  pub projects : Option (List String)
  pub name_prefix : Option String
  pub environment : Option String
  pub inline_segment_constraints : Option Bool

pub record ClientFeatures (u : UnleashTypes) : Type 0 where
  pub version : ℕ  -- u32
  pub features : List (u.Feature)
  pub segments : Option (List (u.Segment))
  pub query : Option (Query u)
  pub meta : Option (u.Meta)

-- `ClientFeaturesDelta` and `EngineState`, with the methods that the program calls. A method that
-- changes its receiver returns the new one; the warnings, which are only logged, are left out.
pub record Engine (u : UnleashTypes) : Type 1 where
  pub Delta : Type 0
  pub apply_delta : ClientFeatures u → Delta → ClientFeatures u
  pub create_from_delta : Delta → ClientFeatures u
  pub State : Type 0
  pub default : State
  pub take_state : State → ClientFeatures u → State
  pub state_apply_delta : State → Delta → State
