-- ===== src/Metrics/Data.antt =====
-- server/src/metrics/client_metrics.rs: the keys, the metrics and the applications.
-- The structs of unleash_types are records; what the program does not read of them is a parameter.
use unleash_edge.Prelude.{
  ℕ, ◌/◌, ◌≡◌, ◌↔◌, String, true, Option, List, string_lawful, Eq, LawfulEq, arith, ◌=ℕ◌,
  pair_lawful, eq_by, unwrap_or,
}
use unleash_edge.Dict.{Dict}
use unleash_edge.Types.{Millis}

pub record MetricsTypes : Type 1 where
  pub AppDetails : Type 0  -- the other fields of ClientApplication
  pub Metadata : Type 0
  pub Bucket : Type 0

pub record ConnectVia : Type 0 where
  pub app_name : String
  pub instance_id : String

module _ (t : MetricsTypes) where
  pub record ClientApplication : Type 0 where
    pub app_name : String
    pub instance_id : Option String
    pub environment : Option String
    pub details : t.AppDetails

  pub record ClientMetricsEnv : Type 0 where
    pub app_name : String
    pub feature_name : String
    pub environment : String
    pub timestamp : Millis
    pub yes : ℕ  -- u32
    pub no : ℕ  -- u32
    pub variants : Dict String ℕ  -- u32
    pub metadata : t.Metadata

  pub record MetricsBatch : Type 0 where
    pub applications : List ClientApplication
    pub metrics : List ClientMetricsEnv

pub record ApplicationKey : Type 0 where
  pub app_name : String
  pub instance_id : String

pub record MetricsKey : Type 0 where
  pub app_name : String
  pub feature_name : String
  pub environment : String
  pub timestamp : Millis

pub nat_beq_iff : (a b : ℕ) → (a =ℕ b ≡ true) ↔ (a ≡ b)
nat_beq_iff a b = (λ h. ground arith, λ h. ground arith)

abbrev nat_lawful : LawfulEq ℕ
nat_lawful = record { beq = λ a b. a =ℕ b; beq_iff = nat_beq_iff }

-- `to_time_key`: the text of the hour, which is as good as its number
abbrev pub to_time_key : Millis → ℕ
to_time_key timestamp = timestamp / 3600000

-- the fields that `MetricsKey: PartialEq` compares
abbrev compared : MetricsKey → String × (String × (String × ℕ))
compared k = (k.app_name, (k.feature_name, (k.environment, to_time_key k.timestamp)))

-- `MetricsKey: PartialEq` and `Hash`: times in the same hour are equal
instance abbrev pub metrics_key_eq : Eq MetricsKey
metrics_key_eq =
    eq_by compared
      (pair_lawful string_lawful (pair_lawful string_lawful (pair_lawful string_lawful nat_lawful)))

-- the derived `PartialEq`
instance abbrev pub application_key_eq : Eq ApplicationKey
application_key_eq =
    eq_by (λ k. (k.app_name, k.instance_id)) (pair_lawful string_lawful string_lawful)

module _ (t : MetricsTypes) where
  -- `ApplicationKey::from`
  unfoldable pub application_key : ClientApplication t → ApplicationKey
  application_key value = record {
    app_name = value.app_name;
    instance_id = unwrap_or value.instance_id "default";
  }

  -- `MetricsKey::from`
  abbrev pub metrics_key : ClientMetricsEnv t → MetricsKey
  metrics_key value = record {
    app_name = value.app_name;
    feature_name = value.feature_name;
    environment = value.environment;
    timestamp = value.timestamp;
  }
