-- ===== src/Types.antt =====
-- server/src/types.rs: tokens and their refresh records.
-- `DateTime<Utc>` and `Duration` are milliseconds; `EntityTag` values are only stored and passed on.
pub mod Schedule
use Prim.Native.Nat.{min}
use unleash_edge.Prelude.{
  true, false, LawfulEq, ◌≡◌, ◌↔◌, arith, ℕ, ◌+◌, ◌-◌, ◌*◌, ◌%◌, ◌^◌, ◌≡◌, String, Bool, Option,
  none, some, List, [], ◌∷◌, Eq, LawfulEq, string_lawful, string_eq, leb, ltb, ◌=ℕ◌, if◌then◌else◌,
  ◌==◌, ◌↔◌,
}

pub data TokenType : Type 0 where
  frontend client admin invalid : TokenType

-- the derived `PartialEq`
abbrev pub token_type_beq : TokenType → TokenType → Bool
token_type_beq TokenType.frontend TokenType.frontend = true
token_type_beq TokenType.client TokenType.client = true
token_type_beq TokenType.admin TokenType.admin = true
token_type_beq TokenType.invalid TokenType.invalid = true
token_type_beq _ _ = false

pub token_type_beq_iff : (a b : TokenType) → (token_type_beq a b ≡ true) ↔ (a ≡ b)
token_type_beq_iff a b = (λ h. ground arith, λ h. ground arith)

abbrev pub token_type_lawful : LawfulEq TokenType
token_type_lawful = record { beq = token_type_beq; beq_iff = token_type_beq_iff }

pub data TokenValidationStatus : Type 0 where
  invalid unknown validated : TokenValidationStatus

pub data Status : Type 0 where
  ok not_ok not_ready ready : Status

pub record EdgeToken : Type 0 where
  pub token : String
  pub token_type : Option TokenType
  pub environment : Option String
  pub projects : List String
  pub status : TokenValidationStatus

-- `EdgeToken: PartialEq` compares the secret only
token_beq : EdgeToken → EdgeToken → Bool
token_beq a b = a.token == b.token

abbrev pub EntityTag : Type 0
EntityTag = String

abbrev pub Millis : Type 0
Millis = ℕ

pub record TokenRefresh : Type 0 where
  pub token : EdgeToken
  pub etag : Option EntityTag
  pub next_refresh : Option Millis
  pub last_refreshed : Option Millis
  pub last_feature_count : Option ℕ
  pub last_check : Option Millis
  pub failure_count : ℕ  -- u32

-- `TokenRefresh::new`
unfoldable pub new : EdgeToken → Option EntityTag → TokenRefresh
new token etag = record {
  token = token;
  etag = etag;
  next_refresh = none;
  last_refreshed = none;
  last_feature_count = none;
  last_check = none;
  failure_count = 0;
}

-- `failure_count.try_into().unwrap_or(0)`, from `u64` to `i32`
to_i32_or_zero : ℕ → ℕ
to_i32_or_zero n = if ltb n (2 ^ 31) then n else 0

unfoldable pub calculate_next_refresh : Millis → Millis → ℕ → Millis
unfolding to_i32_or_zero
calculate_next_refresh now refresh_interval failure_count =
    if failure_count =ℕ 0
    then now + refresh_interval
    else now + refresh_interval + refresh_interval * to_i32_or_zero failure_count

-- `TokenRefresh::backoff`; `now` is what the clock says
unfoldable pub backoff : Millis → Millis → TokenRefresh → TokenRefresh
backoff now refresh_interval r =
    let failure_count = min ((r.failure_count + 1) % 2 ^ 32) 10 in
    record r {
      failure_count = failure_count;
      next_refresh = some (calculate_next_refresh now refresh_interval failure_count);
      last_check = some now;
    }

-- `if n > 0 { n - 1 } else { 0 }`
abbrev decrement : ℕ → ℕ
decrement n = if ltb 0 n then n - 1 else 0

-- `TokenRefresh::successful_check`
unfoldable pub successful_check : Millis → Millis → TokenRefresh → TokenRefresh
successful_check now refresh_interval r =
    let failure_count = decrement r.failure_count in
    record r {
      failure_count = failure_count;
      next_refresh = some (calculate_next_refresh now refresh_interval failure_count);
      last_check = some now;
    }

-- `TokenRefresh::successful_refresh`
unfoldable pub successful_refresh :
    Millis → Millis → Option EntityTag → ℕ → TokenRefresh → TokenRefresh
successful_refresh now refresh_interval etag feature_count r =
    let failure_count = decrement r.failure_count in
    record r {
      failure_count = failure_count;
      next_refresh = some (calculate_next_refresh now refresh_interval failure_count);
      last_refreshed = some now;
      last_check = some now;
      last_feature_count = some feature_count;
      etag = etag;
    }
