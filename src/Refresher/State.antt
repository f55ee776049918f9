-- ===== src/Refresher/State.antt =====
-- server/src/http/refresher/feature_refresher.rs: the state of the refresher, and its questions.
use unleash_edge.Prelude.{
  String, Bool, true, false, not, ◌&&◌, Option, none, some, List, [], ◌∷◌, ◌++◌, map, string_eq,
  string_lawful, option_lawful, is_none, any, filter, ltb, if◌then◌else◌,
}
use unleash_edge.Dict
use unleash_edge.Dict.{Dict, values, contains}
use unleash_edge.Error.{EdgeError, Result, ok, err}
use unleash_edge.Types
use unleash_edge.Types.{
  EdgeToken, TokenRefresh, TokenType, TokenValidationStatus, Millis, EntityTag, token_type_lawful,
}
use unleash_edge.Tokens.{
  subsumes, same_environment_and_broader_or_equal_project_access, simplify, cache_key,
}
use unleash_edge.Features.{UnleashTypes, ClientFeatures, Engine}
use unleash_edge.Filters.{FeatureFilterSet, filter_client_features}
use unleash_edge.FeatureCache
use unleash_edge.FeatureCache.{FeatureCache}
use unleash_edge.TokenValidator.{status_is}

pub data FeatureRefresherMode : Type 0 where
  dynamic streaming strict : FeatureRefresherMode

-- `FeatureRefresher`. The HTTP client stands in the arguments of the operations; the persistence and the
-- client's meta information, which no operation reads back, are left out.
pub record Refresher (u : UnleashTypes) (e : Engine u) : Type 0 where
  pub tokens_to_refresh : Dict String TokenRefresh
  pub features_cache : FeatureCache u
  pub engine_cache : Dict String (e.State)
  pub refresh_interval : Millis
  pub strict : Bool
  pub streaming : Bool
  pub delta : Bool

abbrev pub environment_is : Option String → Option String → Bool
environment_is = (option_lawful string_lawful).beq

unfoldable pub frontend_token_is_covered_by_tokens : EdgeToken → Dict String TokenRefresh → Bool
frontend_token_is_covered_by_tokens frontend_token tokens_to_refresh =
    any
      (λ client_token.
        same_environment_and_broader_or_equal_project_access client_token.token frontend_token)
      (values tokens_to_refresh)

-- the loop that inserts the simplified tokens
unfoldable pub insert_refreshes :
    List TokenRefresh → Dict String TokenRefresh → Dict String TokenRefresh
insert_refreshes [] m = m
insert_refreshes (r ∷ rs) m = insert_refreshes rs (Dict.insert r.token.token r m)

module _ (u : UnleashTypes) (e : Engine u) where
  -- `FeatureRefresher::new`
  unfoldable pub new :
      FeatureCache u → Dict String (e.State) → Millis → FeatureRefresherMode → Bool → Refresher u e
  new features_cache engines interval mode delta = record {
    tokens_to_refresh = [];
    features_cache = features_cache;
    engine_cache = engines;
    refresh_interval = interval;
    strict = elim mode [ FeatureRefresherMode.dynamic ↦ false | _ ↦ true ];
    streaming = elim mode [ FeatureRefresherMode.streaming ↦ true | _ ↦ false ];
    delta = delta;
  }

  abbrev pub is_due : Millis → TokenRefresh → Bool
  is_due now r = elim r.next_refresh [ none ↦ true | some refresh ↦ ltb refresh now ]

  unfoldable pub get_tokens_due_for_refresh : Millis → Refresher u e → List TokenRefresh
  get_tokens_due_for_refresh now self = filter (is_due now) (values self.tokens_to_refresh)

  unfoldable pub get_tokens_never_refreshed : Refresher u e → List TokenRefresh
  get_tokens_never_refreshed self =
      filter (λ r. is_none r.last_refreshed && is_none r.last_check) (values self.tokens_to_refresh)

  unfoldable pub token_is_subsumed : EdgeToken → Refresher u e → Bool
  token_is_subsumed token self =
      any (λ t. subsumes t.token token)
        (filter (λ r. environment_is r.token.environment token.environment)
          (values self.tokens_to_refresh))

  unfoldable pub frontend_token_is_covered_by_client_token : EdgeToken → Refresher u e → Bool
  unfolding frontend_token_is_covered_by_tokens
  frontend_token_is_covered_by_client_token frontend_token self =
      frontend_token_is_covered_by_tokens frontend_token self.tokens_to_refresh

  unfoldable pub create_client_token_for_fe_token : EdgeToken → Refresher u e → Result (Unit {0})
  create_client_token_for_fe_token token self =
      if status_is token.status TokenValidationStatus.validated
        && (option_lawful token_type_lawful).beq token.token_type (some TokenType.frontend)
      then if not (frontend_token_is_covered_by_client_token token self)
        then err EdgeError.edge_token_error
        else ok tt
      else ok tt

  unfoldable pub get_features_by_filter :
      EdgeToken → FeatureFilterSet u → Refresher u e → Option (ClientFeatures u)
  get_features_by_filter token filters self =
      elim (FeatureCache.get u (cache_key token) self.features_cache) [
        | none ↦ none
        | some client_features ↦ some (filter_client_features u client_features filters)
      ]

  -- the tokens that `register_token_for_refresh` simplifies
  abbrev pub registered_tokens : EdgeToken → Option EntityTag → Refresher u e → List TokenRefresh
  registered_tokens token etag self = values self.tokens_to_refresh ++ Types.new token etag ∷ []

  -- `register_token_for_refresh`; whether upstream accepts the registration as a client is ignored
  unfoldable pub register_token_for_refresh :
      EdgeToken → Option EntityTag → Refresher u e → Refresher u e
  register_token_for_refresh token etag self =
      let minimum = simplify (registered_tokens token etag self) in
      let keys = map (λ r. r.token.token) minimum in
      let tokens = Dict.retain (contains keys) (insert_refreshes minimum self.tokens_to_refresh) in
      if Dict.contains_key token.token self.tokens_to_refresh
      then self
      else record self { tokens_to_refresh = tokens }
