-- ===== src/FrontendApi.antt =====
-- server/src/frontend_api.rs: toggles evaluated for a frontend SDK. The evaluation is unleash_yggdrasil's:
-- a parameter. A request's address is the text of its `ClientIp`, if it has one.
pub mod Listed
pub mod Single
pub mod Handlers
use Prim.Native.String.{◌++◌ as append_text}
use mathlib.Core.Option
use unleash_edge.Prelude.{
  String, Bool, true, false, ◌||◌, Option, none, some, List, [], ◌∷◌, map, string_eq, is_none,
  is_empty, filter, unwrap_or, if◌then◌else◌,
}
use unleash_edge.Dict
use unleash_edge.Dict.{Dict, contains}
use unleash_edge.Error.{EdgeError, FrontendHydrationMissing, Result, ok, err, ok_or, ◌>>=◌}
use unleash_edge.Types.{EdgeToken}
use unleash_edge.Tokens.{cache_key}
use unleash_edge.Features.{UnleashTypes, ClientFeatures, Engine}
use unleash_edge.Contexts.{Context}

-- `[String]::join(",")`
unfoldable pub join : List String → String
join [] = ""
join (w ∷ []) = w
join (w ∷ x ∷ ws) = append_text w (append_text "," (join (x ∷ ws)))

-- `From<&EdgeToken> for FrontendHydrationMissing`
unfoldable pub hydration_missing : EdgeToken → FrontendHydrationMissing
hydration_missing value = record {
  project = join value.projects;
  environment = unwrap_or value.environment "default";
}

module _ (Payload : Type 0) where
  -- `ExtendedVariantDef`, as far as the program reads it, and `EvaluatedVariant`
  pub record Variant : Type 0 where
    pub name : String
    pub enabled : Bool
    pub payload : Option Payload

  pub record ResolvedToggle : Type 0 where
    pub enabled : Bool
    pub impression_data : Bool
    pub project : String
    pub variant : Variant

  -- `impressionData` is the same value once more
  pub record EvaluatedToggle : Type 0 where
    pub name : String
    pub enabled : Bool
    pub variant : Variant
    pub impression_data : Bool

-- What the frontend asks of `EngineState`. An engine without features resolves nothing.
pub record Evaluator (u : UnleashTypes) (e : Engine u) : Type 1 where
  pub Other : Type 0
  pub Payload : Type 0
  pub resolve_all : e.State → Context Other → Option (Dict String (ResolvedToggle Payload))
  pub resolve : e.State → String → Context Other → Option (ResolvedToggle Payload)

abbrev pub not_hydrated : EdgeError
not_hydrated =
    EdgeError.frontend_expected_to_be_hydrated
      "Feature cache has not been hydrated yet, but it was expected to be. This can be due to a race condition from calling edge before it's ready. This error might auto resolve as soon as edge is able to fetch from upstream"

-- `token_cache.get(…).unwrap_or_else(|| edge_token.clone())`
abbrev pub known_token : EdgeToken → Dict String EdgeToken → EdgeToken
known_token edge_token token_cache = unwrap_or (Dict.get edge_token.token token_cache) edge_token

module _ (u : UnleashTypes) (e : Engine u) (v : Evaluator u e) where
  open v use {Other, Payload, resolve_all, resolve}

  abbrev pub with_ip : Option String → Context Other → Context Other
  with_ip client_ip context =
      if is_none context.remote_address
      then record context { remote_address = client_ip }
      else context

  abbrev pub evaluated : String → ResolvedToggle Payload → EvaluatedToggle Payload
  evaluated name resolved = record {
    name = name;
    enabled = resolved.enabled;
    variant = resolved.variant;
    impression_data = resolved.impression_data;
  }

  abbrev pub shown_to : EdgeToken → ResolvedToggle Payload → Bool
  shown_to edge_token resolved =
      is_empty edge_token.projects
      || contains edge_token.projects "*"
      || contains edge_token.projects resolved.project

  unfoldable pub frontend_from_yggdrasil :
      Dict String (ResolvedToggle Payload) → Bool → EdgeToken → List (EvaluatedToggle Payload)
  frontend_from_yggdrasil res include_all edge_token =
      map (λ (r : String × ResolvedToggle Payload). evaluated r.0 r.1)
        (filter (λ r. shown_to edge_token r.1) (filter (λ r. include_all || r.1.enabled) res))

  -- the engine under a key, asked for all toggles
  abbrev pub all_of :
      String
      → EdgeToken
      → Context Other
      → Dict String (e.State)
      → Result (Dict String (ResolvedToggle Payload))
  all_of key edge_token context engine_cache =
      ok_or (EdgeError.frontend_not_yet_hydrated (hydration_missing edge_token))
        (Dict.get key engine_cache)
      >>= (λ engine. ok_or not_hydrated (resolve_all engine context))

  unfoldable pub get_all_features :
      EdgeToken
      → Dict String (e.State)
      → Dict String EdgeToken
      → Context Other
      → Option String
      → Result (List (EvaluatedToggle Payload))
  get_all_features edge_token engine_cache token_cache context client_ip =
      let token = known_token edge_token token_cache in
      all_of (cache_key token) edge_token (with_ip client_ip context) engine_cache
      >>= (λ res. ok (frontend_from_yggdrasil res true token))

  -- the same body, on the context of a POST
  unfoldable pub post_all_features :
      EdgeToken
      → Dict String (e.State)
      → Dict String EdgeToken
      → Context Other
      → Option String
      → Result (List (EvaluatedToggle Payload))
  post_all_features edge_token engine_cache token_cache context client_ip =
      let token = known_token edge_token token_cache in
      all_of (cache_key token) edge_token (with_ip client_ip context) engine_cache
      >>= (λ res. ok (frontend_from_yggdrasil res true token))

  unfoldable pub get_enabled_features :
      EdgeToken
      → Dict String (e.State)
      → Dict String EdgeToken
      → Context Other
      → Option String
      → Result (List (EvaluatedToggle Payload))
  get_enabled_features edge_token engine_cache token_cache context client_ip =
      let token = known_token edge_token token_cache in
      all_of (cache_key token) edge_token (with_ip client_ip context) engine_cache
      >>= (λ res. ok (frontend_from_yggdrasil res false token))

  -- here the engine is that of the request's token, not of the known one
  unfoldable pub post_enabled_features :
      EdgeToken
      → Dict String (e.State)
      → Dict String EdgeToken
      → Context Other
      → Option String
      → Result (List (EvaluatedToggle Payload))
  post_enabled_features edge_token engine_cache token_cache context client_ip =
      let token = known_token edge_token token_cache in
      all_of (cache_key edge_token) edge_token (with_ip client_ip context) engine_cache
      >>= (λ res. ok (frontend_from_yggdrasil res false token))

  -- the test of `evaluate_feature`: here no projects allow nothing
  abbrev pub evaluated_for : EdgeToken → ResolvedToggle Payload → Option (ResolvedToggle Payload)
  evaluated_for validated_token resolved_toggle =
      if contains validated_token.projects "*"
        || contains validated_token.projects resolved_toggle.project
      then some resolved_toggle
      else none

  unfoldable pub evaluate_feature :
      EdgeToken
      → String
      → Context Other
      → Dict String EdgeToken
      → Dict String (e.State)
      → Option String
      → Result (EvaluatedToggle Payload)
  evaluate_feature edge_token feature_name incoming_context token_cache engine_cache client_ip =
      ok_or EdgeError.edge_token_error (Dict.get edge_token.token token_cache)
      >>= (λ validated_token. ok_or (EdgeError.feature_not_found feature_name) (
          Option.map (evaluated feature_name) (
            Option.bind
              (Option.bind (Dict.get (cache_key validated_token) engine_cache)
                (λ engine. resolve engine feature_name (with_ip client_ip incoming_context)))
              (evaluated_for validated_token))))
