-- ===== src/FrontendApi/Single.antt =====
-- A single evaluated toggle: it is the one of the list.
use mathlib.Core.Option
use unleash_edge.Prelude.{
  ◌≡◌, refl, ◌∙◌, ap, String, true, false, Option, none, some, List, [], ◌∷◌, string_eq, ◌==◌,
  eq_iff, arith, is_empty, filter, find, Option-cases, Bool-cases, inl, inr, if◌then◌else◌,
}
use unleash_edge.Dict
use unleash_edge.Dict.{Dict, contains}
use unleash_edge.Dict.Unique.{IsUnique, get-absent}
use unleash_edge.Error.{EdgeError, ok, ok_or, ok_inj}
use unleash_edge.Types.{EdgeToken}
use unleash_edge.Tokens.{cache_key}
use unleash_edge.Features.{UnleashTypes, Engine}
use unleash_edge.Contexts.{Context}
use unleash_edge.FrontendApi.{
  ResolvedToggle, EvaluatedToggle, Evaluator, with_ip, evaluated, shown_to, evaluated_for,
  frontend_from_yggdrasil, get_all_features, evaluate_feature,
}
use unleash_edge.FrontendApi.Listed.{EvaluatorLaws}

module _ (u : UnleashTypes) (e : Engine u) (v : Evaluator u e) where
  open v use {Other, Payload, resolve_all}

  -- the toggle of a list with a name
  abbrev pub named : String → List (EvaluatedToggle Payload) → Option (EvaluatedToggle Payload)
  named name l = find (λ x. x.name == name) l

  -- a resolved toggle as the list has it, if the token may see it
  abbrev pub offered :
      EdgeToken → String → Option (ResolvedToggle Payload) → Option (EvaluatedToggle Payload)
  offered token name none = none
  offered token name (some r) =
      if shown_to u e v token r then some (evaluated u e v name r) else none

  named-none :
      (token : EdgeToken) (name : String) (res : Dict String (ResolvedToggle Payload))
      → Dict.get name res ≡ none
      → named name (frontend_from_yggdrasil u e v res true token) ≡ none
  unfolding frontend_from_yggdrasil filter find Dict.get
  named-none token name [] h = refl
  named-none token name ((k, r) ∷ res) h = elim (Bool-cases (k == name)) [
    | inl y ↦ absurd (ground (arith, rw y at h))
    | inr n ↦ elim (Bool-cases (shown_to u e v token r)) [
      | inl y ↦ rw y (rw n (named-none token name res (rw n at h)))
      | inr hidden ↦ rw hidden (named-none token name res (rw n at h))
    ]
  ]

  -- the toggle that the engine has under a name, if the token may see it
  named_lem :
      (token : EdgeToken) (name : String) (res : Dict String (ResolvedToggle Payload))
      → IsUnique res
      → named name (frontend_from_yggdrasil u e v res true token)
        ≡ offered token name (Dict.get name res)
  unfolding frontend_from_yggdrasil filter find Dict.get
  named_lem token name [] h = refl
  named_lem token name ((k, r) ∷ res) (fresh, rest) = elim (Bool-cases (k == name)) [
    | inl y ↦
        let same = (eq_iff k name).0 y in
        let gone = named-none token name res (get-absent name k res fresh y) in
        elim (Bool-cases (shown_to u e v token r)) [
          | inl s ↦ rw (y, s, y) (ap (λ n. some (evaluated u e v n r)) same)
          | inr s ↦ rw (y, s) gone
        ]
    | inr n ↦ elim (Bool-cases (shown_to u e v token r)) [
      | inl s ↦ rw (n, s, n) (named_lem token name res rest)
      | inr s ↦ rw (n, s) (named_lem token name res rest)
    ]
  ]

  evaluated_for_lem :
      (token : EdgeToken) (name : String) (o : Option (ResolvedToggle Payload))
      → is_empty token.projects ≡ false
      → Option.map (evaluated u e v name) (Option.bind o (evaluated_for u e v token))
        ≡ offered token name o
  unfolding Option.bind
  evaluated_for_lem token name none h = refl
  evaluated_for_lem token name (some r) h = ground (arith, h)

  -- A single toggle is answered to a known token with at least one project exactly as the list of all
  -- toggles has it under its name, and is not found exactly if the list has no toggle of the name. The
  -- list is one that is answered.
  pub evaluate_feature_lem :
      EvaluatorLaws u e v
      → (edge_token token : EdgeToken) (feature_name : String) (context : Context Other)
        (token_cache : Dict String EdgeToken) (engine_cache : Dict String (e.State))
        (client_ip : Option String) (toggles : List (EvaluatedToggle Payload))
      → Dict.get edge_token.token token_cache ≡ some token
      → is_empty token.projects ≡ false
      → get_all_features u e v edge_token engine_cache token_cache context client_ip ≡ ok toggles
      → evaluate_feature u e v edge_token feature_name context token_cache engine_cache client_ip
        ≡ ok_or (EdgeError.feature_not_found feature_name) (named feature_name toggles)
  unfolding evaluate_feature get_all_features Option.bind Dict.get
  evaluate_feature_lem laws edge_token token feature_name context token_cache engine_cache client_ip
        toggles hit some_project all =
      let c = with_ip u e v client_ip context in
      let answer = rw hit at all in
      elim (Option-cases (Dict.get (cache_key token) engine_cache)) [
        | inl miss ↦ absurd (ground (arith, rw miss at answer))
        | inr (engine, found) ↦ elim (Option-cases (resolve_all engine c)) [
          | inl empty ↦ absurd (ground (arith, rw (found, empty) at answer))
          | inr (res, resolved) ↦
              let same : frontend_from_yggdrasil u e v res true token ≡ toggles =
                ok_inj _ _ (rw (found, resolved) at answer) in
              let one = laws.resolve_one engine feature_name c in
              let listed =
                named_lem token feature_name res (laws.resolved_once engine c res resolved) in
              rw (hit, found, ← same, listed)
                (ap (ok_or (EdgeError.feature_not_found feature_name)) (
                  ap
                    (λ o.
                      Option.map (evaluated u e v feature_name)
                        (Option.bind o (evaluated_for u e v token)))
                    (one ∙ ap (λ o. Option.bind o (Dict.get feature_name)) resolved)
                  ∙ evaluated_for_lem token feature_name (Dict.get feature_name res) some_project))
        ]
      ]
