-- ===== src/FrontendApi/Listed.antt =====
-- The lists of evaluated toggles: which toggles they hold, and how the handlers' answers are related.
use mathlib.Core.List.Memᴰ
use mathlib.Core.Option
use unleash_edge.Prelude.{
  ◌≡◌, ◌⊎◌, ◌↔◌, refl, sym, subst, or_option, unwrap_or, ◌∙◌, ap, String, Bool, true, false, ◌||◌,
  Option, none, some, List, [], ◌∷◌, map, Memᴰ, string_eq, arith, is_empty, is_some, filter,
  mem-filter, mem_of_mem-filter, Option-cases, inl, inr,
}
use unleash_edge.Dict
use unleash_edge.Dict.{Dict, contains}
use unleash_edge.Dict.Unique.{IsUnique}
use unleash_edge.Error.{EdgeError, Result, ok, err, ok_or, ◌>>=◌}
use unleash_edge.Types.{EdgeToken}
use unleash_edge.Tokens.{cache_key}
use unleash_edge.Features.{UnleashTypes, ClientFeatures, Engine}
use unleash_edge.Contexts.{Context}
use unleash_edge.FeatureCache
use unleash_edge.FeatureCache.{FeatureCache}
use unleash_edge.Refresher.State.{Refresher}
use unleash_edge.Refresher.Engines.{InSync}
use unleash_edge.Refresher.Fetch.{compiled}
use unleash_edge.FrontendApi.{
  ResolvedToggle, EvaluatedToggle, Evaluator, join, hydration_missing, known_token, with_ip,
  evaluated, shown_to, frontend_from_yggdrasil, all_of, get_all_features, post_all_features,
  get_enabled_features, post_enabled_features,
}

-- What is assumed of the engine's evaluation: one toggle is resolved as it is among all, no name is
-- resolved twice, and an engine that has taken features is hydrated.
pub record EvaluatorLaws (u : UnleashTypes) (e : Engine u) (v : Evaluator u e) : Type 0 where
  pub resolve_one :
      (s : e.State) (name : String) (context : Context (v.Other))
      → v.resolve s name context ≡ Option.bind (v.resolve_all s context) (Dict.get name)
  pub resolved_once :
      (s : e.State) (context : Context (v.Other)) (res : Dict String (ResolvedToggle (v.Payload)))
      → v.resolve_all s context ≡ some res
      → IsUnique res
  pub hydrated :
      (f : ClientFeatures u) (context : Context (v.Other))
      → is_some (v.resolve_all (compiled u e f) context) ≡ true

abbrev table_of : {A : Type 0} → Option (List A) → List A
table_of none = []
table_of (some res) = res

table_of-some : {A : Type 0} (o : Option (List A)) → is_some o ≡ true → o ≡ some (table_of o)
table_of-some none h = absurd (ground arith)
table_of-some (some res) h = refl

map-filter :
    {A B : Type 0} (f : A → B) (p q : A → Bool) (r : B → Bool)
    → ((x : A) → r (f x) ≡ p x)
    → (l : List A)
    → map f (filter q (filter (λ x. false || p x) l))
      ≡ filter r (map f (filter q (filter (λ x. true || p x) l)))
unfolding filter
map-filter f p q r same [] = refl
map-filter f p q r same (x ∷ l) = ground (arith, same x, map-filter f p q r same l)

module _ (u : UnleashTypes) (e : Engine u) (v : Evaluator u e) where
  open v use {Other, Payload, resolve_all}

  -- whether the list for a token has a toggle of the project
  abbrev pub Allowed : EdgeToken → String → Type 0
  Allowed t project =
      (is_empty t.projects ≡ true)
      ⊎ (contains t.projects "*" ≡ true)
      ⊎ (contains t.projects project ≡ true)

  -- A list of evaluated toggles has exactly the toggles that the engine resolved, enabled ones only
  -- unless all are asked for, whose project the token allows, each with the values that the engine gave
  -- it. No projects, or the wildcard, allow every project.
  pub frontend_from_yggdrasil_iff :
      (res : Dict String (ResolvedToggle Payload)) (include_all : Bool) (token : EdgeToken)
      (x : EvaluatedToggle Payload)
      → Memᴰ x (frontend_from_yggdrasil u e v res include_all token) ↔ (
          (name : String) × (r : ResolvedToggle Payload) × Memᴰ (name, r) res
          × ((include_all ≡ true) ⊎ (r.enabled ≡ true))
          × Allowed token r.project
          × (x ≡ record {
            name = name;
            enabled = r.enabled;
            variant = r.variant;
            impression_data = r.impression_data;
          }))
  unfolding frontend_from_yggdrasil
  frontend_from_yggdrasil_iff res include_all token x = (
    λ m.
        let ((name, r), n, same) = Memᴰ.of_map _ _ m in
        let (o, allowed) = mem_of_mem-filter _ _ n in
        let (k, on) = mem_of_mem-filter _ res o in
        (name, r, k, ground arith, ground arith, sym same),
    λ (name, r, k, on, allowed, same). rw same (
        Memᴰ.map (λ (p : String × ResolvedToggle Payload). evaluated u e v p.0 p.1)
          (mem-filter _ _ (mem-filter _ res k (ground arith)) (ground arith))),
  )

  -- a list has exactly the toggles that were resolved and whose project the token allows
  abbrev pub Lists :
      Dict String (ResolvedToggle Payload) → EdgeToken → List (EvaluatedToggle Payload) → Type 0
  Lists res token l =
      (x : EvaluatedToggle Payload)
      → Memᴰ x l ↔ (
          (name : String) × (r : ResolvedToggle Payload) × Memᴰ (name, r) res
          × Allowed token r.project
          × (x ≡ record {
            name = name;
            enabled = r.enabled;
            variant = r.variant;
            impression_data = r.impression_data;
          }))

  -- the enabled ones of a list
  abbrev pub enabled_only : List (EvaluatedToggle Payload) → List (EvaluatedToggle Payload)
  enabled_only l = filter (λ x. x.enabled) l

  enabled_of_all :
      (res : Dict String (ResolvedToggle Payload)) (token : EdgeToken)
      → frontend_from_yggdrasil u e v res false token
        ≡ enabled_only (frontend_from_yggdrasil u e v res true token)
  unfolding frontend_from_yggdrasil
  enabled_of_all res token =
      map-filter (λ (p : String × ResolvedToggle Payload). evaluated u e v p.0 p.1)
        (λ p. p.1.enabled) (λ p. shown_to u e v token p.1) (λ x. x.enabled) (λ p. refl) res

  enabled_answer :
      (token : EdgeToken) (r : Result (Dict String (ResolvedToggle Payload)))
      → (r >>= (λ res. ok (frontend_from_yggdrasil u e v res false token))) ≡ (
          (r >>= (λ res. ok (frontend_from_yggdrasil u e v res true token)))
          >>= (λ l. ok (enabled_only l)))
  enabled_answer token (ok res) = ap ok (enabled_of_all res token)
  enabled_answer token (err x) = refl

  -- the toggles that features resolve to
  abbrev pub toggles_of : ClientFeatures u → Context Other → Dict String (ResolvedToggle Payload)
  toggles_of f context = table_of (resolve_all (compiled u e f) context)

  hydrated_lem :
      (laws : EvaluatorLaws u e v) (f : ClientFeatures u) (context : Context Other)
      → resolve_all (compiled u e f) context ≡ some (toggles_of f context)
  hydrated_lem laws f context =
      table_of-some (resolve_all (compiled u e f) context) (laws.hydrated f context)

  synced_answer :
      (laws : EvaluatorLaws u e v) (self : Refresher u e) (key : String) (edge_token : EdgeToken)
      (context : Context Other)
      → InSync u e self
      → all_of u e v key edge_token context self.engine_cache
        ≡ ok_or
            (EdgeError.frontend_not_yet_hydrated (hydration_missing edge_token))
            (Option.map (λ f. toggles_of f context) (FeatureCache.get u key self.features_cache))
  synced_answer laws self key edge_token context h =
      elim (Option-cases (FeatureCache.get u key self.features_cache)) [
        | inl miss ↦ rw (miss, h key ∙ ap (Option.map (compiled u e)) miss) refl
        | inr (f, hit) ↦
            rw (hit, h key ∙ ap (Option.map (compiled u e)) hit, hydrated_lem laws f context) refl
      ]

  -- the context with an address: its own one, or else that of the request
  abbrev pub addressed : Option String → Context Other → Context Other
  addressed client_ip context = record context {
    remote_address = or_option context.remote_address client_ip;
  }

  addressed_lem :
      (client_ip : Option String) (context : Context Other)
      → with_ip u e v client_ip context ≡ addressed client_ip context
  addressed_lem client_ip context = elim (Option-cases context.remote_address) [
    | inl n ↦ rw n refl
    | inr (a, y) ↦ rw y refl
  ]

  listed_iff :
      (res : Dict String (ResolvedToggle Payload)) (token : EdgeToken)
      → Lists res token (frontend_from_yggdrasil u e v res true token)
  listed_iff res token x =
      let (there, back) = frontend_from_yggdrasil_iff res true token x in
      (
        λ m. let (name, r, k, _, allowed, same) = there m in (name, r, k, allowed, same),
        λ (name, r, k, allowed, same). back (name, r, k, inl refl, allowed, same),
      )

  -- Where the engines are in step with the features, and the cache has features for the known token's
  -- environment, the list of all toggles is answered: it has exactly the toggles that these features
  -- resolve to and whose project the token allows, with their values, in the context with its own
  -- address or else the request's. Without such features the error names the token's environment and
  -- its projects.
  pub get_all_features_answer :
      EvaluatorLaws u e v
      → (self : Refresher u e) (edge_token : EdgeToken) (token_cache : Dict String EdgeToken)
        (context : Context Other) (client_ip : Option String)
      → InSync u e self
      → let token = unwrap_or (Dict.get edge_token.token token_cache) edge_token in
        let answer =
          get_all_features u e v edge_token self.engine_cache token_cache context client_ip in
        let features =
          FeatureCache.get u (unwrap_or token.environment token.token) self.features_cache in
        ((f : ClientFeatures u)
          → features ≡ some f
          → (l : List (EvaluatedToggle Payload)) × (answer ≡ ok l)
            × Lists (toggles_of f (addressed client_ip context)) token l)
        × (features ≡ none
            → answer
              ≡ err (
                  EdgeError.frontend_not_yet_hydrated (record {
                    project = join edge_token.projects;
                    environment = unwrap_or edge_token.environment "default";
                  })))
  unfolding get_all_features cache_key hydration_missing
  get_all_features_answer laws self edge_token token_cache context client_ip h =
      let token = known_token edge_token token_cache in
      let answer =
        synced_answer laws self (cache_key token) edge_token (with_ip u e v client_ip context) h in
      (
        λ f hit. (
          frontend_from_yggdrasil u e v (toggles_of f (with_ip u e v client_ip context)) true token,
          rw (answer, hit) refl,
          subst
              (λ c. Lists (toggles_of f c) token (
                frontend_from_yggdrasil u e v (toggles_of f (with_ip u e v client_ip context)) true
                  token))
              (addressed_lem client_ip context)
              (listed_iff (toggles_of f (with_ip u e v client_ip context)) token),
        ),
        λ miss. rw (answer, miss) refl,
      )

  -- The four lists agree: a POST of a context gets all toggles as a GET does, the enabled ones are those
  -- of all that are enabled, and a POST gets those too if the request's token and the known one name
  -- the same environment.
  pub lists_agree :
      (edge_token : EdgeToken) (engine_cache : Dict String (e.State))
      (token_cache : Dict String EdgeToken) (context : Context Other) (client_ip : Option String)
      → let all = get_all_features u e v edge_token engine_cache token_cache context client_ip in
        (post_all_features u e v edge_token engine_cache token_cache context client_ip ≡ all)
        × (get_enabled_features u e v edge_token engine_cache token_cache context client_ip
            ≡ (all >>= (λ l. ok (enabled_only l))))
        × (cache_key edge_token ≡ cache_key (known_token edge_token token_cache)
            → post_enabled_features u e v edge_token engine_cache token_cache context client_ip
              ≡ (all >>= (λ l. ok (enabled_only l))))
  unfolding get_all_features post_all_features get_enabled_features post_enabled_features
  lists_agree edge_token engine_cache token_cache context client_ip =
      let token = known_token edge_token token_cache in
      let enabled = enabled_answer token (
        all_of u e v (cache_key token) edge_token (with_ip u e v client_ip context) engine_cache) in
      (
        refl,
        enabled,
        λ same.
            ap {B = Result (List (EvaluatedToggle Payload))}
              (λ k.
                all_of u e v k edge_token (with_ip u e v client_ip context) engine_cache
                >>= (λ res. ok (frontend_from_yggdrasil u e v res false token)))
              same
            ∙ enabled,
      )
