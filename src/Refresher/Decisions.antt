-- ===== src/Refresher/Decisions.antt =====
-- The refresher's decisions: which tokens are due, which frontend tokens are refused, and what a request gets.
use mathlib.Core.Option
use unleash_edge.Prelude.{
  ◌≡◌, ◌↔◌, ◌⊎◌, ◌<◌, refl, sym, ap, ◌∙◌, Bool, string_eq, true, false, not, ◌&&◌, inl, inr, Option,
  none, some, Memᴰ, arith, if◌then◌else◌, any, any-intro, any-elim, mem-filter, mem_of_mem-filter,
  Bool-cases, Option-cases, option_lawful,
}
use unleash_edge.Dict
use unleash_edge.Dict.{Dict, values}
use unleash_edge.Error.{EdgeError, Result, ok, err, ok_or}
use unleash_edge.Types.{
  EdgeToken, TokenRefresh, TokenType, TokenValidationStatus, Millis, token_type_lawful,
}
use unleash_edge.Tokens.{same_environment_and_broader_or_equal_project_access}
use unleash_edge.Tokens.Coverage.{Covers}
use unleash_edge.Features.{UnleashTypes, ClientFeatures, Engine}
use unleash_edge.Filters.{FeatureFilterSet}
use unleash_edge.TokenValidator.{status_is}
use unleash_edge.Refresher.State.{
  get_tokens_never_refreshed, Refresher, is_due, get_tokens_due_for_refresh, token_is_subsumed,
  frontend_token_is_covered_by_tokens, frontend_token_is_covered_by_client_token,
  create_client_token_for_fe_token, get_features_by_filter, register_token_for_refresh,
}
use unleash_edge.Refresher.Fetch.{Upstream, hydrate_new_tokens}
use unleash_edge.Refresher.Serve.{
  register_and_hydrate_token, features_after_hydration, features_for_filter, hydration_failed,
}
use unleash_edge.Refresher.Engines.{DeltaLaws, AllReadable, InSync, refresh_all-InSync}

module _ (u : UnleashTypes) (e : Engine u) where
  due-before :
      (now : Millis) (r : TokenRefresh)
      → ((t : Millis) → r.next_refresh ≡ some t → t < now)
      → is_due u e now r ≡ true
  due-before now r h = elim (Option-cases r.next_refresh) [
    | inl never ↦ ground (arith, never)
    | inr (t, at) ↦ ground (arith, at, h t at)
  ]

  -- A token is due for a refresh exactly if it is registered and its next refresh is not set or over.
  pub tokens_due_iff :
      (now : Millis) (self : Refresher u e) (r : TokenRefresh)
      → (Memᴰ r (get_tokens_due_for_refresh u e now self)
          → Memᴰ r (values self.tokens_to_refresh)
            × ((t : Millis) → r.next_refresh ≡ some t → t < now))
        × (Memᴰ r (values self.tokens_to_refresh)
            → ((t : Millis) → r.next_refresh ≡ some t → t < now)
            → Memᴰ r (get_tokens_due_for_refresh u e now self))
  unfolding get_tokens_due_for_refresh
  tokens_due_iff now self r = (
    λ m.
        let (listed, due) = mem_of_mem-filter (is_due u e now) (values self.tokens_to_refresh) m in
        (listed, λ t h. ground (arith, due, h)),
    λ m h. mem-filter (is_due u e now) (values self.tokens_to_refresh) m (due-before now r h),
  )

  abbrev verdict : Bool → Bool → Bool → Result (Unit {0})
  verdict valid frontend covered =
      if valid && frontend
      then if not covered then err EdgeError.edge_token_error else ok tt
      else ok tt

  refusal :
      (valid frontend covered : Bool)
      → valid ≡ true
      → frontend ≡ true
      → covered ≡ false
      → verdict valid frontend covered ≡ err EdgeError.edge_token_error
  refusal valid frontend covered v f c = ground arith

  refused :
      (valid frontend covered : Bool) (x : EdgeError)
      → verdict valid frontend covered ≡ err x
      → (x ≡ EdgeError.edge_token_error) × (valid ≡ true) × (frontend ≡ true) × (covered ≡ false)
  refused true true false x h = (ground arith, refl, refl, refl)
  refused true true true x h = ground arith
  refused true false c x h = ground arith
  refused false f c x h = ground arith

  -- A request for a client token is refused exactly for a validated frontend token that no client
  -- token covers.
  pub create_client_token_iff :
      (token : EdgeToken) (self : Refresher u e) (x : EdgeError)
      → (create_client_token_for_fe_token u e token self ≡ err x) ↔ (
          (x ≡ EdgeError.edge_token_error)
          × (status_is token.status TokenValidationStatus.validated ≡ true)
          × (token.token_type ≡ some TokenType.frontend)
          × ((r : TokenRefresh)
              → Memᴰ r (values self.tokens_to_refresh)
              → Covers r.token token
              → ⊥))
  unfolding create_client_token_for_fe_token frontend_token_is_covered_by_client_token
      frontend_token_is_covered_by_tokens
  create_client_token_iff token self x = (
    λ h.
        let covers = λ (r : TokenRefresh).
          same_environment_and_broader_or_equal_project_access r.token token in
        let (same, valid, frontend, none_covers) =
          refused _ _ (any covers (values self.tokens_to_refresh)) x h in
        (
          same,
          valid,
          ((option_lawful token_type_lawful).beq_iff token.token_type (some TokenType.frontend)).0
              frontend,
          λ r m c.
              ground (arith, none_covers, any-intro covers (values self.tokens_to_refresh) m c),
        ),
    λ h.
        let covers = λ (r : TokenRefresh).
          same_environment_and_broader_or_equal_project_access r.token token in
        let (same, valid, frontend, none_covers) = h in
        elim (Bool-cases (any covers (values self.tokens_to_refresh))) [
          | inl t ↦
              let (r, m, c) = any-elim covers (values self.tokens_to_refresh) t in
              absurd (none_covers r m c)
          | inr n ↦
              refusal _ _ _ valid
                (((option_lawful token_type_lawful).beq_iff token.token_type
                    (some TokenType.frontend)).1
                  frontend)
                n
              ∙ ap err (sym same)
        ],
  )

  from_ok :
      (o : Option (ClientFeatures u)) (f : ClientFeatures u)
      → ok_or (hydration_failed u e) o ≡ ok f
      → o ≡ some f
  from_ok none f h = ground arith
  from_ok (some g) f h = ground arith

  module _ (w : Upstream u e) (token : EdgeToken) (filters : FeatureFilterSet u)
      (self : Refresher u e) where
    strict_error :
        self.strict ≡ true
        → features_after_hydration u e w token filters self
          ≡ some (self, err EdgeError.invalid_token_with_strict_behavior)
    unfolding features_after_hydration
    strict_error h = ground arith

    -- In strict mode a request changes nothing and asks upstream for nothing: it gets the filtered
    -- features of the cache if these are there and a registered token subsumes its own, else the error
    -- for strict behaviour.
    pub strict_answer :
        self.strict ≡ true
        → ((f : ClientFeatures u) × (get_features_by_filter u e token filters self ≡ some f)
            × (token_is_subsumed u e token self ≡ true)
            × (features_for_filter u e w token filters self ≡ some (self, ok f)))
          ⊎ (((get_features_by_filter u e token filters self ≡ none)
                ⊎ (token_is_subsumed u e token self ≡ false))
              × (features_for_filter u e w token filters self
                  ≡ some (self, err EdgeError.invalid_token_with_strict_behavior)))
    unfolding features_for_filter
    strict_answer strict = elim (Option-cases (get_features_by_filter u e token filters self)) [
      | inl miss ↦ inr (inl miss, rw (miss, features_for_filter) (strict_error strict))
      | inr (f, hit) ↦ elim (Bool-cases (token_is_subsumed u e token self)) [
        | inl t ↦ inl (f, hit, t, rw (hit, t, features_for_filter) refl)
        | inr n ↦ inr (inr n, rw (hit, n, features_for_filter) (strict_error strict))
      ]
    ]

    registered-InSync :
        InSync u e self → InSync u e (register_token_for_refresh u e token none self)
    unfolding register_token_for_refresh
    registered-InSync h = elim (Bool-cases (Dict.contains_key token.token self.tokens_to_refresh)) [
      | inl t ↦ rw t h
      | inr n ↦ rw n h
    ]

    -- what a request ends with
    abbrev Ends : Option (Refresher u e × Result (ClientFeatures u)) → Type 0
    Ends end =
        (self' : Refresher u e) × (answer : Result (ClientFeatures u)) × (end
          ≡ some (self', answer))
        × InSync u e self'
        × ((f : ClientFeatures u)
            → answer ≡ ok f
            → get_features_by_filter u e token filters self' ≡ some f)

    hydration_total :
        DeltaLaws u e
        → AllReadable u e w
        → InSync u e self
        → Ends (features_after_hydration u e w token filters self)
    unfolding features_after_hydration register_and_hydrate_token hydrate_new_tokens
    hydration_total laws readable h = elim (Bool-cases self.strict) [
      | inl t ↦ (self, _, strict_error t, h, λ f bad. ground arith)
      | inr n ↦
          let registered = register_token_for_refresh u e token none self in
          let (self', pass, h') =
            refresh_all-InSync u e laws w (get_tokens_never_refreshed u e registered) registered
              readable (registered-InSync h) in
          (
            self',
            ok_or (hydration_failed u e) (get_features_by_filter u e token filters self'),
            ground (
              arith,
              n,
              ap
                  (Option.map {B = Refresher u e × Result (ClientFeatures u)} (λ s.
                    (s, ok_or (hydration_failed u e) (get_features_by_filter u e token filters s))))
                  pass,
            ),
            h',
            λ f. from_ok (get_features_by_filter u e token filters self') f,
          )
    ]

    pub request_total :
        DeltaLaws u e
        → AllReadable u e w
        → InSync u e self
        → Ends (features_for_filter u e w token filters self)
    unfolding features_for_filter
    request_total laws readable h =
        elim (Option-cases (get_features_by_filter u e token filters self)) [
          | inl miss ↦ rw (miss, features_for_filter) (hydration_total laws readable h)
          | inr (f, hit) ↦ elim (Bool-cases (token_is_subsumed u e token self)) [
            | inl t ↦ (
              self,
              ok f,
              rw (hit, t, features_for_filter) refl,
              h,
              λ g same. ground (arith, hit, same),
            )
            | inr n ↦ rw (hit, n, features_for_filter) (hydration_total laws readable h)
          ]
        ]
