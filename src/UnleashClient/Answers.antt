-- ===== src/UnleashClient/Answers.antt =====
-- Which answers of upstream give which results.
use unleash_edge.Prelude.{
  ◌≡◌, ◌≢◌, ◌⊎◌, ◌↔◌, inl, inr, refl, String, Option, none, some, List, map, arith, is_some, ◌=ℕ◌,
  true, false, Bool-cases, Option-cases,
}
use unleash_edge.Error.{StatusCode, EdgeError, FeatureError, Result, ok, err, UnleashBadRequest}
use unleash_edge.Types.{EdgeToken, EntityTag, TokenValidationStatus}
use unleash_edge.UnleashClient.{
  HeaderValue, Outcome, FeaturesResponse, is_success, ClientFeaturesRequest, get_features,
  send_metrics, validate_tokens, complete_token,
}

module _ {B : Type 0} (parse_etag : String → Option EntityTag)
    (request : ClientFeaturesRequest) where
  -- A fetch panics exactly on a 304 to a request without an entity tag, and on a success whose ETag is
  -- no visible text.
  pub get_features_panics_iff :
      (o : Outcome B)
      → (get_features parse_etag request o ≡ none) ↔ (
          (s : StatusCode) × (h : Option HeaderValue) × (b : B ⊎ String) × (o
            ≡ Outcome.response s h b)
          × (((s ≡ 304) × (request.etag ≡ none))
              ⊎ ((is_success s ≡ true) × (h ≡ some HeaderValue.opaque))))
  unfolding get_features
  get_features_panics_iff (Outcome.not_sent none) =
      (λ e. absurd (ground arith), λ r. absurd (ground arith))
  get_features_panics_iff (Outcome.not_sent (some s)) =
      (λ e. absurd (ground arith), λ r. absurd (ground arith))
  get_features_panics_iff (Outcome.response s none b) =
      (λ e. (s, none, b, refl, ground arith), λ r. ground arith)
  get_features_panics_iff (Outcome.response s (some HeaderValue.opaque) b) =
      (λ e. (s, some HeaderValue.opaque, b, refl, ground arith), λ r. ground arith)
  get_features_panics_iff (Outcome.response s (some (HeaderValue.text t)) b) =
      (λ e. (s, some (HeaderValue.text t), b, refl, ground arith), λ r. ground arith)

  -- An outcome that can be read: no 304 to a request without an entity tag, and no ETag on a success that
  -- is no visible text.
  abbrev pub IsReadable : Outcome B → Type 0
  IsReadable o =
      (s : StatusCode) (h : Option HeaderValue) (b : B ⊎ String)
      → o ≡ Outcome.response s h b
      → (s ≡ 304 → request.etag ≢ none) × (is_success s ≡ true → h ≢ some HeaderValue.opaque)

  pub get_features-IsReadable :
      (o : Outcome B)
      → IsReadable o
      → (a : Result (FeaturesResponse B)) × (get_features parse_etag request o ≡ some a)
  get_features-IsReadable o readable = elim (Option-cases (get_features parse_etag request o)) [
    | inl panics ↦
        let (s, h, b, e, how) = (get_features_panics_iff o).0 panics in
        let (tagged, visible) = readable s h b e in
        elim how [
          | inl (is_304, no_tag) ↦ absurd (tagged is_304 no_tag)
          | inr (success, hidden) ↦ absurd (visible success hidden)
        ]
    | inr found ↦ found
  ]

  -- Access is denied exactly on the statuses 401 and 403; the tokens are then given up.
  pub get_features_denied_iff :
      (o : Outcome B)
      → (get_features parse_etag request o
          ≡ some (err (EdgeError.client_features_fetch_error FeatureError.access_denied)))
        ↔ ((s : StatusCode) × (h : Option HeaderValue) × (b : B ⊎ String) × (o
              ≡ Outcome.response s h b)
            × ((s ≡ 401) ⊎ (s ≡ 403)))
  unfolding get_features
  get_features_denied_iff (Outcome.not_sent none) = (λ e. absurd (ground arith), λ r. ground arith)
  get_features_denied_iff (Outcome.not_sent (some s)) =
      (λ e. absurd (ground arith), λ r. ground arith)
  get_features_denied_iff (Outcome.response s none b) =
      (λ e. (s, none, b, refl, ground arith), λ r. ground arith)
  get_features_denied_iff (Outcome.response s (some v) b) =
      (λ e. (s, some v, b, refl, ground arith), λ r. ground arith)

-- Metrics count as delivered exactly on a success; a refusal carries upstream's own status, so that the
-- sender can tell a retry from a drop, and its body for a 400 alone.
pub send_metrics_result :
    (s : StatusCode) (h : Option HeaderValue) (b : UnleashBadRequest ⊎ String)
    → (is_success s ≡ true → send_metrics (Outcome.response s h b) ≡ ok tt)
      × (is_success s ≡ false
          → (m : Option UnleashBadRequest) × (send_metrics (Outcome.response s h b)
              ≡ err (EdgeError.edge_metrics_request_error s m))
            × (s ≢ 400 → m ≡ none))
unfolding send_metrics
send_metrics_result s h b = (
  λ t. ground arith,
  λ f. elim (Bool-cases (s =ℕ 400)) [
    | inl t ↦ (elim b [ inl x ↦ some x | inr _ ↦ none ], ground arith, λ n. absurd (ground arith))
    | inr g ↦ (none, ground arith, λ n. refl)
  ],
)

complete_token_keeps :
    (t : EdgeToken)
    → ((complete_token t).token ≡ t.token)
      × ((complete_token t).token_type ≡ t.token_type)
      × ((complete_token t).projects ≡ t.projects)
      × ((complete_token t).status ≡ TokenValidationStatus.validated)
      × (is_some t.environment ≡ true → (complete_token t).environment ≡ t.environment)
unfolding complete_token
complete_token_keeps t = (refl, refl, refl, refl, λ h. ground arith)

-- Only a 200 with a readable body validates tokens; each is then an answered token marked as validated,
-- with the secret, type, projects and environment that upstream gave, and where upstream gave no
-- environment, that of the token's own text.
pub validate_tokens_sound :
    (o : Outcome (List EdgeToken)) (l : List EdgeToken)
    → validate_tokens o ≡ ok l
    → (h : Option HeaderValue) × (ts : List EdgeToken) × (o ≡ Outcome.response 200 h (inl ts))
      × (l ≡ map complete_token ts)
unfolding validate_tokens
validate_tokens_sound (Outcome.not_sent s) l e = absurd (ground arith)
validate_tokens_sound (Outcome.response s h (inr m)) l e = absurd (ground arith)
validate_tokens_sound (Outcome.response s h (inl ts)) l e = (h, ts, ground arith, ground arith)
