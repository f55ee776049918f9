-- ===== src/Backstage/Ready.antt =====
-- The commands against a running Edge.
use Prim.Native.String.{◌++◌ as append_text}
use unleash_edge.Prelude.{
  ◌≡◌, ◌↔◌, ◌⊎◌, refl, sym, ◌∙◌, ap, Option, String, true, false, ◌&&◌, not, none, some, is_empty,
  arith, Bool-cases, inl, inr,
}
use unleash_edge.Dict.{Dict}
use unleash_edge.Error.{EdgeError, Result, StatusCode, status_code, ok, err}
use unleash_edge.Types.{EdgeToken}
use unleash_edge.Panics.{◌>>=◌}
use unleash_edge.Urls.{UrlCrate}
use unleash_edge.Features.{UnleashTypes, Engine}
use unleash_edge.FeatureCache
use unleash_edge.FeatureCache.{FeatureCache}
use unleash_edge.Backstage.{EdgeStatus, health, ready}
use unleash_edge.Backstage.Checkers.{
  Outcome, Response, check_client, health_answer, check_health, ready_status, ready_answer,
  with_url, check_ready, build_health_url, build_ready_url,
}

-- what is served for a result of a handler: the value as JSON, or the error's status
abbrev pub served : (StatusCode → String) → String → Result EdgeStatus → Response
served show_code no_json (ok s) = record {
  status = 200;
  json = Outcome.success s;
  status_text = show_code 200;
}
served show_code no_json (err x) = record {
  status = status_code x;
  json = Outcome.failure no_json;
  status_text = show_code (status_code x);
}

module _ (u : UnleashTypes) (e : Engine u) (c : UrlCrate) (parse_error : String → String)
    (show_status : EdgeStatus → String) (show_code : StatusCode → String)
    (no_json edge_url : String) where
  with_url_lem :
      {A : Type 0} (invalid : String → EdgeError) (build : c.Url → Option (c.Url))
      (base url : c.Url) (k : String → Option (Result A))
      → c.parse edge_url ≡ some base
      → build base ≡ some url
      → with_url c parse_error show_status invalid build edge_url k ≡ k (c.to_text url)
  with_url_lem invalid build base url k parsed built = rw (parsed, with_url, built, ◌>>=◌) refl

  -- Against an Edge that serves its health and its readiness at `health` and `ready` below
  -- `internal-backstage` of the given address, the health check succeeds, and the ready check succeeds
  -- exactly if the Edge has no token yet or has features for an environment.
  pub checks_iff :
      (token_cache : Dict String EdgeToken) (features_cache : FeatureCache u)
      (base backstage health_url ready_url : c.Url) (send : String → Outcome Response)
      → c.parse edge_url ≡ some base
      → c.push "internal-backstage" base ≡ some backstage
      → c.push "health" backstage ≡ some health_url
      → c.push "ready" backstage ≡ some ready_url
      → send (c.to_text health_url) ≡ Outcome.success (served show_code no_json health)
      → send (c.to_text ready_url)
        ≡ Outcome.success (served show_code no_json (ready u e token_cache features_cache))
      → (check_health c parse_error show_status (ok none) edge_url send ≡ some (ok tt))
        × ((check_ready c parse_error show_status (ok none) edge_url send ≡ some (ok tt))
            ↔ ((is_empty token_cache ≡ true) ⊎ (FeatureCache.is_empty u features_cache ≡ false)))
  unfolding check_health check_ready check_client health_answer ready_answer ready_status health
      ready status_code build_health_url build_ready_url
  checks_iff token_cache features_cache base backstage health_url ready_url send parsed below h r
        healthy readiness =
      let healthy_url : build_health_url c parse_error show_status base ≡ some health_url =
        rw (below, h) refl in
      let readiness_url : build_ready_url c parse_error show_status base ≡ some ready_url =
        rw (below, r) refl in
      let readied : check_ready c parse_error show_status (ok none) edge_url send
          ≡ some (
              ready_answer c parse_error show_status (c.to_text ready_url) (
                Outcome.success
                  (served show_code no_json (ready u e token_cache features_cache)))) =
        with_url_lem (λ p. EdgeError.ready_check_error (append_text "Invalid ready check url: " p))
          (build_ready_url c parse_error show_status) base ready_url
          (λ url. some (ready_answer c parse_error show_status url (send url))) parsed readiness_url
        ∙ ap (λ o. some (ready_answer c parse_error show_status (c.to_text ready_url) o))
            readiness in
      (
        with_url_lem
              (λ p. EdgeError.health_check_error (append_text "Invalid health check url: " p))
              (build_health_url c parse_error show_status) base health_url
              (λ url. some (health_answer c parse_error show_status (send url))) parsed healthy_url
            ∙ ap (λ o. some (health_answer c parse_error show_status o)) healthy,
        elim (Bool-cases (not (is_empty token_cache) && FeatureCache.is_empty u features_cache)) [
          | inl y ↦ (
            λ good. absurd (ground (arith, rw y at (sym readied ∙ good))),
            λ w. absurd (ground arith),
          )
          | inr n ↦ (λ good. ground arith, λ w. readied ∙ rw n refl)
        ],
      )
