-- ===== src/Backstage/Checkers.antt =====
-- server/src/health_checker.rs and server/src/ready_checker.rs: the two commands that ask a running Edge.
-- What building the client and sending the request give is an argument, with the texts that Debug prints;
-- the url crate is a parameter, with the text of the error for an address. A panic is `none`.
use Prim.Native.String.{◌++◌ as append_text}
use unleash_edge.Prelude.{String, Bool, Option, none, some, if◌then◌else◌, ◌=ℕ◌}
use unleash_edge.Error.{EdgeError, Result, StatusCode, ok, err}
use unleash_edge.Types.{Status}
use unleash_edge.Panics.{◌>>=◌}
use unleash_edge.Urls.{UrlCrate}
use unleash_edge.Backstage.{EdgeStatus}

-- a result with the text of its error
pub data Outcome (A : Type 0) : Type 0 where
  success : A → Outcome A
  failure : String → Outcome A

-- A response: its status, its body read as an `EdgeStatus`, and the status as text.
pub record Response : Type 0 where
  pub status : StatusCode
  pub json : Outcome EdgeStatus
  pub status_text : String

module _ (c : UrlCrate) (parse_error : String → String) (show_status : EdgeStatus → String) where
  -- the certificate, and whether a client with it can be built
  unfoldable pub check_client : Result (Option Bool) → Option (Result (Unit {0}))
  check_client (err x) = some (err x)
  check_client (ok none) = some (ok tt)
  check_client (ok (some builds)) = if builds then some (ok tt) else none

  unfoldable pub build_health_url : c.Url → Option (c.Url)
  build_health_url url = c.push "internal-backstage" url >>= c.push "health"

  unfoldable pub build_ready_url : c.Url → Option (c.Url)
  build_ready_url url = c.push "internal-backstage" url >>= c.push "ready"

  -- the address of an endpoint as text
  abbrev pub with_url :
      {A : Type 0}
      → (String → EdgeError)
      → (c.Url → Option (c.Url))
      → String
      → (String → Option (Result A))
      → Option (Result A)
  with_url invalid build edge_url k = elim (c.parse edge_url) [
    | none ↦ some (err (invalid (parse_error edge_url)))
    | some base ↦ build base >>= (λ url. k (c.to_text url))
  ]

  unfoldable pub health_answer : Outcome Response → Result (Unit {0})
  health_answer (Outcome.failure e) = err (EdgeError.health_check_error e)
  health_answer (Outcome.success r) =
      if r.status =ℕ 200
      then ok tt
      else err (EdgeError.health_check_error "Healthcheck had different status than 200")

  unfoldable pub check_health :
      Result (Option Bool) → String → (String → Outcome Response) → Option (Result (Unit {0}))
  check_health certificate edge_url send = elim (check_client certificate) [
    | none ↦ none
    | some (err x) ↦ some (err x)
    | some (ok _) ↦
        with_url (λ p. EdgeError.health_check_error (append_text "Invalid health check url: " p))
          build_health_url edge_url (λ url. some (health_answer (send url)))
  ]

  -- the match on the status of the answer
  unfoldable pub ready_status : EdgeStatus → Result (Unit {0})
  ready_status answer = elim answer.status [
    | Status.ready ↦ ok tt
    | _ ↦ err (
        EdgeError.ready_check_error (
          append_text "Ready check returned a different status than READY. It returned "
            (show_status answer)))
  ]

  unfoldable pub ready_answer : String → Outcome Response → Result (Unit {0})
  ready_answer url (Outcome.failure status) = err (
      EdgeError.ready_check_error (
        append_text "Failed to connect to ready endpoint at "
          (append_text url (append_text ". Failed with status " status))))
  ready_answer url (Outcome.success r) =
      if r.status =ℕ 200
      then elim r.json [
        | Outcome.failure e ↦ err (
            EdgeError.ready_check_error
              (append_text "Ready check endpoint returned data we didn't understand. " e))
        | Outcome.success answer ↦ ready_status answer
      ]
      else err (
          EdgeError.ready_check_error (
            append_text "Ready check did not return 200 for "
              (append_text url (append_text ". It returned " r.status_text))))

  unfoldable pub check_ready :
      Result (Option Bool) → String → (String → Outcome Response) → Option (Result (Unit {0}))
  check_ready certificate edge_url send = elim (check_client certificate) [
    | none ↦ none
    | some (err x) ↦ some (err x)
    | some (ok _) ↦
        with_url (λ p. EdgeError.ready_check_error (append_text "Invalid ready check url: " p))
          build_ready_url edge_url (λ url. some (ready_answer url (send url)))
  ]
