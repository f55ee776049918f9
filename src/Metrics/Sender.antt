-- ===== src/Metrics/Sender.antt =====
-- server/src/http/background_send_metrics.rs: sending the counts upstream, and waiting after failures.
-- What upstream answers to a batch is an argument. `failures` is never negative: `max(0, failures - 1)`
-- is the subtraction that stops at 0.
use Prim.Native.Nat.{max}
use unleash_edge.Prelude.{
  ℕ, ◌+◌, ◌-◌, ◌*◌, String, Bool, true, false, ◌||◌, none, some, List, [], ◌∷◌, string_eq, ◌=ℕ◌,
  find, if◌then◌else◌,
}
use unleash_edge.Dict.{Dict, values}
use unleash_edge.Error.{EdgeError, StatusCode, Result, ok, err}
use unleash_edge.Types.{TokenRefresh}
use unleash_edge.Refresher.State.{environment_is}
use unleash_edge.Metrics.Data.{MetricsTypes, MetricsBatch}
use unleash_edge.Metrics.Cache.{MetricsCache, reinsert_batch}
use unleash_edge.Metrics.Batches.{
  has_content, get_metrics_by_environment, get_appropriately_sized_env_batches,
}

-- The bulk endpoint with the token of the environment, if there is one, else the old endpoint.
unfoldable pub decide_where_to_post : String → Dict String TokenRefresh → Bool × String
decide_where_to_post environment known_tokens =
    elim (find (λ r. environment_is r.token.environment (some environment)) (values known_tokens)) [
      | some r ↦ (true, r.token.token)
      | none ↦ (false, "")
    ]

unfoldable pub new_interval : ℕ → ℕ → ℕ
new_interval send_interval failures = send_interval + send_interval * failures

module _ (t : MetricsTypes) where
  pub record Sender : Type 0 where
    pub cache : MetricsCache t
    pub failures : ℕ
    pub interval : ℕ  -- seconds

  -- `failures = n; interval = new_interval(…)`
  abbrev pub set_failures : ℕ → ℕ → Sender → Sender
  set_failures send_interval n s = record s {
    failures = n;
    interval = new_interval send_interval n;
  }

  abbrev pub put_back : MetricsBatch t → Sender → Sender
  put_back batch s = record s { cache = reinsert_batch t batch s.cache }

  -- a status of the answer, in the order of the match
  unfoldable pub handle_status : ℕ → MetricsBatch t → StatusCode → Sender → Sender
  handle_status send_interval batch status s =
      if status =ℕ 413
      then s
      else if status =ℕ 400
      then s
      else if status =ℕ 404
      then set_failures send_interval 10 s
      else if status =ℕ 403 || status =ℕ 401
      then set_failures send_interval 10 s
      else if status =ℕ 429
      then put_back batch (set_failures send_interval (max 10 (s.failures + 1)) s)
      else if status =ℕ 500 || status =ℕ 502 || status =ℕ 503 || status =ℕ 504
      then put_back batch (set_failures send_interval (max 10 (s.failures + 1)) s)
      else put_back batch s

  unfoldable pub handle_result : ℕ → MetricsBatch t → Result (Unit {0}) → Sender → Sender
  handle_result send_interval batch (ok _) s = set_failures send_interval (s.failures - 1) s
  handle_result send_interval batch (err (EdgeError.edge_metrics_request_error status_code message))
        s =
      handle_status send_interval batch status_code s
  handle_result send_interval batch (err _) s = s

  module _ (size_of_batch : MetricsBatch t → ℕ)
      (send : Bool × String → MetricsBatch t → Result (Unit {0})) where
    -- the loop over the batches of an environment
    unfoldable pub send_batches : ℕ → Bool × String → List (MetricsBatch t) → Sender → Sender
    send_batches send_interval target [] s = s
    send_batches send_interval target (batch ∷ rest) s = send_batches send_interval target rest (
        if has_content t size_of_batch batch
        then handle_result send_interval batch (send target batch) s
        else s)

    -- the loop over the environments
    unfoldable pub send_environments :
        ℕ → Dict String TokenRefresh → Dict String (MetricsBatch t) → Sender → Sender
    send_environments send_interval known_tokens [] s = s
    send_environments send_interval known_tokens ((env, batch) ∷ rest) s =
        let (cache, batches) = get_appropriately_sized_env_batches t size_of_batch batch s.cache in
        send_environments send_interval known_tokens rest (
          send_batches send_interval (decide_where_to_post env known_tokens) batches
            (record s { cache = cache }))

    -- one turn of the loop of `send_metrics_task`
    unfoldable pub send_metrics_turn : ℕ → Dict String TokenRefresh → Sender → Sender
    send_metrics_turn send_interval known_tokens s =
        send_environments send_interval known_tokens
          (get_metrics_by_environment t size_of_batch s.cache) s
