-- ===== src/Metrics/Backoff.antt =====
-- The sender after a failure: which batches it puts back, and how long it waits.
use Prim.Native.Nat.{max}
use unleash_edge.Prelude.{
  ℕ, ◌+◌, ◌*◌, ◌≤◌, ◌≡◌, refl, sym, ap, ◌∙◌, String, Bool, true, false, not, ◌||◌, Option, List, [],
  ◌∷◌, arith, string_eq, ◌=ℕ◌, length, any, if◌then◌else◌,
}
use unleash_edge.Dict.{Dict}
use unleash_edge.Error.{EdgeError, StatusCode, Result, ok, err}
use unleash_edge.Types.{TokenRefresh}
use unleash_edge.Metrics.Data.{MetricsTypes, MetricsBatch}
use unleash_edge.Metrics.Cache.{reinsert_batch}
use unleash_edge.Metrics.Batches.{
  has_content, get_metrics_by_environment, get_appropriately_sized_env_batches,
}
use unleash_edge.Metrics.Sender.{
  Sender, new_interval, set_failures, put_back, handle_status, handle_result, decide_where_to_post,
  send_batches, send_environments, send_metrics_turn,
}

-- A batch is worth another attempt where upstream's answer was a status that does not blame the batch,
-- the endpoint or the token.
abbrev pub is_retried : Result (Unit {0}) → Bool
is_retried (err (EdgeError.edge_metrics_request_error status _)) =
    not (any (λ s. status =ℕ s) (400 ∷ 401 ∷ 403 ∷ 404 ∷ 413 ∷ []))
is_retried _ = false

-- the statuses after which the sender waits longer
abbrev pub is_busy : StatusCode → Bool
is_busy status = any (λ s. status =ℕ s) (429 ∷ 500 ∷ 502 ∷ 503 ∷ 504 ∷ [])

module _ (t : MetricsTypes) (send_interval : ℕ) where
  status_cache :
      (batch : MetricsBatch t) (status : StatusCode) (m : Option _) (s : Sender t)
      → (handle_status t send_interval batch status s).cache ≡ (
          if is_retried (err (EdgeError.edge_metrics_request_error status m))
          then reinsert_batch t batch s.cache
          else s.cache)
  unfolding handle_status any
  status_cache batch status m s = ground arith

  -- A batch is put back into the cache exactly if upstream answered with a status other than 400, 401,
  -- 403, 404 and 413; after a request that was not answered at all it is lost, as after those.
  pub handle_result_cache :
      (batch : MetricsBatch t) (r : Result (Unit {0})) (s : Sender t)
      → (handle_result t send_interval batch r s).cache
        ≡ (if is_retried r then reinsert_batch t batch s.cache else s.cache)
  unfolding handle_result
  handle_result_cache batch (ok _) s = refl
  handle_result_cache batch (err (EdgeError.edge_metrics_request_error status m)) s =
      status_cache batch status m s
  handle_result_cache batch (err _) s = refl

  -- The interval is the one that belongs to the number of failures.
  abbrev pub IsInStep : Sender t → Type 0
  IsInStep s = s.interval ≡ new_interval send_interval s.failures

  pick : (b : Bool) (x y : Sender t) → IsInStep x → IsInStep y → IsInStep (if b then x else y)
  pick true x y h k = h
  pick false x y h k = k

  status-IsInStep :
      (batch : MetricsBatch t) (status : StatusCode) (s : Sender t)
      → IsInStep s
      → IsInStep (handle_status t send_interval batch status s)
  unfolding handle_status
  status-IsInStep batch status s h = pick (status =ℕ 413) s _ h (
      pick (status =ℕ 400) s _ h (
        pick (status =ℕ 404) (set_failures t send_interval 10 s) _ refl (
          pick (status =ℕ 403 || status =ℕ 401) (set_failures t send_interval 10 s) _ refl (
            pick (status =ℕ 429)
              (put_back t batch (set_failures t send_interval (max 10 (s.failures + 1)) s)) _ refl
              (pick (status =ℕ 500 || status =ℕ 502 || status =ℕ 503 || status =ℕ 504)
                (put_back t batch (set_failures t send_interval (max 10 (s.failures + 1)) s))
                (put_back t batch s) refl h)))))

  result-IsInStep :
      (batch : MetricsBatch t) (r : Result (Unit {0})) (s : Sender t)
      → IsInStep s
      → IsInStep (handle_result t send_interval batch r s)
  unfolding handle_result
  result-IsInStep batch (ok _) s h = refl
  result-IsInStep batch (err (EdgeError.edge_metrics_request_error status m)) s h =
      status-IsInStep batch status s h
  result-IsInStep batch (err _) s h = h

  interval_is : (n : ℕ) → new_interval send_interval n ≡ send_interval * (n + 1)
  unfolding new_interval
  interval_is n = omega arith

  module _ (size_of_batch : MetricsBatch t → ℕ)
      (send : Bool × String → MetricsBatch t → Result (Unit {0})) where
    batches-IsInStep :
        (target : Bool × String) (l : List (MetricsBatch t)) (s : Sender t)
        → IsInStep s
        → IsInStep (send_batches t size_of_batch send send_interval target l s)
    unfolding send_batches
    batches-IsInStep target [] s h = h
    batches-IsInStep target (b ∷ l) s h = batches-IsInStep target l _ (
        pick (has_content t size_of_batch b) (handle_result t send_interval b (send target b) s) s
          (result-IsInStep b (send target b) s h) h)

    environments-IsInStep :
        (known_tokens : Dict String TokenRefresh) (l : Dict String (MetricsBatch t)) (s : Sender t)
        → IsInStep s
        → IsInStep (send_environments t size_of_batch send send_interval known_tokens l s)
    unfolding send_environments
    environments-IsInStep known_tokens [] s h = h
    environments-IsInStep known_tokens ((env, b) ∷ l) s h = environments-IsInStep known_tokens l _ (
        batches-IsInStep (decide_where_to_post env known_tokens)
          (get_appropriately_sized_env_batches t size_of_batch b s.cache).1
          (record s { cache = (get_appropriately_sized_env_batches t size_of_batch b s.cache).0 })
          h)

    -- Whatever upstream answers, a turn of the sender leaves it with the interval that belongs to its
    -- number of failures `n`: `n + 1` times the configured one, if it was so before.
    pub turn-IsInStep :
        (known_tokens : Dict String TokenRefresh) (s : Sender t)
        → IsInStep s
        → (send_metrics_turn t size_of_batch send send_interval known_tokens s).interval
          ≡ send_interval
            * ((send_metrics_turn t size_of_batch send send_interval known_tokens s).failures + 1)
    unfolding send_metrics_turn
    turn-IsInStep known_tokens s h =
        let after =
          environments-IsInStep known_tokens (get_metrics_by_environment t size_of_batch s.cache) s
            h in
        after ∙ interval_is _

  -- the failures after answers to batches, in a row
  pub answered : List (MetricsBatch t × StatusCode) → Sender t → Sender t
  answered [] s = s
  answered ((b, status) ∷ l) s = answered l (handle_status t send_interval b status s)

  abbrev pub AllBusy : List (MetricsBatch t × StatusCode) → Type 0
  AllBusy [] = Unit
  AllBusy ((b, status) ∷ l) = (is_busy status ≡ true) × AllBusy l

  busy_step :
      (b : MetricsBatch t) (status : StatusCode) (s : Sender t)
      → is_busy status ≡ true
      → (handle_status t send_interval b status s).failures ≡ max 10 (s.failures + 1)
  unfolding handle_status any
  busy_step b status s h = ground arith

  grown : (n i j k : ℕ) → i ≡ n * (j + 1) → n * (j + 1 + 1) + n * k ≡ i + n * (k + 1)
  grown n i j k h = omega arith

  -- While upstream is busy the failures grow without a bound: `k` busy answers in a row to a sender with
  -- at least 10 failures leave it with `k` more, and with an interval that is longer by `k` times the
  -- configured one, where it had the interval that belongs to its failures.
  pub busy_failures :
      (l : List (MetricsBatch t × StatusCode)) (s : Sender t)
      → AllBusy l
      → 10 ≤ s.failures
      → s.interval ≡ send_interval * (s.failures + 1)
      → ((answered l s).failures ≡ s.failures + length l)
        × ((answered l s).interval ≡ s.interval + send_interval * length l)
  unfolding answered
  busy_failures [] s h many at = (omega arith, omega arith)
  busy_failures ((b, status) ∷ l) s (first, rest) many at =
      let step = busy_step b status s first in
      let s' = handle_status t send_interval b status s in
      let long : s'.interval ≡ send_interval * (s'.failures + 1) =
        status-IsInStep b status s (at ∙ sym (interval_is s.failures)) ∙ interval_is s'.failures in
      let counted : length l + 1 ≡ length ((b, status) ∷ l) = omega arith in
      let (more, longer) = busy_failures l s' rest (omega arith) long in
      let one_more : s'.failures ≡ s.failures + 1 = omega arith in
      let later : s'.interval ≡ send_interval * (s.failures + 1 + 1) =
        long ∙ ap (λ n. send_interval * (n + 1)) one_more in
      (
        more ∙ omega arith,
        longer
            ∙ ap (λ i. i + send_interval * length l) later
            ∙ grown send_interval s.interval s.failures (length l) at
            ∙ ap (λ k. s.interval + send_interval * k) counted,
      )
