-- ===== src/Types/Schedule.antt =====
-- When a token is fetched next, after failures and after successes.
use Prim.Native.Nat.{min}
use unleash_edge.Prelude.{
  ℕ, zero, suc, ◌+◌, ◌-◌, ◌*◌, ◌≤◌, ◌≡◌, Option, some, List, [], ◌∷◌, arith, length, ap, map,
}
use unleash_edge.Types.{
  Millis, EntityTag, TokenRefresh, to_i32_or_zero, calculate_next_refresh, backoff,
  successful_check, successful_refresh,
}

-- What may happen to a refresh record between two reads of it, with the time at which it happens.
pub data Attempt : Type 0 where
  failed checked : Millis → Attempt
  refreshed : Millis → Option EntityTag → ℕ → Attempt

unfoldable pub attempt : Millis → TokenRefresh → Attempt → TokenRefresh
attempt interval r (Attempt.failed now) = backoff now interval r
attempt interval r (Attempt.checked now) = successful_check now interval r
attempt interval r (Attempt.refreshed now etag n) = successful_refresh now interval etag n r

pub attempts : Millis → TokenRefresh → List Attempt → TokenRefresh
attempts interval r [] = r
attempts interval r (a ∷ rest) = attempts interval (attempt interval r a) rest

-- the time at which an attempt ends
abbrev pub time_of : Attempt → Millis
time_of (Attempt.failed now) = now
time_of (Attempt.checked now) = now
time_of (Attempt.refreshed now _ _) = now

-- whether upstream answered
abbrev pub Succeeded : List Attempt → Type 0
Succeeded [] = Unit
Succeeded (Attempt.failed _ ∷ _) = ⊥
Succeeded (Attempt.checked _ ∷ rest) = Succeeded rest
Succeeded (Attempt.refreshed _ _ _ ∷ rest) = Succeeded rest

attempt_capped :
    (interval : Millis) (r : TokenRefresh) (a : Attempt)
    → r.failure_count ≤ 10
    → (attempt interval r a).failure_count ≤ 10
unfolding attempt backoff successful_check successful_refresh
attempt_capped interval r (Attempt.failed now) h = omega arith
attempt_capped interval r (Attempt.checked now) h = ground arith
attempt_capped interval r (Attempt.refreshed now etag n) h = ground arith

-- However the attempts go, a new record's failure count stays at most 10.
pub failure_count_bounded :
    (interval : Millis) (r : TokenRefresh) (l : List Attempt)
    → r.failure_count ≤ 10
    → (attempts interval r l).failure_count ≤ 10
unfolding attempts
failure_count_bounded interval r [] h = h
failure_count_bounded interval r (a ∷ rest) h =
    failure_count_bounded interval (attempt interval r a) rest (attempt_capped interval r a h)

to_i32_small : (n : ℕ) → n ≤ 10 → to_i32_or_zero n ≡ n
unfolding to_i32_or_zero
to_i32_small n h = ground arith

next_exact :
    (now interval n : ℕ) → n ≤ 10 → calculate_next_refresh now interval n ≡ now + interval * (n + 1)
unfolding calculate_next_refresh
next_exact now interval zero h = omega arith
next_exact now interval (suc n) h = rw (to_i32_small (suc n) h) (grind arith)

-- After an attempt that ends with `n` failures on record, the next fetch is due `n + 1` refresh
-- intervals after the time of the attempt, for a record with at most 10 failures before it.
pub attempt_next :
    (interval : Millis) (r : TokenRefresh) (a : Attempt)
    → r.failure_count ≤ 10
    → (attempt interval r a).next_refresh
      ≡ some (time_of a + interval * ((attempt interval r a).failure_count + 1))
unfolding attempt backoff successful_check successful_refresh
attempt_next interval r (Attempt.failed now) h = ap some (next_exact now interval _ (omega arith))
attempt_next interval r (Attempt.checked now) h = ap some (next_exact now interval _ (ground arith))
attempt_next interval r (Attempt.refreshed now etag n) h =
    ap some (next_exact now interval _ (ground arith))

success_lowers :
    (interval : Millis) (r : TokenRefresh) (a : Attempt)
    → Succeeded (a ∷ [])
    → (attempt interval r a).failure_count ≡ r.failure_count - 1
unfolding attempt successful_check successful_refresh
success_lowers interval r (Attempt.failed now) h = absurd h
success_lowers interval r (Attempt.checked now) h = ground arith
success_lowers interval r (Attempt.refreshed now etag n) h = ground arith

Succeeded-head : (a : Attempt) (rest : List Attempt) → Succeeded (a ∷ rest) → Succeeded (a ∷ [])
Succeeded-head (Attempt.failed now) rest h = h
Succeeded-head (Attempt.checked now) rest h = tt
Succeeded-head (Attempt.refreshed now etag n) rest h = tt

Succeeded-tail : (a : Attempt) (rest : List Attempt) → Succeeded (a ∷ rest) → Succeeded rest
Succeeded-tail (Attempt.failed now) rest h = absurd h
Succeeded-tail (Attempt.checked now) rest h = h
Succeeded-tail (Attempt.refreshed now etag n) rest h = h

-- Each answer of upstream takes one failure off the record: after `k` answers in a row the failure
-- count is what it was, less `k`, and 0 where it was no more.
pub answers_lower :
    (interval : Millis) (r : TokenRefresh) (l : List Attempt)
    → Succeeded l
    → (attempts interval r l).failure_count ≡ r.failure_count - length l
unfolding attempts
answers_lower interval r [] h = omega arith
answers_lower interval r (a ∷ rest) h = omega (
  arith,
  answers_lower interval (attempt interval r a) rest (Succeeded-tail a rest h),
  success_lowers interval r a (Succeeded-head a rest h),
)

backoff_raises :
    (interval : Millis) (r : TokenRefresh) (now : Millis)
    → r.failure_count ≤ 10
    → (attempt interval r (Attempt.failed now)).failure_count ≡ min (r.failure_count + 1) 10
unfolding attempt backoff
backoff_raises interval r now h = omega arith

-- After `k` failures in a row a record with at most 10 failures has `k` more, and 10 at most.
pub failures_raise :
    (interval : Millis) (r : TokenRefresh) (l : List Millis)
    → r.failure_count ≤ 10
    → (attempts interval r (map Attempt.failed l)).failure_count
      ≡ min (r.failure_count + length l) 10
unfolding attempts
failures_raise interval r [] h = omega arith
failures_raise interval r (now ∷ rest) h = omega (
  arith,
  failures_raise interval (attempt interval r (Attempt.failed now)) rest
      (attempt_capped interval r (Attempt.failed now) h),
  backoff_raises interval r now h,
)
