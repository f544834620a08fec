-- ===== src/Retry.antt =====
-- supabase/functions/_shared/integrationRetryContract.ts: the retry loop around an integration call.
-- The clock, the operation and the retry classifier are the environment; times are whole numbers of
-- a unit so fine that every finite reading, budget and delay of the run is a multiple of it.
pub mod Attempts
pub mod Awake
pub mod Course
pub mod Loop
pub mod Budget
pub mod Retries
mod Tests
use oasis_supabase_core.Prelude.{
  ℕ, zero, suc, ◌+◌, ◌-◌, Bool, true, false, ◌&&◌, ◌||◌, not, Option, none, some, List, [], ◌∷◌,
  map, Text, codes, leb, ltb, ◌==◌, if◌then◌else◌, any, last?, get_elem?,
}
use oasis_supabase_core.Prelude.Int.{ℤ, pos, negsuc}

pub data Disposition : Type 0 where
  retryable permanent : Disposition

pub record IntegrationError : Type 0 where
  pub code : Text
  pub disposition : Disposition

-- What a promise can reject with: an `IntegrationError`, another `Error`, or any other value.
pub data Thrown : Type 0 where
  integration : IntegrationError → Thrown
  error : Text → Thrown
  non_error : Text → Thrown

unfoldable pub is_transient_http_status : ℕ → Bool
is_transient_http_status status =
    status == 408 || status == 429 || (leb 500 status && leb status 599)

unfoldable pub classify_http_status : ℕ → Disposition
unfolding is_transient_http_status
classify_http_status status = if is_transient_http_status status then retryable else permanent

unfoldable pub is_retryable_integration_error : Thrown → Bool
is_retryable_integration_error (integration e) = elim e.disposition [
  | retryable ↦ true
  | permanent ↦ false
]
is_retryable_integration_error (error _) = false
is_retryable_integration_error (non_error _) = false

-- `maxAttempts` as validation sees a JavaScript number.
pub data Count : Type 0 where
  whole : ℤ → Count
  fractional : Count
  not_finite : Count

-- A number of milliseconds, in units.
pub data Millis : Type 0 where
  units : ℤ → Millis
  unbounded : Millis

pub record BoundedRetryPolicy : Type 0 where
  pub max_attempts : Count
  pub retry_delays_ms : List Millis
  pub total_budget_ms : Option Millis

abbrev pub permanent_error : Text → Thrown
permanent_error c = integration (record { code = c; disposition = permanent })

abbrev pub budget_exceeded : Thrown
budget_exceeded = permanent_error (codes "INTEGRATION_RETRY_BUDGET_EXCEEDED")

abbrev pub policy_invalid : Thrown
policy_invalid = permanent_error (codes "RETRY_POLICY_INVALID")

abbrev pub permanent_failure : Thrown
permanent_failure = permanent_error (codes "INTEGRATION_PERMANENT_FAILURE")

abbrev pub retry_exhausted : Thrown
retry_exhausted = permanent_error (codes "INTEGRATION_RETRY_EXHAUSTED")

bad_count : Count → Bool
bad_count (whole (pos n)) = ltb n 1
bad_count (whole (negsuc _)) = true
bad_count fractional = true
bad_count not_finite = true

bad_budget : Option Millis → Bool
bad_budget none = false
bad_budget (some (units (pos n))) = leb n 0
bad_budget (some (units (negsuc _))) = true
bad_budget (some unbounded) = true

bad_delay : Millis → Bool
bad_delay (units (pos _)) = false
bad_delay (units (negsuc _)) = true
bad_delay unbounded = true

-- `validatePolicy`: whether it throws. Its three throws are the same error.
unfoldable pub rejects_policy : BoundedRetryPolicy → Bool
unfolding bad_count bad_budget bad_delay
rejects_policy p =
    bad_count p.max_attempts || bad_budget p.total_budget_ms || any bad_delay p.retry_delays_ms

abbrev pub count_value : Count → ℕ
count_value (whole (pos n)) = n
count_value _ = 0

abbrev pub millis_value : Millis → ℕ
millis_value (units (pos n)) = n
millis_value _ = 0

-- How the promise that an attempt awaits ends. `timed_out`: the operation settles in no time that
-- the attempt waits for.
pub data Settled {ℓ} (A : Type ℓ) : Type ℓ where
  fulfilled : A → Settled A
  rejected : Thrown → Settled A
  timed_out : Settled A

-- How the promise of a sleep ends, if it ends.
pub data Sleep : Type 0 where
  over : Sleep
  broken : Thrown → Sleep
  endless : Sleep

-- `now i` is what the i-th call of `now` returns, `operation` takes the attempt and the remaining
-- budget, and `sleep` the attempt that it follows and its length.
pub record Env {ℓ} (A : Type ℓ) : Type ℓ where
  pub now : ℕ → ℕ
  pub operation : ℕ → Option ℕ → Settled A
  pub sleep : ℕ → ℕ → Sleep
  pub is_retryable : Thrown → Bool

-- `pending`: the promise that the caller awaits never settles.
pub data Outcome {ℓ} (A : Type ℓ) : Type ℓ where
  returned : A → Outcome A
  threw : Thrown → Outcome A
  pending : Outcome A

-- A call of the operation, with its attempt and the clock reading before it when there is a budget,
-- and a sleep with its length and the reading before it when there is a budget.
pub data Event : Type 0 where
  called : ℕ → Option ℕ → Event
  slept : ℕ → Option ℕ → Event

pub record Run {ℓ} (A : Type ℓ) : Type ℓ where
  pub outcome : Outcome A
  pub events : List Event

-- `error instanceof Error ? error : fallback`
unfoldable pub error_or : Thrown → Thrown → Thrown
error_or (integration e) fallback = integration e
error_or (error m) fallback = error m
error_or (non_error _) fallback = fallback

unfoldable pub option_or {ℓ} : {A : Type ℓ} → Option A → A → A
option_or none d = d
option_or (some a) d = a

-- `retryDelaysMs[attempt] ?? retryDelaysMs[length - 1] ?? 0`
unfoldable pub delay_at : List ℕ → ℕ → ℕ
unfolding option_or
delay_at delays attempt = option_or (get_elem? delays attempt) (option_or (last? delays) 0)

-- the error when the budget is spent before an attempt
unfoldable pub budget_error : Option Thrown → Thrown
budget_error (some (integration e)) = integration e
budget_error (some (error _)) = budget_exceeded
budget_error (some (non_error _)) = budget_exceeded
budget_error none = budget_exceeded

-- the `throw` after the loop
unfoldable pub final_error : Option Thrown → Thrown
unfolding error_or
final_error (some e) = error_or e retry_exhausted
final_error none = retry_exhausted

module _ {ℓ} {A : Type ℓ} where
  unfoldable pub stop : Outcome A → Run A
  stop o = record { outcome = o; events = [] }

  unfoldable pub log : Event → Run A → Run A
  log e r = record { outcome = r.outcome; events = e ∷ r.events }

  -- what follows `await sleep(…)`, where the last argument is what follows a sleep that ends
  unfoldable pub awake : Sleep → Run A → Run A
  unfolding stop
  awake over r = r
  awake (broken e) r = stop (threw e)
  awake endless r = stop pending

module _ {ℓ} {A : Type ℓ} (env : Env A) (max_attempts : ℕ) (delays : List ℕ) where
  -- `if (delayMs > 0) await sleep(delayMs)`
  unfoldable pub pause : ℕ → ℕ → Option ℕ → Run A → Run A
  unfolding log awake
  pause attempt delay at r =
      if ltb 0 delay then log (slept delay at) (awake (env.sleep attempt delay) r) else r

  -- The end of the `catch` block: the delay before the next attempt. `again` is the rest of the loop,
  -- from the number of clock readings so far.
  unfoldable pub retry_after : Option ℕ → (ℕ → Thrown → Run A) → ℕ → ℕ → Thrown → Run A
  unfolding stop error_or pause delay_at
  retry_after none again attempt reads e =
      pause attempt (delay_at delays attempt) none (again reads e)
  retry_after (some d) again attempt reads e =
      if leb d (env.now reads + delay_at delays attempt)
      then stop (threw (error_or e budget_exceeded))
      else pause attempt (delay_at delays attempt) (some (env.now reads)) (again (suc reads) e)

  -- the `catch` block
  unfoldable pub on_failure : Option ℕ → (ℕ → Thrown → Run A) → ℕ → ℕ → Thrown → Run A
  unfolding stop error_or retry_after
  on_failure deadline again attempt reads e =
      if not (env.is_retryable e)
      then stop (threw (error_or e permanent_failure))
      else if leb (max_attempts - 1) attempt
      then stop (threw (error_or e retry_exhausted))
      else retry_after deadline again attempt reads e

  -- an attempt with no budget
  unfoldable pub settle : (ℕ → Thrown → Run A) → ℕ → ℕ → Settled A → Run A
  unfolding stop on_failure
  settle again attempt reads (fulfilled v) = stop (returned v)
  settle again attempt reads (rejected e) = on_failure none again attempt reads e
  settle again attempt reads timed_out = stop pending

  -- an attempt raced against the timer
  unfoldable pub settle_by : ℕ → (ℕ → Thrown → Run A) → ℕ → ℕ → Settled A → Run A
  unfolding stop on_failure
  settle_by d again attempt reads (fulfilled v) =
      if leb d (env.now reads)
      then on_failure (some d) again attempt (suc reads) budget_exceeded
      else stop (returned v)
  settle_by d again attempt reads (rejected e) = on_failure (some d) again attempt reads e
  settle_by d again attempt reads timed_out =
      on_failure (some d) again attempt reads budget_exceeded

  -- the body of the `for` loop
  unfoldable pub round : Option ℕ → (ℕ → Thrown → Run A) → ℕ → ℕ → Option Thrown → Run A
  unfolding log stop settle settle_by budget_error
  round none again attempt reads last =
      log (called attempt none) (settle again attempt reads (env.operation attempt none))
  round (some d) again attempt reads last =
      if leb d (env.now reads)
      then stop (threw (budget_error last))
      else log (called attempt (some (env.now reads)))
          (settle_by d again attempt (suc reads) (env.operation attempt (some (d - env.now reads))))

  -- The `for` loop from `attempt`, with the attempts that are left.
  unfoldable pub attempts : Option ℕ → ℕ → ℕ → ℕ → Option Thrown → Run A
  unfolding round stop final_error
  attempts deadline zero attempt reads last = stop (threw (final_error last))
  attempts deadline (suc left) attempt reads last =
      round deadline (λ reads' e. attempts deadline left (suc attempt) reads' (some e)) attempt
        reads last

-- the absolute deadline, from the first reading of the clock
abbrev pub deadline_of : ℕ → Option Millis → Option ℕ
deadline_of started none = none
deadline_of started (some b) = some (started + millis_value b)

unfoldable pub execute_with_bounded_retry {ℓ} : {A : Type ℓ} → Env A → BoundedRetryPolicy → Run A
unfolding rejects_policy stop attempts
execute_with_bounded_retry env p =
    if rejects_policy p
    then stop (threw policy_invalid)
    else attempts env (count_value p.max_attempts) (map millis_value p.retry_delays_ms)
        (deadline_of (env.now 0) p.total_budget_ms) (count_value p.max_attempts) 0 1 none
