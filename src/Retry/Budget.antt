-- ===== src/Retry/Budget.antt =====
-- When the retry loop of integrationRetryContract.ts calls and sleeps.
use oasis_supabase_core.Prelude.{
  ℕ, zero, suc, ◌+◌, ◌-◌, ◌<◌, Option, none, some, List, arith, leb, map, inl, inr, Bool-cases, All,
}
use oasis_supabase_core.Retry.Awake.{pause_events}
use oasis_supabase_core.Retry.{
  Thrown, Env, Settled, fulfilled, rejected, timed_out, Run, Event, called, slept,
  BoundedRetryPolicy, count_value, millis_value, deadline_of, stop, log, on_failure, settle,
  settle_by, round, attempts, execute_with_bounded_retry, budget_exceeded, retry_after, delay_at,
  rejects_policy,
}

-- With a budget, each call starts and each sleep ends before the deadline; sleeps are not empty.
abbrev pub InBudget : Option ℕ → Event → Type 0
InBudget (some d) (called a (some t)) = t < d
InBudget (some d) (slept n (some t)) = (0 < n) × (t + n < d)
InBudget (some d) _ = ⊥
InBudget none (called a t) = Unit
InBudget none (slept n t) = 0 < n

module _ {ℓ} {A : Type ℓ} (env : Env A) (limit : ℕ) (delays : List ℕ) where
  abbrev AllInBudget : Option ℕ → Run A → Type 0
  AllInBudget deadline r = All (InBudget deadline) r.events

  retry_after-InBudget :
      (deadline : Option ℕ) (again : ℕ → Thrown → Run A) (a reads : ℕ) (e : Thrown)
      → ((r : ℕ) (x : Thrown) → AllInBudget deadline (again r x))
      → AllInBudget deadline (retry_after env limit delays deadline again a reads e)
  unfolding retry_after stop
  retry_after-InBudget none again a reads e h =
      pause_events (All (InBudget none)) env limit delays a (delay_at delays a) none (again reads e)
        tt (λ es some_time rest. (ground arith, rest)) (h reads e)
  retry_after-InBudget (some d) again a reads e h =
      elim (Bool-cases (leb d (env.now reads + delay_at delays a))) [
        | inl p ↦ rw p tt
        | inr p ↦ rw p (
            pause_events (All (InBudget (some d))) env limit delays a (delay_at delays a)
              (some (env.now reads)) (again (suc reads) e) tt
              (λ es some_time rest. ((ground arith, ground arith), rest)) (h (suc reads) e))
      ]

  on_failure-InBudget :
      (deadline : Option ℕ) (again : ℕ → Thrown → Run A) (a reads : ℕ) (e : Thrown)
      → ((r : ℕ) (x : Thrown) → AllInBudget deadline (again r x))
      → AllInBudget deadline (on_failure env limit delays deadline again a reads e)
  unfolding on_failure stop
  on_failure-InBudget deadline again a reads e h = elim (Bool-cases (env.is_retryable e)) [
    | inr p ↦ rw p tt
    | inl p ↦ rw p (elim (Bool-cases (leb (limit - 1) a)) [
      | inl q ↦ rw q tt
      | inr q ↦ rw q (retry_after-InBudget deadline again a reads e h)
    ])
  ]

  settle-InBudget :
      (again : ℕ → Thrown → Run A) (a reads : ℕ) (s : Settled A)
      → ((r : ℕ) (x : Thrown) → AllInBudget none (again r x))
      → AllInBudget none (settle env limit delays again a reads s)
  unfolding settle stop
  settle-InBudget again a reads (rejected e) h = on_failure-InBudget none again a reads e h
  settle-InBudget again a reads _ h = tt

  settle_by-InBudget :
      (d : ℕ) (again : ℕ → Thrown → Run A) (a reads : ℕ) (s : Settled A)
      → ((r : ℕ) (x : Thrown) → AllInBudget (some d) (again r x))
      → AllInBudget (some d) (settle_by env limit delays d again a reads s)
  unfolding settle_by stop
  settle_by-InBudget d again a reads (fulfilled v) h = elim (Bool-cases (leb d (env.now reads))) [
    | inl p ↦ rw p (on_failure-InBudget (some d) again a (suc reads) budget_exceeded h)
    | inr p ↦ rw p tt
  ]
  settle_by-InBudget d again a reads (rejected e) h = on_failure-InBudget (some d) again a reads e h
  settle_by-InBudget d again a reads timed_out h =
      on_failure-InBudget (some d) again a reads budget_exceeded h

  round-InBudget :
      (deadline : Option ℕ) (again : ℕ → Thrown → Run A) (a reads : ℕ) (last : Option Thrown)
      → ((r : ℕ) (x : Thrown) → AllInBudget deadline (again r x))
      → AllInBudget deadline (round env limit delays deadline again a reads last)
  unfolding round log stop
  round-InBudget none again a reads last h =
      (tt, settle-InBudget again a reads (env.operation a none) h)
  round-InBudget (some d) again a reads last h = elim (Bool-cases (leb d (env.now reads))) [
    | inl p ↦ rw p tt
    | inr p ↦ rw p (
      ground arith,
      settle_by-InBudget d again a (suc reads) (env.operation a (some (d - env.now reads))) h,
    )
  ]

  attempts-InBudget :
      (deadline : Option ℕ) (left a reads : ℕ) (last : Option Thrown)
      → AllInBudget deadline (attempts env limit delays deadline left a reads last)
  unfolding attempts stop
  attempts-InBudget deadline zero a reads last = tt
  attempts-InBudget deadline (suc left) a reads last =
      round-InBudget deadline (λ r e. attempts env limit delays deadline left (suc a) r (some e)) a
        reads last (λ r x. attempts-InBudget deadline left (suc a) r (some x))

-- Under a total budget, every call of the operation starts before the deadline by the clock reading
-- taken just before it, and every sleep, started at its own reading, would end before the deadline;
-- with or without a budget, no sleep of length 0 is made.
pub execute-InBudget {ℓ} :
    {A : Type ℓ} (env : Env A) (p : BoundedRetryPolicy)
    → All
        (InBudget (deadline_of (env.now 0) p.total_budget_ms))
        (execute_with_bounded_retry env p).events
unfolding execute_with_bounded_retry stop
execute-InBudget env p = elim (Bool-cases (rejects_policy p)) [
  | inl bad ↦ rw bad tt
  | inr good ↦ rw good (
      attempts-InBudget env (count_value p.max_attempts) (map millis_value p.retry_delays_ms)
        (deadline_of (env.now 0) p.total_budget_ms) (count_value p.max_attempts) 0 1 none)
]
