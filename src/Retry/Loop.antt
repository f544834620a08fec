-- ===== src/Retry/Loop.antt =====
-- That a run of the retry loop takes its course.
use oasis_supabase_core.Prelude.{
  ℕ, zero, suc, ◌+◌, ◌-◌, ◌<◌, ◌≡◌, refl, true, false, Option, none, some, List, [], ◌∷◌, arith,
  leb, ltb, map, inl, inr, Bool-cases,
}
use oasis_supabase_core.Retry.{
  Thrown, Env, Settled, fulfilled, rejected, timed_out, Sleep, over, broken, endless, Run, called,
  slept, threw, BoundedRetryPolicy, count_value, millis_value, deadline_of, stop, log, awake, pause,
  on_failure, retry_after, settle, settle_by, round, attempts, rejects_policy,
  execute_with_bounded_retry, budget_exceeded, policy_invalid, delay_at,
}
use oasis_supabase_core.Retry.Course.{
  readings, FailsWith, FailsRetryable, spent, succeeded, hung, permanent, exhausted, no_time, again,
  rested, disturbed, asleep, IsCourse,
}

module _ {ℓ} {A : Type ℓ} (env : Env A) (deadline : Option ℕ) (limit : ℕ) (delays : List ℕ) where
  -- the rest of the loop, which is only entered below the limit
  abbrev Goes : ℕ → (ℕ → Thrown → Run A) → Type ℓ
  Goes a next =
      (r : ℕ) (x : Thrown)
      → suc a < limit
      → IsCourse env deadline limit delays (suc a) r (some x) (next r x).events (next r x).outcome

  module _ (a reads : ℕ) (last : Option Thrown) (t : Option ℕ) where
    -- the events after the call of the attempt
    abbrev IsRest : Run A → Type ℓ
    IsRest r = IsCourse env deadline limit delays a reads last (called a t ∷ r.events) r.outcome

    awake-Rest :
        (x : Thrown) (after n : ℕ) (at : Option ℕ) (s : Sleep) (r : Run A)
        → FailsRetryable env deadline a reads t x after
        → suc a < limit
        → env.sleep a (delay_at delays a) ≡ s
        → n ≡ readings deadline after
        → IsCourse env deadline limit delays (suc a) n (some x) r.events r.outcome
        → IsRest (log (slept (delay_at delays a) at) (awake s r))
    unfolding log awake stop
    awake-Rest x after n at over r f below e count c = rested x after n f below e count c
    awake-Rest x after n at (broken y) r f below e count c = disturbed x after f below e
    awake-Rest x after n at endless r f below e count c = asleep x after f below e

    pause-Rest :
        (x : Thrown) (after n : ℕ) (at : Option ℕ) (r : Run A)
        → FailsRetryable env deadline a reads t x after
        → suc a < limit
        → n ≡ readings deadline after
        → IsCourse env deadline limit delays (suc a) n (some x) r.events r.outcome
        → IsRest (pause env limit delays a (delay_at delays a) at r)
    unfolding pause
    pause-Rest x after n at r f below count c = elim (Bool-cases (ltb 0 (delay_at delays a))) [
      | inl p ↦ rw p (awake-Rest x after n at _ r f below refl count c)
      | inr p ↦ rw p (again x after n f below (ground arith) count c)
    ]

    retry_after-Rest :
        (o : Option ℕ) (next : ℕ → Thrown → Run A) (after : ℕ) (x : Thrown)
        → deadline ≡ o
        → FailsRetryable env deadline a reads t x after
        → suc a < limit
        → Goes a next
        → IsRest (retry_after env limit delays o next a after x)
    unfolding retry_after stop
    retry_after-Rest none next after x e f below goes =
        pause-Rest x after after none (next after x) f below (rw e refl) (goes after x below)
    retry_after-Rest (some d) next after x e f below goes =
        elim (Bool-cases (leb d (env.now after + delay_at delays a))) [
          | inl p ↦ rw p (no_time x after d f e (ground arith))
          | inr p ↦ rw p (
              pause-Rest x after (suc after) (some (env.now after)) (next (suc after) x) f below
                (rw e refl) (goes (suc after) x below))
        ]

    on_failure-Rest :
        (o : Option ℕ) (next : ℕ → Thrown → Run A) (after : ℕ) (x : Thrown)
        → deadline ≡ o
        → FailsWith env deadline a reads t x after
        → a < limit
        → Goes a next
        → IsRest (on_failure env limit delays o next a after x)
    unfolding on_failure stop
    on_failure-Rest o next after x e f within goes = elim (Bool-cases (env.is_retryable x)) [
      | inr p ↦ rw p (permanent x after f p)
      | inl p ↦ rw p (elim (Bool-cases (leb (limit - 1) a)) [
        | inl q ↦ rw q (exhausted x after (f, p) (ground arith))
        | inr q ↦ rw q (retry_after-Rest o next after x e (f, p) (ground arith) goes)
      ])
    ]

  settle-Rest :
      (next : ℕ → Thrown → Run A) (a reads : ℕ) (last : Option Thrown) (s : Settled A)
      → deadline ≡ none
      → env.operation a none ≡ s
      → a < limit
      → Goes a next
      → IsRest a reads last none (settle env limit delays next a reads s)
  unfolding settle stop
  settle-Rest next a reads last (fulfilled v) e o within goes = succeeded (e, o)
  settle-Rest next a reads last (rejected x) e o within goes =
      on_failure-Rest a reads last none none next reads x e (e, o, refl) within goes
  settle-Rest next a reads last timed_out e o within goes = hung e o

  settle_by-Rest :
      (d : ℕ) (next : ℕ → Thrown → Run A) (a j : ℕ) (last : Option Thrown) (s : Settled A)
      → deadline ≡ some d
      → env.operation a (some (d - env.now j)) ≡ s
      → a < limit
      → Goes a next
      → IsRest a j last (some (env.now j)) (settle_by env limit delays d next a (suc j) s)
  unfolding settle_by stop
  settle_by-Rest d next a j last (fulfilled v) e o within goes =
      elim (Bool-cases (leb d (env.now (suc j)))) [
        | inl p ↦ rw p (
            on_failure-Rest a j last (some (env.now j)) (some d) next (suc (suc j)) budget_exceeded
              e (d, e, refl, inr (refl, inr (v, o, ground arith, refl))) within goes)
        | inr p ↦ rw p (succeeded (d, e, refl, ground arith, o))
      ]
  settle_by-Rest d next a j last (rejected x) e o within goes =
      on_failure-Rest a j last (some (env.now j)) (some d) next (suc j) x e
        (d, e, refl, inl (o, refl)) within goes
  settle_by-Rest d next a j last timed_out e o within goes =
      on_failure-Rest a j last (some (env.now j)) (some d) next (suc j) budget_exceeded e
        (d, e, refl, inr (refl, inl (o, refl))) within goes

  round-IsCourse :
      (o : Option ℕ) (next : ℕ → Thrown → Run A) (a reads : ℕ) (last : Option Thrown)
      → deadline ≡ o
      → a < limit
      → Goes a next
      → IsCourse env deadline limit delays a reads last
          (round env limit delays o next a reads last).events
          (round env limit delays o next a reads last).outcome
  unfolding round log stop
  round-IsCourse none next a reads last e within goes =
      settle-Rest next a reads last (env.operation a none) e refl within goes
  round-IsCourse (some d) next a reads last e within goes =
      elim (Bool-cases (leb d (env.now reads))) [
        | inl p ↦ rw p (spent d e (ground arith))
        | inr p ↦ rw p (settle_by-Rest d next a reads last _ e refl within goes)
      ]

  attempts-IsCourse :
      (left a reads : ℕ) (last : Option Thrown)
      → a + left ≡ limit
      → 0 < left
      → IsCourse env deadline limit delays a reads last
          (attempts env limit delays deadline left a reads last).events
          (attempts env limit delays deadline left a reads last).outcome
  unfolding attempts
  attempts-IsCourse zero a reads last sum some_left = absurd (omega arith)
  attempts-IsCourse (suc left) a reads last sum some_left =
      round-IsCourse deadline _ a reads last refl (omega arith)
        (λ r x below. attempts-IsCourse left (suc a) r (some x) (omega arith) (omega arith))

count_pos : (p : BoundedRetryPolicy) → rejects_policy p ≡ false → 0 < count_value p.max_attempts
unfolding rejects_policy
count_pos p valid = ground arith

pub execute-IsCourse {ℓ} :
    {A : Type ℓ} (env : Env A) (p : BoundedRetryPolicy)
    → rejects_policy p ≡ false
    → IsCourse env
        (deadline_of (env.now 0) p.total_budget_ms)
        (count_value p.max_attempts)
        (map millis_value p.retry_delays_ms)
        0
        1
        none
        (execute_with_bounded_retry env p).events
        (execute_with_bounded_retry env p).outcome
unfolding execute_with_bounded_retry
execute-IsCourse env p valid = rw valid (
    attempts-IsCourse env _ (count_value p.max_attempts) _ (count_value p.max_attempts) 0 1 none
      (omega arith) (count_pos p valid))

-- A policy that fails validation throws `RETRY_POLICY_INVALID`, and no operation is called.
pub execute_invalid {ℓ} :
    {A : Type ℓ} (env : Env A) (p : BoundedRetryPolicy)
    → rejects_policy p ≡ true
    → execute_with_bounded_retry env p ≡ record { outcome = threw policy_invalid; events = [] }
unfolding execute_with_bounded_retry stop
execute_invalid env p invalid = rw invalid
