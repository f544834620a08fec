-- ===== src/Retry/Attempts.antt =====
-- Which attempts the retry loop of integrationRetryContract.ts makes.
use oasis_supabase_core.Prelude.{
  ℕ, zero, suc, ◌+◌, ◌-◌, leb, inl, inr, Bool-cases, ◌≤◌, ◌≡◌, refl, Option, none, some, List, [],
  ◌∷◌, arith, length, map,
}
use oasis_supabase_core.Retry.Awake.{pause_events}
use oasis_supabase_core.Retry.{
  Thrown, Env, Settled, fulfilled, rejected, timed_out, Run, Event, called, slept,
  BoundedRetryPolicy, count_value, millis_value, deadline_of, stop, log, on_failure, settle,
  settle_by, round, attempts, execute_with_bounded_retry, budget_exceeded, retry_after, delay_at,
}

-- the attempts that an event list calls, in order
abbrev pub calls : List Event → List ℕ
calls [] = []
calls (called a _ ∷ es) = a ∷ calls es
calls (slept _ _ ∷ es) = calls es

-- `a, a + 1, …`, n of them
abbrev pub range_from : ℕ → ℕ → List ℕ
range_from a zero = []
range_from a (suc n) = a ∷ range_from (suc a) n

abbrev CountsEvents : ℕ → ℕ → List Event → Type 0
CountsEvents a n es = (calls es ≡ range_from a (length (calls es))) × (length (calls es) ≤ n)

abbrev Counts {ℓ} : {A : Type ℓ} → ℕ → ℕ → Run A → Type 0
Counts a n r = CountsEvents a n r.events

module _ {ℓ} {A : Type ℓ} (env : Env A) (limit : ℕ) (delays : List ℕ) where
  retry_after-Counts :
      (deadline : Option ℕ) (again : ℕ → Thrown → Run A) (a n reads : ℕ) (e : Thrown)
      → ((r : ℕ) (x : Thrown) → Counts (suc a) n (again r x))
      → Counts (suc a) n (retry_after env limit delays deadline again a reads e)
  unfolding retry_after stop
  retry_after-Counts none again a n reads e h =
      pause_events (CountsEvents (suc a) n) env limit delays a (delay_at delays a) none
        (again reads e) (refl, omega arith) (λ es some_time rest. rest) (h reads e)
  retry_after-Counts (some d) again a n reads e h =
      elim (Bool-cases (leb d (env.now reads + delay_at delays a))) [
        | inl p ↦ rw p (refl, omega arith)
        | inr p ↦ rw p (
            pause_events (CountsEvents (suc a) n) env limit delays a (delay_at delays a)
              (some (env.now reads)) (again (suc reads) e) (refl, omega arith)
              (λ es some_time rest. rest) (h (suc reads) e))
      ]

  on_failure-Counts :
      (deadline : Option ℕ) (again : ℕ → Thrown → Run A) (a n reads : ℕ) (e : Thrown)
      → ((r : ℕ) (x : Thrown) → Counts (suc a) n (again r x))
      → Counts (suc a) n (on_failure env limit delays deadline again a reads e)
  unfolding on_failure stop
  on_failure-Counts deadline again a n reads e h = elim (Bool-cases (env.is_retryable e)) [
    | inr p ↦ rw p (refl, omega arith)
    | inl p ↦ rw p (elim (Bool-cases (leb (limit - 1) a)) [
      | inl q ↦ rw q (refl, omega arith)
      | inr q ↦ rw q (retry_after-Counts deadline again a n reads e h)
    ])
  ]

  settle-Counts :
      (again : ℕ → Thrown → Run A) (a n reads : ℕ) (s : Settled A)
      → ((r : ℕ) (x : Thrown) → Counts (suc a) n (again r x))
      → Counts (suc a) n (settle env limit delays again a reads s)
  unfolding settle stop
  settle-Counts again a n reads (rejected e) h = on_failure-Counts none again a n reads e h
  settle-Counts again a n reads _ h = (refl, omega arith)

  settle_by-Counts :
      (d : ℕ) (again : ℕ → Thrown → Run A) (a n reads : ℕ) (s : Settled A)
      → ((r : ℕ) (x : Thrown) → Counts (suc a) n (again r x))
      → Counts (suc a) n (settle_by env limit delays d again a reads s)
  unfolding settle_by stop
  settle_by-Counts d again a n reads (fulfilled v) h =
      ground (arith, on_failure-Counts (some d) again a n (suc reads) budget_exceeded h)
  settle_by-Counts d again a n reads (rejected e) h = on_failure-Counts (some d) again a n reads e h
  settle_by-Counts d again a n reads timed_out h =
      on_failure-Counts (some d) again a n reads budget_exceeded h

  round-Counts :
      (deadline : Option ℕ) (again : ℕ → Thrown → Run A) (a n reads : ℕ) (last : Option Thrown)
      → ((r : ℕ) (x : Thrown) → Counts (suc a) n (again r x))
      → Counts a (suc n) (round env limit delays deadline again a reads last)
  unfolding round log stop
  round-Counts none again a n reads last h =
      ground (arith, settle-Counts again a n reads (env.operation a none) h)
  round-Counts (some d) again a n reads last h = ground (
    arith,
    settle_by-Counts d again a n (suc reads) (env.operation a (some (d - env.now reads))) h,
  )

  attempts-Counts :
      (deadline : Option ℕ) (left a reads : ℕ) (last : Option Thrown)
      → Counts a left (attempts env limit delays deadline left a reads last)
  unfolding attempts stop
  attempts-Counts deadline zero a reads last = (refl, omega arith)
  attempts-Counts deadline (suc left) a reads last =
      round-Counts deadline _ a left reads last
        (λ r x. attempts-Counts deadline left (suc a) r (some x))

-- The attempts called are 0, 1, 2, … in order, with no attempt repeated or skipped, and there are at
-- most `maxAttempts` of them.
pub execute-calls {ℓ} :
    {A : Type ℓ} (env : Env A) (p : BoundedRetryPolicy)
    → let tried = calls (execute_with_bounded_retry env p).events in
      (tried ≡ range_from 0 (length tried)) × (length tried ≤ count_value p.max_attempts)
unfolding execute_with_bounded_retry stop
execute-calls env p = ground (
  arith,
  attempts-Counts env (count_value p.max_attempts) (map millis_value p.retry_delays_ms)
      (deadline_of (env.now 0) p.total_budget_ms) (count_value p.max_attempts) 0 1 none,
)
