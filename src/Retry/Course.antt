-- ===== src/Retry/Course.antt =====
-- The course of a run of the retry loop of integrationRetryContract.ts.
use oasis_supabase_core.Prelude.{
  ℕ, suc, ◌+◌, ◌-◌, ◌<◌, ◌≤◌, ◌≡◌, true, false, Option, none, some, List, [], ◌∷◌, ◌⊎◌,
}
use oasis_supabase_core.Retry.{
  Thrown, Env, fulfilled, rejected, timed_out, over, broken, endless, Event, called, slept, Outcome,
  returned, threw, pending, error_or, budget_error, budget_exceeded, permanent_failure,
  retry_exhausted, delay_at,
}

-- the clock readings made before the next attempt; under a budget one is made for the delay
abbrev pub readings : Option ℕ → ℕ → ℕ
readings none after = after
readings (some d) after = suc after

-- `reads` is the number of clock readings before the attempt, `after` the number when it has failed.
module _ {ℓ} {A : Type ℓ} (env : Env A) (deadline : Option ℕ) where
  -- The attempt was fulfilled, under a budget before the deadline by the reading that follows it.
  abbrev pub Returns : ℕ → ℕ → Option ℕ → A → Type ℓ
  Returns a reads none v = (deadline ≡ none) × (env.operation a none ≡ fulfilled v)
  Returns a reads (some t) v =
      (d : ℕ) × (deadline ≡ some d)
      × (t ≡ env.now reads)
      × (env.now (suc reads) < d)
      × (env.operation a (some (d - t)) ≡ fulfilled v)

  -- How an attempt under a budget runs out of time: it does not settle, or the reading that follows it
  -- is at the deadline.
  abbrev pub RunsOut : ℕ → ℕ → ℕ → ℕ → ℕ → Type ℓ
  RunsOut a reads t d after =
      ((env.operation a (some (d - t)) ≡ timed_out) × (after ≡ suc reads))
      ⊎ ((v : A) × (env.operation a (some (d - t)) ≡ fulfilled v)
          × (d ≤ env.now (suc reads))
          × (after ≡ suc (suc reads)))

  -- The attempt fails with this error.
  abbrev pub FailsWith : ℕ → ℕ → Option ℕ → Thrown → ℕ → Type ℓ
  FailsWith a reads none x after =
      (deadline ≡ none) × (env.operation a none ≡ rejected x) × (after ≡ reads)
  FailsWith a reads (some t) x after =
      (d : ℕ) × (deadline ≡ some d)
      × (t ≡ env.now reads)
      × (((env.operation a (some (d - t)) ≡ rejected x) × (after ≡ suc reads))
          ⊎ ((x ≡ budget_exceeded) × RunsOut a reads t d after))

  abbrev pub FailsRetryable : ℕ → ℕ → Option ℕ → Thrown → ℕ → Type ℓ
  FailsRetryable a reads t x after = FailsWith a reads t x after × (env.is_retryable x ≡ true)

  -- The events from an attempt on and how they end, after the error of the attempt before it.
  pub data Course (limit : ℕ) (delays : List ℕ)
      : ℕ → ℕ → Option Thrown → List Event → Outcome A → Type ℓ where
    spent :
        {a reads : ℕ} {last : Option Thrown} (d : ℕ)
        → deadline ≡ some d
        → d ≤ env.now reads
        → Course limit delays a reads last [] (threw (budget_error last))
    succeeded :
        {a reads : ℕ} {last : Option Thrown} {t : Option ℕ} {v : A}
        → Returns a reads t v
        → Course limit delays a reads last (called a t ∷ []) (returned v)
    hung :
        {a reads : ℕ} {last : Option Thrown}
        → deadline ≡ none
        → env.operation a none ≡ timed_out
        → Course limit delays a reads last (called a none ∷ []) pending
    permanent :
        {a reads : ℕ} {last : Option Thrown} {t : Option ℕ} (x : Thrown) (after : ℕ)
        → FailsWith a reads t x after
        → env.is_retryable x ≡ false
        → Course limit delays a reads last (called a t ∷ []) (threw (error_or x permanent_failure))
    exhausted :
        {a reads : ℕ} {last : Option Thrown} {t : Option ℕ} (x : Thrown) (after : ℕ)
        → FailsRetryable a reads t x after
        → limit ≡ suc a
        → Course limit delays a reads last (called a t ∷ []) (threw (error_or x retry_exhausted))
    no_time :
        {a reads : ℕ} {last : Option Thrown} {t : Option ℕ} (x : Thrown) (after d : ℕ)
        → FailsRetryable a reads t x after
        → deadline ≡ some d
        → d ≤ env.now after + delay_at delays a
        → Course limit delays a reads last (called a t ∷ []) (threw (error_or x budget_exceeded))
    again :
        {a reads : ℕ} {last : Option Thrown} {t : Option ℕ} {es : List Event} {o : Outcome A}
        (x : Thrown) (after r : ℕ)
        → FailsRetryable a reads t x after
        → suc a < limit
        → delay_at delays a ≡ 0
        → r ≡ readings deadline after
        → Course limit delays (suc a) r (some x) es o
        → Course limit delays a reads last (called a t ∷ es) o
    rested :
        {a reads : ℕ} {last : Option Thrown} {t at : Option ℕ} {es : List Event} {o : Outcome A}
        (x : Thrown) (after r : ℕ)
        → FailsRetryable a reads t x after
        → suc a < limit
        → env.sleep a (delay_at delays a) ≡ over
        → r ≡ readings deadline after
        → Course limit delays (suc a) r (some x) es o
        → Course limit delays a reads last (called a t ∷ slept (delay_at delays a) at ∷ es) o
    disturbed :
        {a reads : ℕ} {last : Option Thrown} {t at : Option ℕ} {e : Thrown} (x : Thrown) (after : ℕ)
        → FailsRetryable a reads t x after
        → suc a < limit
        → env.sleep a (delay_at delays a) ≡ broken e
        → Course limit delays a reads last
            (called a t ∷ slept (delay_at delays a) at ∷ [])
            (threw e)
    asleep :
        {a reads : ℕ} {last : Option Thrown} {t at : Option ℕ} (x : Thrown) (after : ℕ)
        → FailsRetryable a reads t x after
        → suc a < limit
        → env.sleep a (delay_at delays a) ≡ endless
        → Course limit delays a reads last (called a t ∷ slept (delay_at delays a) at ∷ []) pending

module _ {ℓ} {A : Type ℓ} (env : Env A) (deadline : Option ℕ) (limit : ℕ) (delays : List ℕ) where
  abbrev pub IsCourse : ℕ → ℕ → Option Thrown → List Event → Outcome A → Type ℓ
  IsCourse = Course env deadline limit delays
