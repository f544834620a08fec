-- ===== src/Retry/Retries.antt =====
-- What the retry loop of integrationRetryContract.ts retries.
use oasis_supabase_core.Prelude.{
  ℕ, ◌≡◌, Bool, true, false, Option, none, some, List, [], ◌∷◌, map, inl, inr, Bool-cases,
}
use oasis_supabase_core.Retry.{
  Thrown, Env, Event, called, slept, Outcome, BoundedRetryPolicy, count_value, millis_value,
  deadline_of, stop, execute_with_bounded_retry, rejects_policy,
}
use oasis_supabase_core.Retry.Course.{
  FailsRetryable, spent, succeeded, hung, permanent, exhausted, no_time, again, rested, disturbed,
  asleep, IsCourse,
}
use oasis_supabase_core.Retry.Loop.{execute-IsCourse}

abbrev pub has_call : List Event → Bool
has_call [] = false
has_call (called _ _ ∷ es) = true
has_call (slept _ _ ∷ es) = has_call es

module _ {ℓ} {A : Type ℓ} (env : Env A) (deadline : Option ℕ) where
  -- Every attempt that another attempt follows failed in a retryable way.
  abbrev pub IsRetried : List Event → Type ℓ
  IsRetried [] = Unit
  IsRetried (called a t ∷ es) =
      (has_call es ≡ true
        → (x : Thrown) × (reads : ℕ) × (after : ℕ) × FailsRetryable env deadline a reads t x after)
      × IsRetried es
  IsRetried (slept _ _ ∷ es) = IsRetried es

  course-IsRetried :
      (limit : ℕ) (delays : List ℕ) (a reads : ℕ) (last : Option Thrown) (es : List Event)
      (o : Outcome A)
      → IsCourse env deadline limit delays a reads last es o
      → IsRetried es
  course-IsRetried limit delays a reads last _ _ (spent d e p) = tt
  course-IsRetried limit delays a reads last _ _ (succeeded r) = ((λ q. cc), tt)
  course-IsRetried limit delays a reads last _ _ (hung e p) = ((λ q. cc), tt)
  course-IsRetried limit delays a reads last _ _ (permanent x after f p) = ((λ q. cc), tt)
  course-IsRetried limit delays a reads last _ _ (exhausted x after f p) = ((λ q. cc), tt)
  course-IsRetried limit delays a reads last _ _ (no_time x after d f p q) = ((λ q. cc), tt)
  course-IsRetried limit delays a reads last _ o (again x after r f below p q c) =
      ((λ _. (x, reads, after, f)), course-IsRetried limit delays _ r (some x) _ o c)
  course-IsRetried limit delays a reads last _ o (rested x after r f below p q c) =
      ((λ _. (x, reads, after, f)), course-IsRetried limit delays _ r (some x) _ o c)
  course-IsRetried limit delays a reads last _ _ (disturbed x after f below p) = ((λ q. cc), tt)
  course-IsRetried limit delays a reads last _ _ (asleep x after f below p) = ((λ q. cc), tt)

-- No attempt follows a permanent failure or a success in time: an attempt that another attempt follows
-- either rejected or, under a budget, ran out of time, as it did not settle or the reading of the clock
-- next to its own was at the deadline; and the classifier calls its rejection, or the budget error, a
-- retryable one.
pub execute-IsRetried {ℓ} :
    {A : Type ℓ} (env : Env A) (p : BoundedRetryPolicy)
    → IsRetried env
        (deadline_of (env.now 0) p.total_budget_ms)
        (execute_with_bounded_retry env p).events
unfolding execute_with_bounded_retry stop
execute-IsRetried env p = elim (Bool-cases (rejects_policy p)) [
  | inl bad ↦ rw bad tt
  | inr good ↦
      course-IsRetried env _ (count_value p.max_attempts) (map millis_value p.retry_delays_ms) 0 1
        none _ _ (execute-IsCourse env p good)
]
