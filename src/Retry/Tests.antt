-- ===== src/Retry/Tests.antt =====
-- Runs of the retry loop, and the theorems about it at concrete policies.
use oasis_supabase_core.Prelude.{
  ℕ, zero, suc, ◌+◌, ◌≤◌, ◌≡◌, refl, true, Option, none, some, [], ◌∷◌, codes, length, All,
}
use oasis_supabase_core.Prelude.Int.{pos}
use oasis_supabase_core.Retry.{
  integration, retryable, Thrown, Env, Settled, fulfilled, rejected, over, called, slept, returned,
  BoundedRetryPolicy, whole, units, execute_with_bounded_retry, is_retryable_integration_error,
  rejects_policy,
}
use oasis_supabase_core.Retry.Attempts.{calls, range_from, execute-calls}
use oasis_supabase_core.Retry.Budget.{InBudget, execute-InBudget}
use oasis_supabase_core.Retry.Retries.{IsRetried, execute-IsRetried}

abbrev timeout_error : Thrown
timeout_error = integration (record { code = codes "PROVIDER_TIMEOUT"; disposition = retryable })

-- fails twice, then returns 7; each reading of the clock is two units later
abbrev third_time : ℕ → Option ℕ → Settled ℕ
third_time (suc (suc zero)) _ = fulfilled 7
third_time _ _ = rejected timeout_error

abbrev flaky : Env ℕ
flaky = record {
  now = λ i. i + i;
  operation = third_time;
  sleep = λ _ _. over;
  is_retryable = is_retryable_integration_error;
}

abbrev three_times : BoundedRetryPolicy
three_times = record {
  max_attempts = whole (pos 3);
  retry_delays_ms = units (pos 5) ∷ units (pos 0) ∷ [];
  total_budget_ms = some (units (pos 100));
}

abbrev never : BoundedRetryPolicy
never = record { max_attempts = whole (pos 0); retry_delays_ms = []; total_budget_ms = none }

three_times_run : execute_with_bounded_retry flaky three_times ≡ record {
  outcome = returned 7;
  events = called 0 (some 2) ∷ slept 5 (some 4) ∷ called 1 (some 6) ∷ called 2 (some 10) ∷ [];
}
unfolding execute_with_bounded_retry is_retryable_integration_error
three_times_run = refl

never_invalid : rejects_policy never ≡ true
unfolding rejects_policy
never_invalid = refl

execute-calls_example :
    let tried = calls (execute_with_bounded_retry flaky three_times).events in
    (tried ≡ range_from 0 (length tried)) × (length tried ≤ 3)
execute-calls_example = execute-calls flaky three_times

execute-InBudget_example :
    All (InBudget (some 100)) (execute_with_bounded_retry flaky three_times).events
execute-InBudget_example = execute-InBudget flaky three_times

execute-IsRetried_example :
    IsRetried flaky (some 100) (execute_with_bounded_retry flaky three_times).events
execute-IsRetried_example = execute-IsRetried flaky three_times
