-- ===== src/Packet/Provider/Deadline.antt =====
-- How often and when the provider is called.
use mathlib.Core.List.{append_assoc, append-nil}
use oasis_supabase_core.Prelude.{
  ℕ, zero, suc, ◌+◌, ◌-◌, ◌<◌, ◌≡◌, refl, sym, ◌∙◌, true, false, Option, none, some, List, [], ◌∷◌,
  ◌++◌, Text, nonempty, leb, arith, Bool-cases, inl, inr,
}
use oasis_supabase_core.Prelude.Exec.{Exec, Result}
use oasis_supabase_core.OperatorReply.Dispatch.{is_ok_status}
use oasis_supabase_core.Packet.Answer.{GeminiRequest}
use oasis_supabase_core.Packet.Provider.{
  Fetched, timed_out, transport_failed, response, ProviderDeps, Step, after_step, ended, transient,
  step_of, retry_delay, gemini_attempts, call_gemini_generate_content, gemini_timeout_ms,
  gemini_max_attempts, is_transient_gemini_status,
}

-- A call of the provider: the clock before it, the time that it is given, and its answer.
pub record Call : Type 0 where
  pub started : ℕ
  pub timeout : ℕ
  pub answer : Fetched

-- The provider with a log of its calls, and the last reading of the clock, beside the store.
abbrev pub logged : {S : Type 0} → ProviderDeps S → ProviderDeps (S × ℕ × List Call)
logged deps = record {
  fetch = λ request timeout s.
      let r = deps.fetch request timeout s.0 in
      (r.0, (r.1, s.1, s.2 ++ record { started = s.1; timeout = timeout; answer = r.0 } ∷ []));
  sleep = λ delay s. (deps.sleep delay s.0, s.1, s.2);
  now = λ s. let r = deps.now s.0 in (r.0, (r.1, r.0, s.2));
}

-- The answer has a transient status, no successful one.
abbrev pub IsTransient : Fetched → Type 0
IsTransient timed_out = ⊥
IsTransient transport_failed = ⊥
IsTransient (response status body) =
    (is_ok_status status ≡ false) × (is_transient_gemini_status status ≡ true)

-- A call ends at the deadline at the latest, and has time left.
abbrev pub IsTimely : ℕ → Call → Type 0
IsTimely deadline c = (c.started + c.timeout ≡ deadline) × (0 < c.timeout)

-- At most so many calls, each in time, and each but the last answered by a transient status.
pub data Calls (deadline : ℕ) : ℕ → List Call → Type 0 where
  no_call : {n : ℕ} → Calls deadline n []
  last_call : {n : ℕ} {c : Call} → IsTimely deadline c → Calls deadline (suc n) (c ∷ [])
  retried :
      {n : ℕ} {c : Call} {cs : List Call}
      → IsTimely deadline c
      → IsTransient c.answer
      → Calls deadline n cs
      → Calls deadline (suc n) (c ∷ cs)

transient-IsTransient :
    (attempt status : ℕ) (answer : Fetched)
    → step_of attempt answer ≡ transient status
    → IsTransient answer
unfolding step_of
transient-IsTransient attempt status timed_out e = ground arith
transient-IsTransient attempt status transport_failed e = ground arith
transient-IsTransient attempt status (response n body) e = (ground arith, ground arith)

module _ {S : Type 0} (deps : ProviderDeps S) (request : GeminiRequest) (started : ℕ) where
  abbrev deadline : ℕ
  deadline = gemini_timeout_ms + started

  abbrev Adds : ℕ → List Call → Result Text × (S × ℕ × List Call) → Type 0
  Adds n log run = (new : List Call) × (run.1.2 ≡ log ++ new) × Calls deadline n new

  -- after a call that is in time
  after_step-Adds :
      (left attempt : ℕ) (st : Step) (again : ℕ → Exec (S × ℕ × List Call) Text) (c : Call) (s : S)
      (t : ℕ) (log : List Call)
      → IsTimely deadline c
      → step_of attempt c.answer ≡ st
      → ((status : ℕ) (s : S) (t : ℕ) (log : List Call) → Adds left log (again status (s, t, log)))
      → Adds
          (suc left)
          log
          (after_step (logged deps) request started attempt st again (s, t, log ++ c ∷ []))
  unfolding after_step
  after_step-Adds left attempt (ended r) again c s t log timely e more =
      (c ∷ [], refl, last_call timely)
  after_step-Adds left attempt (transient status) again c s t log timely e more =
      let (time, s') = deps.now s in
      let (new, grown, calls) =
        more status (deps.sleep (retry_delay attempt) s') time (log ++ c ∷ []) in
      elim (Bool-cases (leb (gemini_timeout_ms + started) (time + retry_delay attempt))) [
        | inl late ↦ rw late (c ∷ [], refl, last_call timely)
        | inr early ↦ rw early (
          c ∷ new,
          grown ∙ append_assoc log (c ∷ []) new,
          retried timely (transient-IsTransient attempt status c.answer e) calls,
        )
      ]

  attempts-Adds :
      (left attempt : ℕ) (last : Option ℕ) (s : S) (t : ℕ) (log : List Call)
      → Adds left log (gemini_attempts (logged deps) request started left attempt last (s, t, log))
  unfolding gemini_attempts
  attempts-Adds zero attempt last s t log = ([], sym (append-nil log), no_call)
  attempts-Adds (suc left) attempt last s t log =
      let (time, s') = deps.now s in
      let answer = deps.fetch request (gemini_timeout_ms + started - time) s' in
      let call : Call = record {
        started = time;
        timeout = gemini_timeout_ms + started - time;
        answer = answer.0;
      } in
      elim (Bool-cases (leb (gemini_timeout_ms + started) time)) [
        | inl late ↦ rw late ([], sym (append-nil log), no_call)
        | inr early ↦ rw early (
            after_step-Adds left attempt (step_of attempt answer.0) _ call answer.1 time log
              (ground arith, ground arith) refl
              (λ status. attempts-Adds left (suc attempt) (some status)))
      ]

-- A call of the model's interpreter asks the provider at most three times. Each request is given exactly the
-- time that is left of the 90 seconds, which is more than none, and each but the last was answered by a
-- transient status: a timeout, a transport failure, a success and a permanent status end the call.
pub call_gemini_generate_content-Calls :
    {S : Type 0} (deps : ProviderDeps S) (api_key : Text) (request : GeminiRequest) (s : S) (t : ℕ)
    (log : List Call)
    → (new : List Call) × ((call_gemini_generate_content
          (logged deps)
          api_key
          request
          (s, t, log)).1.2
        ≡ log ++ new)
      × Calls (gemini_timeout_ms + (deps.now s).0) gemini_max_attempts new
unfolding call_gemini_generate_content
call_gemini_generate_content-Calls deps api_key request s t log =
    elim (Bool-cases (nonempty api_key)) [
      | inl present ↦
          rw present
            (attempts-Adds deps request (deps.now s).0 3 0 none (deps.now s).1 (deps.now s).0 log)
      | inr absent ↦ rw absent ([], sym (append-nil log), no_call)
    ]
