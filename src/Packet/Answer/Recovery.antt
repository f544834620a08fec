-- ===== src/Packet/Answer/Recovery.antt =====
-- How often the provider is asked, and when.
use mathlib.Core.List.{append_assoc, append-nil}
use oasis_supabase_core.Prelude.{
  ℕ, ◌+◌, ◌<◌, ◌≡◌, refl, sym, ap, ◌∙◌, true, ◌&&◌, Option, none, some, List, [], ◌∷◌, ◌++◌, Text,
  codes, text_eq, inl, inr, Bool-cases, arith, subst,
}
use oasis_supabase_core.Prelude.Json.{Json}
use oasis_supabase_core.Prelude.Exec.{Exec, Result, ok, thrown, continue}
use oasis_supabase_core.Packet.{LoadedMessage}
use oasis_supabase_core.Packet.Content.{Part, text_part}
use oasis_supabase_core.Packet.Answer.{
  Interpretation, GeminiRequest, build_gemini_request, AiAttemptDeps, is_recoverable,
  has_lease_room, reask_hint, read_json, attempt_interpretation, after_first, after_second,
  interpret_with_recovery, dispatch_lease_ms, lease_safety_margin_ms, reask_provider_budget_ms,
  sanitize_interpretation,
}
use oasis_supabase_core.Packet.Answer.Governed.{IsGoverned, sanitize_interpretation-IsGoverned}

-- The provider with a log of the requests beside the store.
abbrev pub logged : {S : Type 0} → AiAttemptDeps S → AiAttemptDeps (S × List GeminiRequest)
logged deps = record {
  generate = λ request s. let r = deps.generate request s.0 in (r.0, (r.1, s.1 ++ request ∷ []));
  parse_json = deps.parse_json;
  now = λ s. let r = deps.now s.0 in (r.0, (r.1, s.1));
  lease_started_at = deps.lease_started_at;
}

abbrev pub Holds : (Interpretation → Type 0) → Result Interpretation → Type 0
Holds P (ok i) = P i
Holds P (thrown code) = Unit

abbrev pub request_of : List Part → GeminiRequest
request_of parts = record { parts = parts }

abbrev pub IsRecoverable : Result Interpretation → Type 0
IsRecoverable (ok i) = ⊥
IsRecoverable (thrown code) = is_recoverable code ≡ true

module _ {S : Type 0} (deps : AiAttemptDeps S) (messages : List LoadedMessage)
    (warnings : List Text) where
  -- the first attempt, and the time after it
  abbrev pub first_attempt : List Part → S → Result Interpretation × S
  first_attempt parts s = attempt_interpretation deps messages warnings parts s

  abbrev pub time_after : List Part → S → ℕ
  time_after parts s = (deps.now (first_attempt parts s).1).0

  -- The requests that a run adds to the log: none without parts, one, or two after an answer that was no
  -- JSON of the schema, where the second call ends with a margin before the lease does.
  pub data Requests (parts : List Part) (s : S) : List GeminiRequest → Type 0 where
    unasked : parts ≡ [] → Requests parts s []
    asked_once : Requests parts s (request_of parts ∷ [])
    asked_twice :
        IsRecoverable (first_attempt parts s).0
        → time_after parts s + reask_provider_budget_ms + lease_safety_margin_ms
          < deps.lease_started_at + dispatch_lease_ms
        → Requests parts s (request_of parts ∷ request_of (parts ++ text_part reask_hint ∷ []) ∷ [])

  -- the answer is read, in any store
  abbrev read : {T : Type 0} → Text → Exec T Interpretation
  read raw t = (read_json (deps.parse_json raw) messages warnings, t)

  abbrev with_log :
      List GeminiRequest
      → Result Interpretation × S
      → Result Interpretation × (S × List GeminiRequest)
  with_log log r = (r.0, (r.1, log))

  continue-logged :
      (r : Result Text) (s : S) (log : List GeminiRequest)
      → continue {S = S × List GeminiRequest} r read (s, log) ≡ with_log log (continue r read s)
  continue-logged (ok raw) s log = refl
  continue-logged (thrown e) s log = refl

  attempt-logged :
      (p : Part) (ps : List Part) (s : S) (log : List GeminiRequest)
      → attempt_interpretation (logged deps) messages warnings (p ∷ ps) (s, log)
        ≡ with_log (log ++ request_of (p ∷ ps) ∷ []) (first_attempt (p ∷ ps) s)
  unfolding attempt_interpretation build_gemini_request
  attempt-logged p ps s log =
      let asked = deps.generate (request_of (p ∷ ps)) s in
      continue-logged asked.0 asked.1 (log ++ request_of (p ∷ ps) ∷ [])

  read_json-IsGoverned : (v : Option Json) → Holds IsGoverned (read_json v messages warnings)
  unfolding read_json
  read_json-IsGoverned none = tt
  read_json-IsGoverned (some raw) = holds (sanitize_interpretation raw messages warnings) refl
    where
      holds :
          (r : Result Interpretation)
          → sanitize_interpretation raw messages warnings ≡ r
          → Holds IsGoverned r
      holds (ok i) e = sanitize_interpretation-IsGoverned raw messages warnings i e
      holds (thrown code) e = tt

  continue-IsGoverned : (r : Result Text) (s : S) → Holds IsGoverned (continue r read s).0
  continue-IsGoverned (ok raw) s = read_json-IsGoverned (deps.parse_json raw)
  continue-IsGoverned (thrown e) s = tt

  attempt-IsGoverned : (parts : List Part) (s : S) → Holds IsGoverned (first_attempt parts s).0
  unfolding attempt_interpretation build_gemini_request
  attempt-IsGoverned [] s = tt
  attempt-IsGoverned (p ∷ ps) s =
      let asked = deps.generate (request_of (p ∷ ps)) s in continue-IsGoverned asked.0 asked.1

  -- the second attempt adds nothing to the log when it ends, and keeps its answer
  after_second-Holds :
      (r : Result Interpretation) (s : S) (log : List GeminiRequest)
      → Holds IsGoverned r
      → ((after_second (logged deps) messages warnings r (s, log)).1.1 ≡ log)
        × Holds IsGoverned (after_second (logged deps) messages warnings r (s, log)).0
  unfolding after_second
  after_second-Holds (ok i) s log h = (refl, h)
  after_second-Holds (thrown code) s log h = (refl, tt)

  abbrev pub IsBoundedRun :
      List Part → S → List GeminiRequest → Result Interpretation × (S × List GeminiRequest) → Type 0
  IsBoundedRun parts s log run =
      ((new : List GeminiRequest) × (run.1.1 ≡ log ++ new) × Requests parts s new)
      × Holds IsGoverned run.0

  after_first-IsBoundedRun :
      (p : Part) (ps : List Part) (s : S) (log : List GeminiRequest) (r : Result Interpretation)
      (t : S)
      → first_attempt (p ∷ ps) s ≡ (r, t)
      → IsBoundedRun (p ∷ ps) s log (
          after_first
            (logged deps)
            messages
            warnings
            (p ∷ ps)
            r
            (t, log ++ request_of (p ∷ ps) ∷ []))
  unfolding after_first has_lease_room
  after_first-IsBoundedRun p ps s log (ok i) t e =
      ((_, refl, asked_once), rw (ap (λ x. x.0) e) at (attempt-IsGoverned (p ∷ ps) s))
  after_first-IsBoundedRun p ps s log (thrown code) t e =
      let time = (deps.now t).0 in
      elim (Bool-cases (is_recoverable code && has_lease_room deps.lease_started_at time)) [
        | inl again ↦
            let parts' = p ∷ (ps ++ text_part reask_hint ∷ []) in
            let t' = (deps.now t).1 in
            let second = first_attempt parts' t' in
            let (kept, answer) =
              after_second-Holds second.0 second.1
                ((log ++ request_of (p ∷ ps) ∷ []) ++ request_of parts' ∷ [])
                (attempt-IsGoverned parts' t') in
            rw
              (
                again,
                attempt-logged p (ps ++ text_part reask_hint ∷ []) t'
                    (log ++ request_of (p ∷ ps) ∷ []),
              )
              (
                (
                  _,
                  kept ∙ append_assoc log (request_of (p ∷ ps) ∷ []) (request_of parts' ∷ []),
                  asked_twice (subst IsRecoverable (ap (λ x. x.0) (sym e)) (ground arith))
                      (rw (ap (λ x. (deps.now x.1).0) e) (ground arith)),
                ),
                answer,
              )
        | inr over ↦ rw over ((_, refl, asked_once), tt)
      ]

-- A run of the interpreter asks the provider once, or twice, or not at all when there are no parts. It
-- asks a second time only after an answer that was no JSON of the schema, and only when a whole provider
-- call and the safety margin end before the dispatch lease does. An interpretation that it returns is
-- governed: its labels are allowed ones, it has a summary and a recommended action, and it requires
-- human review and grants no automatic action.
pub interpret_with_recovery-IsBoundedRun :
    {S : Type 0} (deps : AiAttemptDeps S) (messages : List LoadedMessage) (warnings : List Text)
    (parts : List Part) (s : S) (log : List GeminiRequest)
    → IsBoundedRun deps messages warnings parts s log
        (interpret_with_recovery (logged deps) messages warnings parts (s, log))
unfolding interpret_with_recovery attempt_interpretation build_gemini_request after_first
    is_recoverable text_eq codes
interpret_with_recovery-IsBoundedRun deps messages warnings [] s log =
    (([], sym (append-nil log), unasked refl), tt)
interpret_with_recovery-IsBoundedRun deps messages warnings (p ∷ ps) s log =
    rw (attempt-logged deps messages warnings p ps s log)
      (after_first-IsBoundedRun deps messages warnings p ps s log _ _ refl)
