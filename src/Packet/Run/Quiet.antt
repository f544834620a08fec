-- ===== src/Packet/Run/Quiet.antt =====
-- The parts of a run that write nothing to the queue, the evidence or the case: with a log beside the
-- store, they leave it as it was.
use oasis_supabase_core.Prelude.{
  ℕ, zero, suc, ◌+◌, ◌-◌, ◌≡◌, refl, ◌∙◌, ◌&&◌, Option, none, some, List, [], ◌∷◌, ◌++◌, Text,
  codes, nonempty, leb, length, Bool-cases, inl, inr,
}
use oasis_supabase_core.Prelude.Exec.{Exec, Result, ok, thrown, continue, ◌>>=◌, pure}
use oasis_supabase_core.Packet.{
  LoadedMessage, is_media, media_phase_budget_ms, assert_oversized_media_complete,
}
use oasis_supabase_core.Packet.Content.{
  KnowledgeSnapshot, Part, text_part, ContentDeps, Prepared, fetch_media, prepare_message,
  prepare_messages, check_complete, prepare_from, prepare_content, no_content,
  format_knowledge_snapshot_context,
}
use oasis_supabase_core.Packet.Answer.{
  Interpretation, GeminiRequest, AiAttemptDeps, build_gemini_request, attempt_interpretation,
  after_first, after_second, interpret_with_recovery, reask_hint, is_recoverable, has_lease_room,
}
use oasis_supabase_core.Packet.Provider.{
  ProviderDeps, Step, ended, transient, step_of, retry_delay, after_step, gemini_attempts,
  call_gemini_generate_content, gemini_timeout_ms,
}

-- an operation on the store alone
abbrev pub lift : {S L : Type 0} {A : Type 0} → (S → A × S) → S × L → A × (S × L)
lift m s = let r = m s.0 in (r.0, (r.1, s.1))

abbrev pub Quiet : {S L A : Type 0} → Exec (S × L) A → Type 0
Quiet m = (s : _) (log : _) → (m (s, log)).1.1 ≡ log

abbrev pub lift_content : {S : Type 0} (L : Type 0) → ContentDeps S → ContentDeps (S × L)
lift_content L deps = record {
  system_prompt = deps.system_prompt;
  stringify = deps.stringify;
  download = λ url size time. lift (deps.download url size time);
  now = lift deps.now;
}

abbrev pub lift_provider : {S : Type 0} (L : Type 0) → ProviderDeps S → ProviderDeps (S × L)
lift_provider L deps = record {
  fetch = λ request timeout. lift (deps.fetch request timeout);
  sleep = λ delay s. (deps.sleep delay s.0, s.1);
  now = lift deps.now;
}

module _ {S L A B : Type 0} where
  pub continue-Quiet :
      (r : Result A) (f : A → Exec (S × L) B) → ((a : A) → Quiet (f a)) → Quiet (continue r f)
  continue-Quiet (ok a) f q s log = q a s log
  continue-Quiet (thrown e) f q s log = refl

  pub bind-Quiet :
      (m : Exec (S × L) A) (f : A → Exec (S × L) B)
      → Quiet m
      → ((a : A) → Quiet (f a))
      → Quiet (m >>= f)
  bind-Quiet m f q k s log = let r = m (s, log) in continue-Quiet r.0 f k r.1.0 r.1.1 ∙ q s log

module _ {S : Type 0} (L : Type 0) (deps : ContentDeps S) (started total : ℕ) where
  fetch_media-Quiet :
      (m : LoadedMessage) (p : Prepared)
      → Quiet (fetch_media (lift_content L deps) started total m p)
  unfolding fetch_media
  fetch_media-Quiet m p s log =
      elim (Bool-cases (leb (media_phase_budget_ms + started) (deps.now s).0)) [
        | inl late ↦ rw late refl
        | inr early ↦ rw early refl
      ]

  prepare_message-Quiet :
      (m : LoadedMessage) (p : Prepared)
      → Quiet (prepare_message (lift_content L deps) started total m p)
  unfolding prepare_message
  prepare_message-Quiet m p s log = elim (Bool-cases (is_media m)) [
    | inr text ↦ rw text refl
    | inl medium ↦ rw medium (elim (Bool-cases (nonempty m.media_url)) [
      | inr absent ↦ rw absent refl
      | inl present ↦ rw present (fetch_media-Quiet m p s log)
    ])
  ]

  prepare_messages-Quiet :
      (ms : List LoadedMessage) (p : Prepared)
      → Quiet (prepare_messages (lift_content L deps) started total ms p)
  unfolding prepare_messages
  prepare_messages-Quiet [] p s log = refl
  prepare_messages-Quiet (m ∷ ms) p s log =
      bind-Quiet (prepare_message (lift_content L deps) started total m p) _
        (prepare_message-Quiet m p) (λ p'. prepare_messages-Quiet ms p') s log

module _ {S : Type 0} (L : Type 0) where
  pub prepare_content-Quiet :
      (deps : ContentDeps S) (messages : List LoadedMessage) (snapshot : KnowledgeSnapshot)
      → Quiet (prepare_content (lift_content L deps) messages snapshot)
  unfolding prepare_content prepare_from check_complete
  prepare_content-Quiet deps messages snapshot s log =
      continue-Quiet (format_knowledge_snapshot_context deps.stringify snapshot) _
        (λ context t log'.
          bind-Quiet
            (prepare_messages (lift_content L deps) (deps.now t).0 (length messages) messages
              (no_content (deps.system_prompt ++ (codes "\n\n" ++ context))))
            (λ p. check_complete (lift_content L deps) messages p)
            (prepare_messages-Quiet L deps (deps.now t).0 (length messages) messages _)
            (λ p.
              continue-Quiet
                (assert_oversized_media_complete messages p.processed_media_ids p.failure_codes)
                (λ u. pure p) (λ u t' l. refl))
            (deps.now t).1 log')
        s log

  module _ (deps : ProviderDeps S) (request : GeminiRequest) (started : ℕ) where
    after_step-Quiet :
        (attempt : ℕ) (st : Step) (again : ℕ → Exec (S × L) Text)
        → ((status : ℕ) → Quiet (again status))
        → Quiet (after_step (lift_provider L deps) request started attempt st again)
    unfolding after_step
    after_step-Quiet attempt (ended r) again q s log = refl
    after_step-Quiet attempt (transient status) again q s log =
        elim (Bool-cases
          (leb (gemini_timeout_ms + started) ((deps.now s).0 + retry_delay attempt))) [
            | inl late ↦ rw late refl
            | inr early ↦ rw early (q status (deps.sleep (retry_delay attempt) (deps.now s).1) log)
          ]

    gemini_attempts-Quiet :
        (left attempt : ℕ) (last : Option ℕ)
        → Quiet (gemini_attempts (lift_provider L deps) request started left attempt last)
    unfolding gemini_attempts
    gemini_attempts-Quiet zero attempt last s log = refl
    gemini_attempts-Quiet (suc left) attempt last s log =
        let (time, s') = deps.now s in
        let answer = deps.fetch request (gemini_timeout_ms + started - time) s' in
        elim (Bool-cases (leb (gemini_timeout_ms + started) time)) [
          | inl late ↦ rw late refl
          | inr early ↦ rw early (
              after_step-Quiet attempt (step_of attempt answer.0) _
                (λ status. gemini_attempts-Quiet left (suc attempt) (some status)) answer.1 log)
        ]

  pub call_gemini_generate_content-Quiet :
      (deps : ProviderDeps S) (key : Text) (request : GeminiRequest)
      → Quiet (call_gemini_generate_content (lift_provider L deps) key request)
  unfolding call_gemini_generate_content
  call_gemini_generate_content-Quiet deps key request s log = elim (Bool-cases (nonempty key)) [
    | inl present ↦
        rw present (gemini_attempts-Quiet deps request (deps.now s).0 3 0 none (deps.now s).1 log)
    | inr absent ↦ rw absent refl
  ]

module _ {S L : Type 0} (deps : AiAttemptDeps (S × L)) (messages : List LoadedMessage)
    (warnings : List Text) (q : (request : GeminiRequest) → Quiet (deps.generate request))
    (clock : (s : S) (log : L) → (deps.now (s, log)).1.1 ≡ log) where
  attempt_interpretation-Quiet :
      (parts : List Part) → Quiet (attempt_interpretation deps messages warnings parts)
  unfolding attempt_interpretation
  attempt_interpretation-Quiet parts s log =
      continue-Quiet (build_gemini_request parts) _
        (λ request. bind-Quiet (deps.generate request) _ (q request) (λ raw t l. refl)) s log

  after_second-Quiet : (r : Result Interpretation) → Quiet (after_second deps messages warnings r)
  unfolding after_second
  after_second-Quiet (ok i) s log = refl
  after_second-Quiet (thrown code) s log = clock s log

  after_first-Quiet :
      (parts : List Part) (r : Result Interpretation)
      → Quiet (after_first deps messages warnings parts r)
  unfolding after_first
  after_first-Quiet parts (ok i) s log = refl
  after_first-Quiet parts (thrown code) s log =
      let (time, t) = deps.now (s, log) in
      let again =
        attempt_interpretation deps messages warnings (parts ++ text_part reask_hint ∷ []) t in
      elim (Bool-cases (is_recoverable code && has_lease_room deps.lease_started_at time)) [
        | inl room ↦ rw room (
            after_second-Quiet again.0 again.1.0 again.1.1
            ∙ attempt_interpretation-Quiet (parts ++ text_part reask_hint ∷ []) t.0 t.1
            ∙ clock s log)
        | inr over ↦ rw over (clock s log)
      ]

  pub interpret_with_recovery-Quiet :
      (parts : List Part) → Quiet (interpret_with_recovery deps messages warnings parts)
  unfolding interpret_with_recovery
  interpret_with_recovery-Quiet parts s log =
      let first = attempt_interpretation deps messages warnings parts (s, log) in
      after_first-Quiet parts first.0 first.1.0 first.1.1 ∙ attempt_interpretation-Quiet parts s log
