-- ===== src/Packet/Run/Paths.antt =====
-- The paths of a run under a lease, and how the run is answered.
use oasis_supabase_core.Prelude.{
  ℕ, ◌≡◌, refl, sym, ap, ◌∙◌, subst, true, false, Option, none, some, List, [], ◌∷◌, ◌++◌, Text,
  codes, distinct, inl, inr, Bool-cases,
}
use oasis_supabase_core.Prelude.Json.{Json, get}
use oasis_supabase_core.Prelude.Exec.{◌>>=◌, pure, continue_ok}
use oasis_supabase_core.OperatorReply.Reconcile.{string_or_empty}
use oasis_supabase_core.Packet.{LoadedMessage}
use oasis_supabase_core.Packet.Content.{Prepared, KnowledgeSnapshot, prepare_content}
use oasis_supabase_core.Packet.Answer.{Interpretation, interpret_with_recovery}
use oasis_supabase_core.Packet.Queue.{
  DispatchLease, PersistArgs, is_present, call, with_dispatch_lease_rpc_args,
}
use oasis_supabase_core.Packet.Queue.Calls.{
  continuation_interpretation_id, load_messages, load_active_knowledge_snapshot,
  cached_interpretation, complete_media_sequentially, persist_interpretation_governed,
}
use oasis_supabase_core.Packet.Run.{
  WorkerDeps, cached, interpreted, Work, not_configured, call_ai, settle_case, use_cached,
  interpret_with_key, interpret_fresh, after_lookup, interpret_evidence, after_continuation, work,
  ai_deps, evidence_text, governance_view,
}
use oasis_supabase_core.Packet.Run.Quiet.{
  Quiet, bind-Quiet, prepare_content-Quiet, interpret_with_recovery-Quiet,
  call_gemini_generate_content-Quiet,
}
use oasis_supabase_core.Packet.Run.Trace.{
  Answers, Event, persisted, logged, Gives, Tells, bind-Gives, quiet-Gives, tells-Gives,
  weaken-Gives, pure-Gives,
}
use oasis_supabase_core.Packet.Run.Written.{
  media_events, fingerprint_of, persisting, IsEvidence, Traces, unconfigured, from_cache, fresh,
}
use oasis_supabase_core.Packet.Run.Settled.{
  Settles, complete_each-Gives, load_for-Quiet, continuation_of-Quiet, settle_case-Gives,
  continue_case-Gives,
}

module _ {S : Type 0} (deps : WorkerDeps S) (lease : DispatchLease) where
  abbrev l : WorkerDeps (S × List Event)
  l = logged deps

  media-Gives :
      (ids : List Text) (fingerprint : Text)
      → Gives
          (complete_media_sequentially l.admin ids fingerprint)
          (λ u es. es ≡ media_events fingerprint (distinct [] ids))
  unfolding complete_media_sequentially
  media-Gives ids fingerprint = complete_each-Gives deps.admin (distinct [] ids) fingerprint

  call_ai-Quiet :
      (key : Text) (messages : List LoadedMessage) (snapshot : KnowledgeSnapshot) (started : ℕ)
      → Quiet (call_ai l key messages snapshot started)
  unfolding call_ai ai_deps
  call_ai-Quiet key messages snapshot started =
      bind-Quiet (prepare_content l.content messages snapshot) _
        (prepare_content-Quiet (List Event) deps.content messages snapshot)
        (λ p.
          bind-Quiet (interpret_with_recovery (ai_deps l key started) messages p.warnings p.parts) _
            (interpret_with_recovery-Quiet (ai_deps l key started) messages p.warnings
              (λ request. call_gemini_generate_content-Quiet (List Event) deps.provider key request)
              (λ s log. refl) p.parts)
            (λ i s log. refl))

  -- what the interpretation of an answer was made from, with the media that are completed
  call_ai-Answers :
      (key : Text) (messages : List LoadedMessage) (snapshot : KnowledgeSnapshot) (started : ℕ)
      (result : Interpretation × List Text)
      → Answers (call_ai l key messages snapshot started) result
      → (p : Prepared) × Answers (prepare_content l.content messages snapshot) p
        × Answers
            (interpret_with_recovery (ai_deps l key started) messages p.warnings p.parts)
            result.0
        × (result.1 ≡ p.processed_media_ids)
  unfolding call_ai
  call_ai-Answers key messages snapshot started result (t, e) =
      let prepared = prepare_content l.content messages snapshot t in
      let (p, came, rest) =
        continue_ok prepared.0
          (λ p. interpret_with_recovery (ai_deps l key started) messages p.warnings p.parts >>= λ i.
            pure (i, p.processed_media_ids))
          prepared.1 result e in
      let run =
        interpret_with_recovery (ai_deps l key started) messages p.warnings p.parts prepared.1 in
      let (i, answered, same) =
        continue_ok run.0 (λ i. pure (i, p.processed_media_ids)) run.1 result rest in
      let eq : (i, p.processed_media_ids) ≡ result = cc in
      (
        p,
        (t, came),
        subst
            (Answers (interpret_with_recovery (ai_deps l key started) messages p.warnings p.parts))
            (ap (λ r. r.0) eq) (prepared.1, answered),
        sym (ap (λ r. r.1) eq),
      )

  persist-Tells :
      (args : PersistArgs) → Tells (persisted args) (persist_interpretation_governed l.admin args)
  unfolding persist_interpretation_governed call
  persist-Tells args s log = refl

  module _ (started : ℕ) (messages : List LoadedMessage) (snapshot : KnowledgeSnapshot)
      (existing : Json) where
    abbrev fingerprint : Text
    fingerprint = fingerprint_of deps lease messages

    cached-Traces :
        (p : Prepared) (es es' : List Event) (w : Work)
        → IsEvidence deps lease messages snapshot existing p
        → is_present (get (codes "id") existing) ≡ true
        → Settles deps lease
            (string_or_empty (get (codes "id") existing))
            (cached lease.packet_id fingerprint (get (codes "interpretation") existing))
            w
            es'
        → es ≡ media_events fingerprint (distinct [] p.processed_media_ids)
        → Traces deps lease started w (es ++ es')
    unfolding Settles
    cached-Traces p es es' w evidence found (case_result, same, settled) media =
        rw (same, media) (from_cache messages snapshot existing p evidence found settled)

    fresh-Traces :
        (p : Prepared) (key id : Text) (i : Interpretation) (es es' : List Event) (w : Work)
        → IsEvidence deps lease messages snapshot existing p
        → is_present (get (codes "id") existing) ≡ false
        → deps.api_key ≡ some key
        → Answers (interpret_with_recovery (ai_deps l key started) messages p.warnings p.parts) i
        → Answers
            (persist_interpretation_governed l.admin (persisting deps lease messages snapshot i))
            id
        → Settles deps lease id (interpreted lease.packet_id fingerprint i) w es'
        → es ≡ media_events fingerprint (distinct [] p.processed_media_ids)
        → Traces deps lease started w
            (es ++ persisted (persisting deps lease messages snapshot i) ∷ es')
    unfolding Settles
    fresh-Traces p key id i es es' w evidence absent keyed made stored (case_result, same, settled)
          media =
        rw (same, media)
          (fresh messages snapshot existing p key id i evidence absent keyed made stored settled)

    module _ (loaded : Answers (load_messages l.admin lease) messages)
        (active : Answers (load_active_knowledge_snapshot l.admin) snapshot)
        (looked_up : Answers
          (cached_interpretation l.admin lease.packet_id fingerprint)
          existing) where
      prepared-IsEvidence :
          (p : Prepared)
          → Answers (prepare_content l.content messages snapshot) p
          → IsEvidence deps lease messages snapshot existing p
      prepared-IsEvidence p prepared = record {
        loaded = loaded;
        active = active;
        looked_up = looked_up;
        prepared = prepared;
      }

      use_cached-Gives :
          is_present (get (codes "id") existing) ≡ true
          → Gives
              (use_cached l lease messages snapshot fingerprint existing)
              (Traces deps lease started)
      unfolding use_cached
      use_cached-Gives found =
          quiet-Gives (prepare_content l.content messages snapshot) _ _
            (prepare_content-Quiet (List Event) deps.content messages snapshot)
            (λ p prepared.
              bind-Gives (complete_media_sequentially l.admin p.processed_media_ids fingerprint) _ _
                _ (media-Gives p.processed_media_ids fingerprint)
                (λ u es same.
                  weaken-Gives
                    (settle_case l lease (string_or_empty (get (codes "id") existing))
                      (get (codes "interpretation") existing)
                      (cached lease.packet_id fingerprint (get (codes "interpretation") existing)))
                    _ _ (settle_case-Gives deps lease _ _ _)
                    (λ w es' settled.
                      cached-Traces p es es' w (prepared-IsEvidence p prepared) found settled
                        same)))

      interpret_with_key-Gives :
          (key : Text)
          → is_present (get (codes "id") existing) ≡ false
          → deps.api_key ≡ some key
          → Gives
              (interpret_with_key l key started lease messages snapshot fingerprint)
              (Traces deps lease started)
      unfolding interpret_with_key with_dispatch_lease_rpc_args
      interpret_with_key-Gives key absent keyed =
          quiet-Gives (call_ai l key messages snapshot started) _ _
            (call_ai-Quiet key messages snapshot started)
            (λ result answered.
              let (p, prepared, made, media) =
                call_ai-Answers key messages snapshot started result answered in
              let args = persisting deps lease messages snapshot result.0 in
              bind-Gives (complete_media_sequentially l.admin result.1 fingerprint) _ _ _
                (media-Gives result.1 fingerprint)
                (λ u es same.
                  tells-Gives (persist_interpretation_governed l.admin args) _ _ (persisted args)
                    (persist-Tells args)
                    (λ id stored.
                      weaken-Gives
                        (settle_case l lease id (governance_view result.0)
                          (interpreted lease.packet_id fingerprint result.0))
                        _ _ (settle_case-Gives deps lease id _ _)
                        (λ w es' settled.
                          fresh-Traces p key id result.0 es es' w (prepared-IsEvidence p prepared)
                            absent keyed made stored settled
                            (same
                              ∙ ap (λ ids. media_events fingerprint (distinct [] ids)) media)))))

      interpret_fresh-Gives :
          (key : Option Text)
          → is_present (get (codes "id") existing) ≡ false
          → deps.api_key ≡ key
          → Gives
              (interpret_fresh l key started lease messages snapshot fingerprint)
              (Traces deps lease started)
      unfolding interpret_fresh
      interpret_fresh-Gives none absent keyed =
          pure-Gives not_configured _ (unconfigured (inl keyed))
      interpret_fresh-Gives (some []) absent keyed =
          pure-Gives not_configured _ (unconfigured (inr keyed))
      interpret_fresh-Gives (some (c ∷ key)) absent keyed =
          interpret_with_key-Gives (c ∷ key) absent keyed

      after_lookup-Gives :
          Gives
            (after_lookup l started lease messages snapshot fingerprint existing)
            (Traces deps lease started)
      unfolding after_lookup
      after_lookup-Gives = elim (Bool-cases (is_present (get (codes "id") existing))) [
        | inl found ↦ rw found (use_cached-Gives found)
        | inr absent ↦ rw absent (interpret_fresh-Gives deps.api_key absent refl)
      ]

  interpret_evidence-Gives :
      (started : ℕ) → Gives (interpret_evidence l started lease) (Traces deps lease started)
  unfolding interpret_evidence load_messages load_active_knowledge_snapshot cached_interpretation
      call
  interpret_evidence-Gives started =
      quiet-Gives (load_messages l.admin lease) _ _
        (load_for-Quiet deps.admin lease.packet_id lease.execution_kind lease.case_id)
        (λ messages loaded.
          quiet-Gives (load_active_knowledge_snapshot l.admin) _ _ (λ s log. refl)
            (λ snapshot active.
              quiet-Gives
                (cached_interpretation l.admin lease.packet_id
                  (deps.sha256 (evidence_text messages)))
                _ _ (λ s log. refl)
                (λ existing looked_up.
                  after_lookup-Gives started messages snapshot existing loaded active looked_up)))

  after_continuation-Gives :
      (started : ℕ) (found : Option Text)
      → Answers (continuation_interpretation_id l.admin lease) found
      → Gives (after_continuation l started lease found) (Traces deps lease started)
  unfolding after_continuation
  after_continuation-Gives started none answered = interpret_evidence-Gives started
  after_continuation-Gives started (some []) answered = interpret_evidence-Gives started
  after_continuation-Gives started (some (c ∷ id)) answered =
      continue_case-Gives deps lease started (c ∷ id) answered

  pub work-Gives : (started : ℕ) → Gives (work l started lease) (Traces deps lease started)
  unfolding work continuation_interpretation_id
  work-Gives started =
      quiet-Gives (continuation_interpretation_id l.admin lease) _ _
        (continuation_of-Quiet deps.admin lease.execution_kind lease.case_id lease.context_revision)
        (λ found answered. after_continuation-Gives started found answered)
