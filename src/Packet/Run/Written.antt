-- ===== src/Packet/Run/Written.antt =====
-- What a leased run that returns has written, and from what.
use oasis_supabase_core.Prelude.{
  ℕ, ◌≡◌, true, false, none, some, List, [], ◌∷◌, ◌++◌, Text, codes, distinct, ◌⊎◌,
}
use oasis_supabase_core.Prelude.Json.{Json, get}
use oasis_supabase_core.OperatorReply.Reconcile.{string_or_empty}
use oasis_supabase_core.Packet.{LoadedMessage}
use oasis_supabase_core.Packet.Content.{KnowledgeSnapshot, Prepared, prepare_content}
use oasis_supabase_core.Packet.Answer.{Interpretation, interpret_with_recovery}
use oasis_supabase_core.Packet.Queue.{DispatchLease, PersistArgs, GovernArgs, job_of, is_present}
use oasis_supabase_core.Packet.Queue.Calls.{
  continuation_interpretation_id, load_messages, load_active_knowledge_snapshot,
  cached_interpretation, materialize_case, persist_interpretation_governed,
}
use oasis_supabase_core.Packet.Run.{
  WorkerDeps, continued, cached, interpreted, Work, done, not_configured, ai_deps, evidence_text,
  provider_ids,
}
use oasis_supabase_core.Packet.Run.Trace.{
  Event, media_done, persisted, materialized, governed, completed, logged, Answers,
}

abbrev pub media_events : Text → List Text → List Event
media_events fingerprint [] = []
media_events fingerprint (id ∷ ids) = media_done id fingerprint ∷ media_events fingerprint ids

abbrev pub materializing : DispatchLease → Text → Event
materializing lease id =
    materialized
      (record { packet_id = lease.packet_id; interpretation_id = id; job = some (job_of lease) })

-- The case is materialized from an interpretation, governed or not, and then the lease is completed.
pub data Settlement (lease : DispatchLease) (id : Text) : List Event → Type 0 where
  advised : Settlement lease id (materializing lease id ∷ completed (job_of lease) ∷ [])
  governing :
      {g : GovernArgs}
      → g.interpretation_id ≡ id
      → Settlement lease id (materializing lease id ∷ governed g ∷ completed (job_of lease) ∷ [])

module _ {S : Type 0} (deps : WorkerDeps S) (lease : DispatchLease) where
  abbrev l : WorkerDeps (S × List Event)
  l = logged deps

  -- the fingerprint of the evidence
  abbrev pub fingerprint_of : List LoadedMessage → Text
  fingerprint_of messages = deps.sha256 (evidence_text messages)

  abbrev pub persisting : List LoadedMessage → KnowledgeSnapshot → Interpretation → PersistArgs
  persisting messages snapshot i = record {
    packet_id = lease.packet_id;
    content_fingerprint = fingerprint_of messages;
    provider_message_ids = provider_ids messages;
    interpretation = i;
    knowledge_snapshot = snapshot;
    job = some (job_of lease);
  }

  -- The messages and the snapshot that the run loaded, the interpretation of them that it looked up, and
  -- the content that it prepared from them.
  pub record IsEvidence (messages : List LoadedMessage) (snapshot : KnowledgeSnapshot)
      (existing : Json) (p : Prepared) : Type 0 where
    pub loaded : Answers (load_messages l.admin lease) messages
    pub active : Answers (load_active_knowledge_snapshot l.admin) snapshot
    pub looked_up :
        Answers (cached_interpretation l.admin lease.packet_id (fingerprint_of messages)) existing
    pub prepared : Answers (prepare_content l.content messages snapshot) p

  -- The case was materialized from the interpretation, with this result, and settled.
  abbrev pub IsSettled : Text → Json → List Event → Type 0
  IsSettled id case_result es =
      Answers (materialize_case l.admin lease.packet_id id (some lease)) case_result
      × Settlement lease id es

  -- What was written when the work under a lease ends with an outcome. Without an outcome it is retried.
  pub data Traces (started : ℕ) : Work → List Event → Type 0 where
    unconfigured :
        (deps.api_key ≡ none) ⊎ (deps.api_key ≡ some []) → Traces started not_configured []
    continuing :
        {id : Text} {case_result : Json}
        → Answers (continuation_interpretation_id l.admin lease) (some id)
        → Answers (materialize_case l.admin lease.packet_id id (some lease)) case_result
        → Traces started
            (done (continued lease.packet_id id case_result))
            (materializing lease id ∷ completed (job_of lease) ∷ [])
    from_cache :
        (messages : List LoadedMessage) (snapshot : KnowledgeSnapshot) (existing : Json)
        (p : Prepared) {case_result : Json} {es : List Event}
        → IsEvidence messages snapshot existing p
        → is_present (get (codes "id") existing) ≡ true
        → IsSettled (string_or_empty (get (codes "id") existing)) case_result es
        → Traces started
            (done (
              cached lease.packet_id
                (fingerprint_of messages)
                (get (codes "interpretation") existing)
                case_result))
            (media_events (fingerprint_of messages) (distinct [] p.processed_media_ids) ++ es)
    fresh :
        (messages : List LoadedMessage) (snapshot : KnowledgeSnapshot) (existing : Json)
        (p : Prepared) (key id : Text) (i : Interpretation) {case_result : Json} {es : List Event}
        → IsEvidence messages snapshot existing p
        → is_present (get (codes "id") existing) ≡ false
        → deps.api_key ≡ some key
        → Answers (interpret_with_recovery (ai_deps l key started) messages p.warnings p.parts) i
        → Answers (persist_interpretation_governed l.admin (persisting messages snapshot i)) id
        → IsSettled id case_result es
        → Traces started
            (done (interpreted lease.packet_id (fingerprint_of messages) i case_result))
            (media_events (fingerprint_of messages) (distinct [] p.processed_media_ids)
              ++ persisted (persisting messages snapshot i) ∷ es)
