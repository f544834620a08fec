-- ===== src/Packet/Run.antt =====
-- supabase/functions/whatsapp-packet-ai-worker/index.ts: a request of the worker, from the claim of a
-- dispatch lease to its completion or retry. `JSON.parse`, SHA-256 and the environment are parameters.
pub mod Quiet
pub mod Trace
pub mod Written
pub mod Settled
pub mod Paths
pub mod Answered
use oasis_supabase_core.Prelude.{
  ℕ, zero, suc, ◌+◌, Bool, true, false, ◌&&◌, ◌||◌, not, Option, none, some, List, [], ◌∷◌, ◌++◌,
  map, Text, codes, text_eq, nonempty, is_digit, leb, ◌==◌, if◌then◌else◌,
}
use oasis_supabase_core.Prelude.Json.{Json, string, object, Fields, end, field, get, is_true}
use oasis_supabase_core.Prelude.Exec.{Exec, Result, ok, thrown, ◌>>=◌, pure}
use oasis_supabase_core.OperatorReply.Reconcile.{string_or_empty}
use oasis_supabase_core.Interpret.{safe_string}
use oasis_supabase_core.Packet.{LoadedMessage, join}
use oasis_supabase_core.Packet.Content.{KnowledgeSnapshot, ContentDeps, Prepared, prepare_content}
use oasis_supabase_core.Packet.Answer.{Interpretation, AiAttemptDeps, interpret_with_recovery}
use oasis_supabase_core.Packet.Provider.{ProviderDeps, call_gemini_generate_content}
use oasis_supabase_core.Packet.Queue.{
  DispatchLease, Admin, is_present, with_dispatch_lease_rpc_args,
}
use oasis_supabase_core.Packet.Queue.Calls.{
  claim_dispatch_lease, continuation_interpretation_id, dispatch_job_state, load_messages,
  load_active_knowledge_snapshot, cached_interpretation, complete_media_sequentially,
  materialize_case, apply_non_order_governance, persist_interpretation_governed,
  complete_dispatch_lease, retry_dispatch_lease,
}

pub record WorkerDeps (Db : Type 0) : Type 0 where
  pub admin : Admin Db
  pub content : ContentDeps Db
  pub provider : ProviderDeps Db
  pub parse_json : Text → Option Json
  pub api_key : Option Text
  pub sha256 : Text → Text

-- the answers with success, with the texts and the case that they carry
pub data WorkerOutcome : Type 0 where
  idle : WorkerOutcome
  deferred : Text → Text → WorkerOutcome
  continued : Text → Text → Json → WorkerOutcome
  cached : Text → Text → Json → Json → WorkerOutcome
  interpreted : Text → Text → Interpretation → Json → WorkerOutcome

-- What a request ends with: an outcome, a `WorkerRequestError` with its error or reason and its status,
-- or another error.
pub data Answer : Type 0 where
  returned : WorkerOutcome → Answer
  request_error : Text → ℕ → Answer
  failed : Text → Answer

-- How the work under a lease ends when it throws no plain error.
pub data Work : Type 0 where
  done : WorkerOutcome → Work
  not_configured : Work

unfoldable pub provider_ids : List LoadedMessage → List Text
provider_ids [] = []
provider_ids (m ∷ ms) = m.provider_message_id ∷ provider_ids ms

evidence_row : LoadedMessage → Text
evidence_row m =
    join (codes "|") (m.provider_message_id ∷ m.message_type ∷ m.content ∷ m.timestamp ∷ [])

-- what the fingerprint is the digest of
unfoldable pub evidence_text : List LoadedMessage → Text
unfolding evidence_row
evidence_text messages = join (codes "\n") (map evidence_row messages)

-- the members of an interpretation that governance reads
unfoldable pub governance_view : Interpretation → Json
governance_view i = object (
    field (codes "conclusion")
      (object (
        field (codes "intent") (string i.intent) (
          field (codes "primary_department") (string i.primary_department) (
            field (codes "reply_clearance") (string i.reply_clearance)
              (field (codes "draft_reply") (string i.draft_reply) end)))))
      end)

module _ {Db : Type 0} (deps : WorkerDeps Db) where
  open deps use {admin, content, provider, parse_json, api_key, sha256}

  unfoldable pub ai_deps : Text → ℕ → AiAttemptDeps Db
  ai_deps key lease_started_at = record {
    generate = λ request. call_gemini_generate_content provider key request;
    parse_json = parse_json;
    now = content.now;
    lease_started_at = lease_started_at;
  }

  -- the interpretation, with the ids of the media that it is made from
  unfoldable pub call_ai :
      Text → List LoadedMessage → KnowledgeSnapshot → ℕ → Exec Db (Interpretation × List Text)
  call_ai key messages snapshot started = prepare_content content messages snapshot >>= λ p.
      interpret_with_recovery (ai_deps key started) messages p.warnings p.parts >>= λ i.
      pure (i, p.processed_media_ids)

  -- the end of the cached and of the interpreted path
  unfoldable pub settle_case : DispatchLease → Text → Json → (Json → WorkerOutcome) → Exec Db Work
  settle_case lease interpretation_id interpretation outcome =
      materialize_case admin lease.packet_id interpretation_id (some lease) >>= λ case_result.
      apply_non_order_governance admin case_result interpretation_id interpretation >>= λ governed.
      complete_dispatch_lease admin lease >>= λ u. pure (done (outcome case_result))

  -- the identity was confirmed, so the interpretation that exists is used
  unfoldable pub continue_case : DispatchLease → Text → Exec Db Work
  continue_case lease interpretation_id =
      materialize_case admin lease.packet_id interpretation_id (some lease) >>= λ case_result.
      complete_dispatch_lease admin lease >>= λ u.
      pure (done (continued lease.packet_id interpretation_id case_result))

  unfoldable pub use_cached :
      DispatchLease → List LoadedMessage → KnowledgeSnapshot → Text → Json → Exec Db Work
  use_cached lease messages snapshot fingerprint existing =
      prepare_content content messages snapshot >>= λ p.
      complete_media_sequentially admin p.processed_media_ids fingerprint >>= λ u.
      settle_case lease (string_or_empty (get (codes "id") existing))
        (get (codes "interpretation") existing)
        (cached lease.packet_id fingerprint (get (codes "interpretation") existing))

  unfoldable pub interpret_with_key :
      Text → ℕ → DispatchLease → List LoadedMessage → KnowledgeSnapshot → Text → Exec Db Work
  interpret_with_key key started lease messages snapshot fingerprint =
      call_ai key messages snapshot started >>= λ result.
      complete_media_sequentially admin result.1 fingerprint >>= λ u.
      persist_interpretation_governed admin (record {
        packet_id = lease.packet_id;
        content_fingerprint = fingerprint;
        provider_message_ids = provider_ids messages;
        interpretation = result.0;
        knowledge_snapshot = snapshot;
        job = with_dispatch_lease_rpc_args (some lease);
      })
      >>= λ id.
          settle_case lease id (governance_view result.0)
            (interpreted lease.packet_id fingerprint result.0)

  unfoldable pub interpret_fresh :
      Option Text → ℕ → DispatchLease → List LoadedMessage → KnowledgeSnapshot → Text → Exec Db Work
  interpret_fresh none started lease messages snapshot fingerprint = pure not_configured
  interpret_fresh (some []) started lease messages snapshot fingerprint = pure not_configured
  interpret_fresh (some (c ∷ key)) started lease messages snapshot fingerprint =
      interpret_with_key (c ∷ key) started lease messages snapshot fingerprint

  -- what follows the lookup of an interpretation of the same evidence
  unfoldable pub after_lookup :
      ℕ → DispatchLease → List LoadedMessage → KnowledgeSnapshot → Text → Json → Exec Db Work
  after_lookup started lease messages snapshot fingerprint existing =
      if is_present (get (codes "id") existing)
      then use_cached lease messages snapshot fingerprint existing
      else interpret_fresh api_key started lease messages snapshot fingerprint

  unfoldable pub interpret_evidence : ℕ → DispatchLease → Exec Db Work
  interpret_evidence started lease = load_messages admin lease >>= λ messages.
      load_active_knowledge_snapshot admin >>= λ snapshot.
      cached_interpretation admin lease.packet_id (sha256 (evidence_text messages)) >>= λ existing.
      after_lookup started lease messages snapshot (sha256 (evidence_text messages)) existing

  unfoldable pub after_continuation : ℕ → DispatchLease → Option Text → Exec Db Work
  after_continuation started lease none = interpret_evidence started lease
  after_continuation started lease (some []) = interpret_evidence started lease
  after_continuation started lease (some (c ∷ id)) = continue_case lease (c ∷ id)

  -- the `try` block
  unfoldable pub work : ℕ → DispatchLease → Exec Db Work
  work started lease =
      continuation_interpretation_id admin lease >>= λ found. after_continuation started lease found

  -- the `catch` block, whose retry may itself fail and is then only reported
  unfoldable pub after_work : DispatchLease → Result Work → Db → Answer × Db
  after_work lease (ok (done outcome)) s = (returned outcome, s)
  after_work lease (ok not_configured) s = (
    request_error (codes "WORKER_NOT_CONFIGURED") 503,
    (retry_dispatch_lease admin lease (codes "WORKER_NOT_CONFIGURED") s).1,
  )
  after_work lease (thrown message) s =
      (failed message, (retry_dispatch_lease admin lease message s).1)

  unfoldable pub run_lease : ℕ → DispatchLease → Db → Answer × Db
  run_lease started lease s =
      let worked = work started lease s in after_work lease worked.0 worked.1
