-- ===== src/Packet/Queue/Calls.antt =====
-- supabase/functions/whatsapp-packet-ai-worker/index.ts: the operations on the queue, the evidence and
-- the case, as the worker composes them.
use oasis_supabase_core.Prelude.{
  ℕ, true, ◌||◌, not, Option, none, some, List, [], ◌∷◌, ◌++◌, Text, codes, text_eq, nonempty,
  to_upper, starts_with, list_contains, distinct, take, length, ◌==◌, if◌then◌else◌,
}
use oasis_supabase_core.Prelude.Json.{Json, boolean, string, object, end, get, as_array}
use oasis_supabase_core.Prelude.Exec.{Exec, Result, ok, thrown, ◌>>=◌, pure}
use oasis_supabase_core.OperatorReply.Delivery.{Reply, gives, fails, rejects}
use oasis_supabase_core.Interpret.{safe_string, is_object, elements}
use oasis_supabase_core.Packet.{
  LoadedMessage, messages_of, assert_packet_message_count, assert_provider_ids_present,
}
use oasis_supabase_core.Packet.Content.{KnowledgeSnapshot}
use oasis_supabase_core.Packet.Answer.{is_record}
use oasis_supabase_core.Packet.Queue.{
  ExecutionKind, packet, case_context, DispatchLease, PersistArgs, GovernArgs, RetryArgs, Admin,
  coded, rpc_with_transport, lookup, call, is_present, some_nonempty, parse_dispatch_lease_row,
  job_of, with_dispatch_lease_rpc_args, before_colon,
}

-- `data && typeof data === "object" ? data : {}`
unfoldable pub object_or_empty : Json → Json
object_or_empty answer = if is_object answer then answer else object end

unfoldable pub then_ok : {A B : Type 0} → Result A → (A → Result B) → Result B
then_ok (ok a) f = f a
then_ok (thrown e) f = thrown e

unfoldable pub parse_active_knowledge_snapshot : Json → Result KnowledgeSnapshot
parse_active_knowledge_snapshot answer =
    let id = safe_string (get (codes "id") answer) 80 in
    let version = safe_string (get (codes "schema_version") answer) 120 in
    let checksum = safe_string (get (codes "content_checksum") answer) 80 in
    let knowledge = get (codes "knowledge") answer in
    if not (is_object answer)
    then thrown (codes "KNOWLEDGE_SNAPSHOT_NOT_ACTIVELY_GOVERNED")
    else if not (nonempty id)
        || not (nonempty version)
        || not (length checksum == 64)
        || not (is_record knowledge)
    then thrown (codes "KNOWLEDGE_SNAPSHOT_MALFORMED")
    else ok (record {
      id = id;
      schema_version = version;
      content_checksum = checksum;
      knowledge = knowledge;
    })

-- the rows that a lookup of messages found
messages_in : (Text → Text) → Text → List Json → Result (List LoadedMessage)
messages_in to_lower_case empty [] = thrown empty
messages_in to_lower_case empty (row ∷ rows) =
    then_ok (assert_packet_message_count (length (row ∷ rows))) (λ u.
      then_ok (assert_provider_ids_present (row ∷ rows))
        (λ v. ok (messages_of to_lower_case (row ∷ rows))))

unfoldable pub loaded_messages :
    (Text → Text) → Text → Text → Reply Json → Result (List LoadedMessage)
unfolding messages_in
loaded_messages to_lower_case failed empty (gives answer) =
    messages_in to_lower_case empty (elements (as_array answer))
loaded_messages to_lower_case failed empty (fails c message) = thrown failed
loaded_messages to_lower_case failed empty (rejects message) = thrown (coded failed message)

unfoldable pub found_packet : Reply Json → Result (Unit {0})
found_packet (gives row) = if is_present row then ok tt else thrown (codes "PACKET_NOT_FOUND")
found_packet (fails c message) = thrown (codes "PACKET_NOT_FOUND")
found_packet (rejects message) = thrown (coded (codes "PACKET_LOOKUP_FAILED") message)

unfoldable pub non_order_governance_case_types : List Text
non_order_governance_case_types =
    codes "ENQUIRY"
    ∷ codes "COMPLAINT"
    ∷ codes "PAYMENT_ADVICE"
    ∷ codes "ACCOUNT_QUERY"
    ∷ codes "DISPATCH"
    ∷ codes "SPECIFICATION"
    ∷ codes "UNCLASSIFIED"
    ∷ []

or_unclear : Text → Text
or_unclear [] = codes "UNCLEAR"
or_unclear (c ∷ s) = c ∷ s

unfoldable pub govern_args : Text → Text → Json → GovernArgs
unfolding or_unclear
govern_args case_id interpretation_id conclusion = record {
  case_id = case_id;
  interpretation_id = interpretation_id;
  intent = or_unclear (to_upper (safe_string (get (codes "intent") conclusion) 40));
  primary_department =
      some_nonempty (to_upper (safe_string (get (codes "primary_department") conclusion) 40));
  reply_clearance =
      some_nonempty (to_upper (safe_string (get (codes "reply_clearance") conclusion) 60));
  draft_reply = some_nonempty (safe_string (get (codes "draft_reply") conclusion) 2000);
}

completed : Json → Result (Unit {0})
completed (boolean true) = ok tt
completed _ = thrown (codes "DISPATCH_COMPLETE_FAILED")

persisted_id : Text → Result Text
persisted_id [] = thrown (codes "INTERPRETATION_ID_MISSING")
persisted_id (c ∷ s) = ok (c ∷ s)

present_text : Json → ℕ → Option Text
present_text v max = if is_present v then some (safe_string v max) else none

-- `data?.state ? String(data.state) : null`, where a state is a text
state_of : Json → Option Text
state_of (string s) = some_nonempty s
state_of v = none

unfoldable pub retry_args : DispatchLease → Text → RetryArgs
retry_args lease message = record {
  job = job_of lease;
  error_code = before_colon message;
  error_detail = take 500 message;
  knowledge_authority_failure = starts_with (before_colon message) (codes "KNOWLEDGE_SNAPSHOT_");
}

module _ {Db : Type 0} (admin : Admin Db) where
  unfoldable pub claim_dispatch_lease : Option Text → Exec Db (Option DispatchLease)
  claim_dispatch_lease packet_id = call (admin.claim packet_id) (λ r.
      then_ok (rpc_with_transport (codes "DISPATCH_CLAIM_FAILED") r)
        (parse_dispatch_lease_row admin.to_safe_integer))

  -- the continuation of a case whose identity was confirmed, by kind, case and revision
  unfoldable pub continuation_of : ExecutionKind → Option Text → Option ℕ → Exec Db (Option Text)
  unfolding present_text
  continuation_of packet case_id revision = pure none
  continuation_of case_context none revision = pure none
  continuation_of case_context (some case_id) revision =
      call (admin.continuation case_id revision) (λ r.
        then_ok (lookup (codes "IDENTITY_CONTINUATION_LOOKUP_FAILED") r)
          (λ answer. ok (present_text (get (codes "cloned_interpretation_id") answer) 80)))

  -- `identityConfirmationContinuationInterpretationId`
  unfoldable pub continuation_interpretation_id : DispatchLease → Exec Db (Option Text)
  continuation_interpretation_id lease =
      continuation_of lease.execution_kind lease.case_id lease.context_revision

  unfoldable pub dispatch_job_state : Text → Exec Db (Option Text)
  unfolding state_of
  dispatch_job_state packet_id = call (admin.job_state packet_id) (λ r.
      then_ok (lookup (codes "DISPATCH_STATE_LOOKUP_FAILED") r)
        (λ answer. ok (state_of (get (codes "state") answer))))

  unfoldable pub load_packet : Text → Exec Db (List LoadedMessage)
  load_packet packet_id = call (admin.packet_row packet_id) found_packet >>= λ u.
      call (admin.packet_messages packet_id) (
        loaded_messages admin.to_lower_case (codes "PACKET_MESSAGE_LOOKUP_FAILED")
          (codes "PACKET_EMPTY"))

  unfoldable pub load_case_context : Text → Exec Db (List LoadedMessage)
  load_case_context case_id = call (admin.case_messages case_id) (
      loaded_messages admin.to_lower_case (codes "CASE_CONTEXT_MESSAGE_LOOKUP_FAILED")
        (codes "CASE_CONTEXT_EMPTY"))

  unfoldable pub load_for : Text → ExecutionKind → Option Text → Exec Db (List LoadedMessage)
  load_for packet_id packet case_id = load_packet packet_id
  load_for packet_id case_context none = load_packet packet_id
  load_for packet_id case_context (some case_id) = load_case_context case_id

  -- the messages of the case or of the packet that a lease is for
  unfoldable pub load_messages : DispatchLease → Exec Db (List LoadedMessage)
  load_messages lease = load_for lease.packet_id lease.execution_kind lease.case_id

  unfoldable pub load_active_knowledge_snapshot : Exec Db KnowledgeSnapshot
  load_active_knowledge_snapshot = call admin.active_snapshot (λ r.
      then_ok (rpc_with_transport (codes "KNOWLEDGE_SNAPSHOT_LOAD_FAILED") r)
        parse_active_knowledge_snapshot)

  unfoldable pub cached_interpretation : Text → Text → Exec Db Json
  cached_interpretation packet_id fingerprint =
      call (admin.cached_interpretation packet_id fingerprint)
        (lookup (codes "INTERPRETATION_CACHE_LOOKUP_FAILED"))

  unfoldable pub complete_one_media : Text → Text → Exec Db (Unit {0})
  complete_one_media id fingerprint =
      call (admin.complete_media id fingerprint)
        (rpc_with_transport (codes "MEDIA_COMPLETION_FAILED:" ++ id))

  unfoldable pub complete_each : List Text → Text → Exec Db (Unit {0})
  complete_each [] fingerprint = pure tt
  complete_each (id ∷ ids) fingerprint =
      complete_one_media id fingerprint >>= λ u. complete_each ids fingerprint

  unfoldable pub complete_media_sequentially : List Text → Text → Exec Db (Unit {0})
  complete_media_sequentially ids fingerprint = complete_each (distinct [] ids) fingerprint

  unfoldable pub materialize_case : Text → Text → Option DispatchLease → Exec Db Json
  materialize_case packet_id interpretation_id lease =
      call
        (admin.materialize (record {
          packet_id = packet_id;
          interpretation_id = interpretation_id;
          job = with_dispatch_lease_rpc_args lease;
        }))
        (λ r.
          then_ok (rpc_with_transport (codes "CASE_MATERIALIZATION_FAILED") r)
            (λ answer. ok (object_or_empty answer)))

  -- none where the case is not governed here
  unfoldable pub apply_non_order_governance : Json → Text → Json → Exec Db (Option Json)
  apply_non_order_governance case_result interpretation_id interpretation s =
      let case_id = safe_string (get (codes "case_id") case_result) 80 in
      let case_type = to_upper (safe_string (get (codes "case_type") case_result) 40) in
      let governed =
        call
          (admin.govern
            (govern_args case_id interpretation_id (get (codes "conclusion") interpretation)))
          (λ r.
            then_ok (rpc_with_transport (codes "NON_ORDER_GOVERNANCE_FAILED") r)
              (λ answer. ok (some (object_or_empty answer))))
          s in
      if not (nonempty case_id) || not (list_contains non_order_governance_case_types case_type)
      then (ok none, s)
      else governed

  unfoldable pub persist_interpretation_governed : PersistArgs → Exec Db Text
  unfolding persisted_id
  persist_interpretation_governed args = call (admin.persist args) (λ r.
      then_ok (rpc_with_transport (codes "INTERPRETATION_PERSIST_FAILED") r)
        (λ answer. persisted_id (safe_string answer 80)))

  unfoldable pub complete_dispatch_lease : DispatchLease → Exec Db (Unit {0})
  unfolding completed
  complete_dispatch_lease lease =
      call (admin.complete (job_of lease))
        (λ r. then_ok (rpc_with_transport (codes "DISPATCH_COMPLETE_FAILED") r) completed)

  unfoldable pub retry_dispatch_lease : DispatchLease → Text → Exec Db (Unit {0})
  retry_dispatch_lease lease message s =
      let retried =
        call (admin.retry (retry_args lease message))
          (rpc_with_transport (codes "DISPATCH_RETRY_FAILED")) s in
      if text_eq (before_colon message) (codes "DISPATCH_LEASE_SUPERSEDED")
      then (ok tt, s)
      else retried
