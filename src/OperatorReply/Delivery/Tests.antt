-- ===== src/OperatorReply/Delivery/Tests.antt =====
-- A batch of callbacks against a small store: the identifiers that it has quarantined.
use oasis_supabase_core.OperatorReply.Delivery.{handle_event}
use oasis_supabase_core.Prelude.{
  ℕ, ◌≡◌, refl, ◌+◌, ◌≤◌, Bool, some, none, Option, List, [], ◌∷◌, Text, codes, text_eq, length,
  arith, trim, to_lower, get_elem?, if◌then◌else◌, list_contains, decimal,
}
use oasis_supabase_core.Prelude.Json.{Json, object, field, end, boolean}
use oasis_supabase_core.Prelude.Exec.{ok, thrown}
use oasis_supabase_core.OperatorReply.Status.{normalize_operator_reply_provider_status}
use oasis_supabase_core.OperatorReply.Delivery.{
  ProviderStatusEvent, gives, fails, Admin, ProviderStatusBatchResult, uuid_of_digest,
  persist_operator_reply_provider_status, persist_operator_reply_provider_status_batch,
  handle_events, quarantine_unmatched_operator_reply_status,
}
use oasis_supabase_core.OperatorReply.Delivery.Batch.{
  unrecognised, batch_report, batch_store, store_after_all, succeeded, events_ok, batch-succeeded,
}
use oasis_supabase_core.OperatorReply.Delivery.Uuid.{uuid_of_digest_shape, IsVariant}

abbrev answer : Bool → Json
answer known =
    object (field (codes "matched") (boolean known) (field (codes "updated") (boolean known) end))

abbrev small_admin : Admin (List Text)
small_admin = record {
  persist_rpc = λ args s. (gives (answer (text_eq args.provider_message_id (codes "w1"))), s);
  insert_unmatched = λ row s.
      if list_contains s row.wamid
      then (fails (codes "23505") (codes "duplicate key"), s)
      else (gives tt, row.wamid ∷ s);
  digest = λ _. 1 ∷ 2 ∷ 3 ∷ 4 ∷ 5 ∷ 6 ∷ 255 ∷ 8 ∷ 255 ∷ 10 ∷ 11 ∷ 12 ∷ 13 ∷ 14 ∷ 15 ∷ 16 ∷ 17 ∷ [];
}

abbrev event : Text → Option Text → ProviderStatusEvent
event status id = record { status = status; provider_message_id = id; provider_error_code = none }

abbrev three_events : List ProviderStatusEvent
three_events =
    event (codes "read") (some (codes "w1"))
    ∷ event (codes "warning") none
    ∷ event (codes "FAILED") (some (codes "w2"))
    ∷ []

abbrev bad_events : List ProviderStatusEvent
bad_events = event (codes "read") none ∷ three_events

abbrev three_report : ProviderStatusBatchResult
three_report = record { count = 3; updated = 1; ignored = 1; unmatched = 1; quarantined = 1 }

three_run :
    persist_operator_reply_provider_status_batch small_admin three_events []
    ≡ (ok three_report, codes "w2" ∷ [])
unfolding persist_operator_reply_provider_status_batch handle_events handle_event
    normalize_operator_reply_provider_status text_eq to_lower trim codes
    persist_operator_reply_provider_status quarantine_unmatched_operator_reply_status
three_run = refl

bad_run :
    persist_operator_reply_provider_status_batch small_admin bad_events []
    ≡ (thrown (codes "WA_STATUS_BATCH_RETRYABLE_FAILURES:1"), codes "w2" ∷ [])
unfolding persist_operator_reply_provider_status_batch handle_events handle_event
    normalize_operator_reply_provider_status text_eq to_lower trim codes
    persist_operator_reply_provider_status quarantine_unmatched_operator_reply_status decimal
bad_run = refl

batch_report_example :
    (3 ≡ length three_events)
    × (1 ≡ unrecognised three_events)
    × (◌≡◌ {A = ℕ} 1 1)
    × (◌≤◌ (1 + 1 + 1) 3)
batch_report_example =
    batch_report small_admin three_events [] (codes "w2" ∷ []) three_report three_run

batch_store_example :
    (persist_operator_reply_provider_status_batch small_admin bad_events []).1
    ≡ store_after_all small_admin bad_events []
batch_store_example = batch_store small_admin bad_events []

batch-succeeded_example :
    succeeded (persist_operator_reply_provider_status_batch small_admin bad_events []).0
    ≡ events_ok small_admin bad_events []
batch-succeeded_example = batch-succeeded small_admin bad_events []

uuid_of_digest_shape_example :
    let id = uuid_of_digest (small_admin.digest []) in
    (length id ≡ 36)
    × (get_elem? id 8 ≡ some b'-')
    × (get_elem? id 13 ≡ some b'-')
    × (get_elem? id 18 ≡ some b'-')
    × (get_elem? id 23 ≡ some b'-')
    × (get_elem? id 14 ≡ some b'8')
    × ((c : ℕ) × (get_elem? id 19 ≡ some c) × IsVariant c)
uuid_of_digest_shape_example = uuid_of_digest_shape (small_admin.digest []) (omega arith)
