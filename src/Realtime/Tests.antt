-- ===== src/Realtime/Tests.antt =====
-- A realtime session over a small snapshot, on a platform that reads no dates and no numbers.
use oasis_supabase_core.Realtime.Session.{upsert_seen_version}
use oasis_supabase_core.Realtime.Session.{classify_delta_version}
use oasis_supabase_core.Realtime.{is_published_event_type}
use oasis_supabase_core.Realtime.{build_scoped_channel_name}
use oasis_supabase_core.Realtime.{find_governed_realtime_contract}
use oasis_supabase_core.Realtime.{assert_authorized_realtime_subscription}
use oasis_supabase_core.Prelude.{
  ◌≡◌, refl, true, false, none, some, List, [], ◌∷◌, Text, codes, text_eq, if◌then◌else◌, trim,
  list_contains,
}
use oasis_supabase_core.Realtime.{
  GovernedRealtimeContract, RealtimeChannelScope, ok, update, insert,
}
use oasis_supabase_core.Realtime.Versions.{
  Platform, opposite, compare_monotonic_versions, compare_monotonic_versions_antisym,
}
use oasis_supabase_core.Realtime.Session.{
  RealtimeConsumerSession, RealtimeDeltaEvent, SeenVersionEntry, applied, find_seen_version,
  not_newer, new_session, apply_delta, row_version_key,
}
use oasis_supabase_core.Realtime.Replay.{apply_delta_again, apply_delta_applied, redelivered}
use oasis_supabase_core.Prelude.{map, ◌++◌}
use oasis_supabase_core.Realtime.{governed_realtime_contracts}
use oasis_supabase_core.Realtime.Authorized.{new_session_authorized}
use oasis_supabase_core.Realtime.Lifecycle.{
  Call, load, delta, close, call, calls, cleanups, refusal, IsConsistent,
  new_session-calls-IsConsistent, new_session-cleanups, new_session-close,
}

abbrev no_dates : Platform
no_dates = record { date_parse = λ _. none; number = λ _. none }

abbrev scope : RealtimeChannelScope
scope = record {
  consumer_application = codes "Central";
  schema = codes "public";
  table = codes "whatsapp_sales_order_drafts";
  scope = codes " ops ";
}

abbrev contract : GovernedRealtimeContract
contract = record {
  schema = codes "public";
  table = codes "whatsapp_sales_order_drafts";
  owning_application = codes "Central";
  consumers = codes "Central" ∷ codes "AI Studio" ∷ [];
  event_types = insert ∷ update ∷ [];
}

abbrev fresh_session : RealtimeConsumerSession
fresh_session = record {
  channel_name = codes "Central:public.whatsapp_sales_order_drafts:ops";
  contract = contract;
  snapshot_loaded = false;
  disposed = false;
  seen_versions = [];
}

abbrev key : Text
key = codes "public.whatsapp_sales_order_drafts:r1"

abbrev entry : Text → SeenVersionEntry
entry v = record { key = key; version = v }

abbrev loaded : Text → RealtimeConsumerSession
loaded v = record fresh_session { snapshot_loaded = true; seen_versions = entry v ∷ [] }

abbrev event : Text → RealtimeDeltaEvent
event v = record {
  schema = codes "public";
  table = codes "whatsapp_sales_order_drafts";
  row_id = codes "r1";
  event_type = update;
  version = v;
}

abbrev script : List Call
script =
    load (record { id = codes "r1"; version = codes "9" } ∷ [])
    ∷ delta (event (codes "10"))
    ∷ close
    ∷ close
    ∷ []

new_session_test : new_session scope ≡ ok fresh_session
unfolding new_session assert_authorized_realtime_subscription find_governed_realtime_contract
    text_eq codes build_scoped_channel_name trim
new_session_test = refl

key_test :
    row_version_key
      (event (codes "10")).schema
      (event (codes "10")).table
      (event (codes "10")).row_id
    ≡ ok key
unfolding row_version_key codes
key_test = refl

applied_test :
    apply_delta no_dates (loaded (codes "9")) (event (codes "10"))
    ≡ ok (loaded (codes "10"), applied)
unfolding apply_delta is_published_event_type text_eq codes row_version_key classify_delta_version
    find_seen_version compare_monotonic_versions upsert_seen_version
applied_test = refl

found_test : find_seen_version (loaded (codes "9")).seen_versions key ≡ some (codes "9")
unfolding find_seen_version text_eq codes
found_test = refl

stale_test :
    not_newer (compare_monotonic_versions no_dates (event (codes "8")).version (codes "9")) ≡ true
unfolding compare_monotonic_versions codes
stale_test = refl

compare_monotonic_versions_antisym_example :
    compare_monotonic_versions no_dates (codes "v9") (codes "V10")
    ≡ opposite (compare_monotonic_versions no_dates (codes "V10") (codes "v9"))
compare_monotonic_versions_antisym_example =
    compare_monotonic_versions_antisym no_dates (codes "v9") (codes "V10")

apply_delta_again_example :
    apply_delta no_dates (loaded (codes "10")) (event (codes "10"))
    ≡ ok (loaded (codes "10"), redelivered applied)
apply_delta_again_example =
    apply_delta_again no_dates (loaded (codes "9")) (loaded (codes "10")) (event (codes "10"))
      applied applied_test

apply_delta_applied_example : find_seen_version (loaded (codes "10")).seen_versions key ≡ (
    if text_eq key key
    then some (codes "10")
    else find_seen_version (loaded (codes "9")).seen_versions key)
apply_delta_applied_example =
    apply_delta_applied no_dates (loaded (codes "9")) (loaded (codes "10")) (event (codes "10")) key
      key applied_test key_test

abbrev deliveries : List RealtimeDeltaEvent
deliveries = event (codes "8") ∷ event (codes "10") ∷ event (codes "9") ∷ []

new_session-calls-IsConsistent_example : IsConsistent (calls no_dates fresh_session script).0
new_session-calls-IsConsistent_example =
    new_session-calls-IsConsistent no_dates scope fresh_session script new_session_test

new_session-cleanups_example :
    cleanups (calls no_dates fresh_session script).1
    ≡ (if (calls no_dates fresh_session script).0.disposed then 1 else 0)
new_session-cleanups_example =
    new_session-cleanups no_dates scope fresh_session script new_session_test

new_session-close_example :
    let closed = (call no_dates (calls no_dates fresh_session script).0 close).0 in
    (closed.disposed ≡ true)
    × (closed.seen_versions ≡ [])
    × ((calls no_dates closed script).0 ≡ closed)
    × ((calls no_dates closed script).1 ≡ map refusal script)
new_session-close_example =
    new_session-close no_dates scope fresh_session script script new_session_test

new_session_authorized_example :
    ((l r : List GovernedRealtimeContract) × (governed_realtime_contracts ≡ l ++ contract ∷ r))
    × (contract.schema ≡ scope.schema)
    × (contract.table ≡ scope.table)
    × (list_contains contract.consumers scope.consumer_application ≡ true)
new_session_authorized_example = new_session_authorized scope fresh_session new_session_test
