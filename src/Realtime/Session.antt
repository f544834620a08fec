-- ===== src/Realtime/Session.antt =====
-- The consumer session of realtimeChannelContract.ts. A method returns the new session beside its
-- result; the `onCleanup` callback is the text that `dispose` hands it.
use oasis_supabase_core.Prelude.{
  ℕ, Bool, true, false, ◌&&◌, ◌||◌, not, Option, none, some, List, [], ◌∷◌, ◌++◌, Text, text_eq,
  leb, is_digit, ◌==◌, if◌then◌else◌,
}
use oasis_supabase_core.Realtime.{
  EventType, GovernedRealtimeContract, RealtimeChannelScope, unauthorized_channel,
  snapshot_before_delta, session_disposed, Checked, ok, fault, build_scoped_channel_name,
  assert_authorized_realtime_subscription, is_published_event_type,
}
use oasis_supabase_core.Realtime.Versions.{
  Platform, Comparison, older, same, newer, compare_monotonic_versions,
}

pub record SeenVersionEntry : Type 0 where
  pub key : Text
  pub version : Text

pub record RealtimeDeltaEvent : Type 0 where
  pub schema : Text
  pub table : Text
  pub row_id : Text
  pub event_type : EventType
  pub version : Text

pub data RealtimeDeltaDisposition : Type 0 where
  applied duplicate rejected_unauthorized_event : RealtimeDeltaDisposition

pub record Row : Type 0 where
  pub id : Text
  pub version : Text

pub record RealtimeConsumerSession : Type 0 where
  pub channel_name : Text
  pub contract : GovernedRealtimeContract
  pub snapshot_loaded : Bool
  pub disposed : Bool
  pub seen_versions : List SeenVersionEntry

is_name_unit : ℕ → Bool
is_name_unit c = (leb b'a' c && leb c b'z') || is_digit c || c == b'_'

-- `[^:]+$`
no_colon : Text → Bool
no_colon [] = true
no_colon (c ∷ s) = not (c == b':') && no_colon s

row_part : Text → Bool
unfolding no_colon
row_part [] = false
row_part (c ∷ s) = no_colon (c ∷ s)

-- `[a-z0-9_]*`, then the unit, then what the continuation wants
name_then : ℕ → (Text → Bool) → Text → Bool
unfolding is_name_unit
name_then end later [] = false
name_then end later (c ∷ s) =
    let more = name_then end later s in if is_name_unit c then more else c == end && later s

-- `[a-z0-9_]+` and the rest; the unit that ends a name is not a name unit
name_1_then : ℕ → (Text → Bool) → Text → Bool
unfolding name_then is_name_unit
name_1_then end later [] = false
name_1_then end later (c ∷ s) = is_name_unit c && name_then end later s

-- `/^[a-z0-9_]+\.[a-z0-9_]+:[^:]+$/`
unfoldable pub is_row_key : Text → Bool
unfolding row_part name_1_then
is_row_key = name_1_then b'.' (name_1_then b':' row_part)

unfoldable pub row_version_key : Text → Text → Text → Checked Text
unfolding is_row_key
row_version_key schema table row_id =
    let key = schema ++ (b'.' ∷ (table ++ (b':' ∷ row_id))) in
    if not (is_row_key key) then fault unauthorized_channel else ok key

unfoldable pub find_seen_version : List SeenVersionEntry → Text → Option Text
find_seen_version [] key = none
find_seen_version (e ∷ es) key =
    if text_eq e.key key then some e.version else find_seen_version es key

unfoldable pub without_key : List SeenVersionEntry → Text → List SeenVersionEntry
without_key [] key = []
without_key (e ∷ es) key =
    let rest = without_key es key in if not (text_eq e.key key) then e ∷ rest else rest

unfoldable pub upsert_seen_version : List SeenVersionEntry → Text → Text → List SeenVersionEntry
unfolding without_key
upsert_seen_version es key version =
    without_key es key ++ record { key = key; version = version } ∷ []

-- `compare(version, seen) <= 0`
abbrev pub not_newer : Comparison → Bool
not_newer older = true
not_newer same = true
not_newer newer = false

module _ (platform : Platform) where
  unfoldable pub against_seen :
      Option Text
      → List SeenVersionEntry
      → Text
      → Text
      → RealtimeDeltaDisposition × List SeenVersionEntry
  against_seen none es key version = (applied, upsert_seen_version es key version)
  against_seen (some seen) es key version =
      if text_eq seen version || not_newer (compare_monotonic_versions platform version seen)
      then (duplicate, es)
      else (applied, upsert_seen_version es key version)

  unfoldable pub classify_delta_version :
      List SeenVersionEntry → Text → Text → RealtimeDeltaDisposition × List SeenVersionEntry
  unfolding against_seen
  classify_delta_version es key version = against_seen (find_seen_version es key) es key version

-- the constructor
unfoldable pub new_session : RealtimeChannelScope → Checked RealtimeConsumerSession
new_session options = elim (assert_authorized_realtime_subscription options) [
  | fault f ↦ fault f
  | ok contract ↦ elim (build_scoped_channel_name options) [
    | fault f ↦ fault f
    | ok name ↦ ok (record {
      channel_name = name;
      contract = contract;
      snapshot_loaded = false;
      disposed = false;
      seen_versions = [];
    })
  ]
]

-- the loop of `loadSnapshot`; a bad key throws before the session changes
snapshot_entries : Text → Text → List Row → Checked (List SeenVersionEntry)
snapshot_entries schema table [] = ok []
snapshot_entries schema table (r ∷ rs) = elim (row_version_key schema table r.id) [
  | fault f ↦ fault f
  | ok key ↦ elim (snapshot_entries schema table rs) [
    | fault f ↦ fault f
    | ok es ↦ ok (record { key = key; version = r.version } ∷ es)
  ]
]

unfoldable pub load_snapshot : RealtimeConsumerSession → List Row → Checked RealtimeConsumerSession
unfolding snapshot_entries
load_snapshot s rows =
    if s.disposed
    then fault session_disposed
    else elim (snapshot_entries s.contract.schema s.contract.table rows) [
      | fault f ↦ fault f
      | ok es ↦ ok (record s { seen_versions = es; snapshot_loaded = true })
    ]

module _ (platform : Platform) where
  unfoldable pub apply_delta :
      RealtimeConsumerSession
      → RealtimeDeltaEvent
      → Checked (RealtimeConsumerSession × RealtimeDeltaDisposition)
  apply_delta s event =
      if s.disposed
      then fault session_disposed
      else if not s.snapshot_loaded
      then fault snapshot_before_delta
      else if not (is_published_event_type s.contract event.event_type)
      then ok (s, rejected_unauthorized_event)
      else if not (text_eq event.schema s.contract.schema)
          || not (text_eq event.table s.contract.table)
      then ok (s, rejected_unauthorized_event)
      else elim (row_version_key event.schema event.table event.row_id) [
        | fault f ↦ fault f
        | ok key ↦
            let result = classify_delta_version platform s.seen_versions key event.version in
            ok (record s { seen_versions = result.1 }, result.0)
      ]

-- the session and the argument of the callback, if it is called
unfoldable pub dispose : RealtimeConsumerSession → RealtimeConsumerSession × Option Text
dispose s = if s.disposed then (s, none) else (
  record s { disposed = true; seen_versions = []; snapshot_loaded = false },
  some s.channel_name,
)
