-- ===== src/Realtime/Newest.antt =====
-- The version of a row that a realtime session has seen, over a sequence of deltas.
use oasis_supabase_core.Prelude.{
  Bool, true, false, ◌&&◌, ◌||◌, ◌≡◌, Option, none, some, List, [], ◌∷◌, Text, text_eq,
  if◌then◌else◌,
}
use oasis_supabase_core.Realtime.{
  GovernedRealtimeContract, Checked, ok, fault, is_published_event_type,
}
use oasis_supabase_core.Realtime.Versions.{Platform, compare_monotonic_versions}
use oasis_supabase_core.Realtime.Session.{
  RealtimeConsumerSession, RealtimeDeltaEvent, not_newer, row_version_key,
}

abbrev is_key : Text → Checked Text → Bool
is_key row (ok key) = text_eq key row
is_key row (fault f) = false

-- The event is one of the contract's, and of the row with this key.
abbrev pub concerns : GovernedRealtimeContract → Text → RealtimeDeltaEvent → Bool
concerns contract row e =
    is_published_event_type contract e.event_type
    && text_eq e.schema contract.schema
    && text_eq e.table contract.table
    && is_key row (row_version_key e.schema e.table e.row_id)

module _ (p : Platform) where
  -- the newer of the version seen and another
  abbrev pub newest : Option Text → Text → Option Text
  newest none version = some version
  newest (some seen) version =
      if text_eq seen version || not_newer (compare_monotonic_versions p version seen)
      then some seen
      else some version

  -- the version seen of one row alone, after the events that concern it
  abbrev pub newest_of :
      GovernedRealtimeContract → Text → Option Text → List RealtimeDeltaEvent → Option Text
  newest_of contract row seen [] = seen
  newest_of contract row seen (e ∷ es) =
      newest_of contract row (if concerns contract row e then newest seen e.version else seen) es

  -- a loaded session, with the contract
  abbrev IsOpen : GovernedRealtimeContract → RealtimeConsumerSession → Type 0
  IsOpen contract s = (s.contract ≡ contract) × (s.disposed ≡ false) × (s.snapshot_loaded ≡ true)
