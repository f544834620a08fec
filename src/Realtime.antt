-- ===== src/Realtime.antt =====
-- contracts/point23/realtimeChannelContract.ts: governed realtime channels and the consumer session.
-- Error messages are not modelled; an error is its class.
pub mod Versions
pub mod Session
pub mod Replay
pub mod Lifecycle
pub mod Authorized
pub mod Newest
mod Tests
use oasis_supabase_core.Prelude.{
  Bool, true, false, ◌&&◌, ◌||◌, not, Option, none, some, List, [], ◌∷◌, ◌++◌, Text, codes, text_eq,
  trim, nonempty, list_contains, if◌then◌else◌,
}

pub data EventType : Type 0 where
  insert update delete : EventType

pub record GovernedRealtimeContract : Type 0 where
  pub schema : Text
  pub table : Text
  pub owning_application : Text
  pub consumers : List Text
  pub event_types : List EventType

abbrev governed : Text → GovernedRealtimeContract
governed table = record {
  schema = codes "public";
  table = table;
  owning_application = codes "Central";
  consumers = codes "Central" ∷ codes "AI Studio" ∷ [];
  event_types = insert ∷ update ∷ [];
}

abbrev pub governed_realtime_contracts : List GovernedRealtimeContract
governed_realtime_contracts =
    governed (codes "whatsapp_inbound_messages")
    ∷ governed (codes "whatsapp_operator_decisions")
    ∷ governed (codes "whatsapp_sales_order_drafts")
    ∷ []

pub record RealtimeChannelScope : Type 0 where
  pub consumer_application : Text
  pub schema : Text
  pub table : Text
  pub scope : Text

pub data Fault : Type 0 where
  unauthorized_channel snapshot_before_delta session_disposed scope_required : Fault

pub data Checked {ℓ} (A : Type ℓ) : Type ℓ where
  ok : A → Checked A
  fault : Fault → Checked A

find_contract : Text → Text → List GovernedRealtimeContract → Option GovernedRealtimeContract
find_contract schema table [] = none
find_contract schema table (c ∷ cs) =
    if text_eq c.schema schema && text_eq c.table table
    then some c
    else find_contract schema table cs

unfoldable pub find_governed_realtime_contract : Text → Text → Option GovernedRealtimeContract
unfolding find_contract
find_governed_realtime_contract schema table =
    find_contract schema table governed_realtime_contracts

unfoldable pub build_scoped_channel_name : RealtimeChannelScope → Checked Text
build_scoped_channel_name s =
    if not (nonempty (trim s.consumer_application) && nonempty (trim s.scope))
    then fault scope_required
    else ok (
        trim s.consumer_application
        ++ (b':' ∷ (s.schema ++ (b'.' ∷ (s.table ++ (b':' ∷ trim s.scope))))))

unfoldable pub assert_authorized_realtime_subscription :
    RealtimeChannelScope → Checked GovernedRealtimeContract
assert_authorized_realtime_subscription s =
    elim (find_governed_realtime_contract s.schema s.table) [
      | none ↦ fault unauthorized_channel
      | some c ↦
          if list_contains c.consumers s.consumer_application
          then ok c
          else fault unauthorized_channel
    ]

same_type : EventType → EventType → Bool
same_type insert insert = true
same_type update update = true
same_type delete delete = true
same_type _ _ = false

includes_type : List EventType → EventType → Bool
unfolding same_type
includes_type [] t = false
includes_type (u ∷ us) t = same_type u t || includes_type us t

unfoldable pub is_published_event_type : GovernedRealtimeContract → EventType → Bool
unfolding includes_type
is_published_event_type c t = includes_type c.event_types t
