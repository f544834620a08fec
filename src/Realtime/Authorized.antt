-- ===== src/Realtime/Authorized.antt =====
-- For which tables and applications a realtime session exists.
use oasis_supabase_core.Prelude.{
  ◌≡◌, ap, ◌++◌, ◌&&◌, text_eq, Bool-cases, inl, inr, true, some, List, [], ◌∷◌, Text, arith,
  text_eq_iff, list_contains,
}
use oasis_supabase_core.Realtime.{
  governed_realtime_contracts, find_contract, find_governed_realtime_contract,
  GovernedRealtimeContract, assert_authorized_realtime_subscription, build_scoped_channel_name,
  RealtimeChannelScope, ok,
}
use oasis_supabase_core.Realtime.Session.{RealtimeConsumerSession, new_session}

find_contract_scope :
    (schema table : Text) (cs : List GovernedRealtimeContract) (c : GovernedRealtimeContract)
    → find_contract schema table cs ≡ some c
    → (c.schema ≡ schema) × (c.table ≡ table)
unfolding find_contract
find_contract_scope schema table [] c h = cc
find_contract_scope schema table (d ∷ ds) c h = ground (
  arith,
  find_contract_scope schema table ds c,
  text_eq_iff d.schema schema,
  text_eq_iff d.table table,
)

find_contract_listed :
    (schema table : Text) (cs : List GovernedRealtimeContract) (c : GovernedRealtimeContract)
    → find_contract schema table cs ≡ some c
    → (l r : List GovernedRealtimeContract) × (cs ≡ l ++ c ∷ r)
unfolding find_contract
find_contract_listed schema table [] c h = cc
find_contract_listed schema table (d ∷ ds) c h =
    elim (Bool-cases (text_eq d.schema schema && text_eq d.table table)) [
      | inl p ↦ ([], ds, ground arith)
      | inr p ↦
          let (l, r, e) = find_contract_listed schema table ds c (rw p at h) in
          (d ∷ l, r, ap (λ x. d ∷ x) e)
    ]

-- A session exists only for an allow-listed table: its contract is one of the allow-list, that of the
-- schema and table asked for, and lists the application that asks as a consumer.
pub new_session_authorized :
    (o : RealtimeChannelScope) (s : RealtimeConsumerSession)
    → new_session o ≡ ok s
    → ((l r : List GovernedRealtimeContract) × (governed_realtime_contracts ≡ l ++ s.contract ∷ r))
      × (s.contract.schema ≡ o.schema)
      × (s.contract.table ≡ o.table)
      × (list_contains s.contract.consumers o.consumer_application ≡ true)
unfolding new_session assert_authorized_realtime_subscription build_scoped_channel_name
    find_governed_realtime_contract
new_session_authorized o s h =
    let found : find_contract o.schema o.table governed_realtime_contracts ≡ some s.contract =
      ground arith in
    (
      find_contract_listed o.schema o.table governed_realtime_contracts s.contract found,
      ground (arith, find_contract_scope o.schema o.table governed_realtime_contracts s.contract),
      ground (arith, find_contract_scope o.schema o.table governed_realtime_contracts s.contract),
      ground arith,
    )
