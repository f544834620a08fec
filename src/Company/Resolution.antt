-- ===== src/Company/Resolution.antt =====
-- When a message is attributed to a company.
use oasis_supabase_core.Prelude.{
  ◌≡◌, refl, true, ◌&&◌, not, Option, none, some, Text, codes, text_eq, text_eq_iff, Bool-cases,
  inl, inr, arith,
}
use oasis_supabase_core.Prelude.Exec.{ok, pure, continue_ok}
use oasis_supabase_core.Company.{
  ResolutionStatus, resolved, ambiguous, unresolved, GovernedCustomerRow, GovernedCandidate,
  WebhookCompanyResolution, WebhookIdentityContext, Patterns, present, map_governed_customer_row,
  normalize_resolution_status, id_if_resolved, build_governed_candidate,
  should_block_sender_phone_inference, has_rpc_candidate_evidence,
}
use oasis_supabase_core.Company.Resolve.{
  Database, Answer, answered, errored, with_manager, not_resolved, read_manager, with_status,
  after_rpc, resolve_webhook_company, unresolved_because,
}

-- The governed row that attributes a message to a company.
pub record IsGoverned (answer : Answer (Option GovernedCustomerRow)) (company_id : Text)
    : Type 0 where
  pub row : GovernedCustomerRow
  pub is_answer : answer ≡ answered (some row)
  pub is_resolved : row.resolution_status ≡ some (codes "RESOLVED")
  pub is_company : row.company_id ≡ some company_id

normalize_resolved :
    (o : Option Text) → normalize_resolution_status o ≡ resolved → o ≡ some (codes "RESOLVED")
unfolding normalize_resolution_status
normalize_resolved none e = cc
normalize_resolved (some s) e = elim (Bool-cases (text_eq s (codes "RESOLVED"))) [
  | inl h ↦ ground (arith, text_eq_iff s (codes "RESOLVED"))
  | inr h ↦ absurd (ground arith)
]

id_resolved :
    (status : ResolutionStatus) (o : Option Text) (id : Text)
    → id_if_resolved status o ≡ some id
    → (status ≡ resolved) × (o ≡ some id)
unfolding id_if_resolved
id_resolved resolved o id e = (refl, e)
id_resolved ambiguous o id e = cc
id_resolved unresolved o id e = cc

map-IsGoverned :
    (o : Option GovernedCustomerRow) (id : Text)
    → (map_governed_customer_row o).company_id ≡ some id
    → IsGoverned (answered o) id
unfolding map_governed_customer_row
map-IsGoverned none id e = cc
map-IsGoverned (some row) id e =
    let (status, same) =
      id_resolved (normalize_resolution_status row.resolution_status) row.company_id id e in
    record {
      row = row;
      is_answer = refl;
      is_resolved = normalize_resolved row.resolution_status status;
      is_company = same;
    }

with_manager_company :
    (m : WebhookCompanyResolution) (o : Option Text) → (with_manager m o).company_id ≡ m.company_id
unfolding with_manager
with_manager_company m none = refl
with_manager_company m (some t) = refl

module _ (patterns : Patterns) {S : Type 0} (db : Database S) where
  read_manager_company :
      (m : WebhookCompanyResolution) (o : Option Text) (s : S) (r : WebhookCompanyResolution)
      → (read_manager patterns db m o s).0 ≡ ok r
      → r.company_id ≡ m.company_id
  unfolding read_manager
  read_manager_company m none s r e = cc
  read_manager_company m (some id) s r e =
      let (t, found, same) =
        continue_ok (db.account_manager_of id s).0 (λ t. pure (with_manager m (present t)))
          (db.account_manager_of id s).1 r e in
      ground (arith, with_manager_company m (present t))

  with_status_company :
      (input : WebhookIdentityContext) (status : ResolutionStatus) (m : WebhookCompanyResolution)
      (s : S) (r : WebhookCompanyResolution) (id : Text)
      → (with_status patterns db input status m s).0 ≡ ok r
      → r.company_id ≡ some id
      → m.company_id ≡ some id
  unfolding with_status not_resolved
  with_status_company input resolved m s r id e c =
      ground (arith, read_manager_company m (present m.company_id) s r e)
  with_status_company input ambiguous m s r id e c = absurd (ground arith)
  with_status_company input unresolved m s r id e c = absurd (ground arith)

  after_rpc-IsGoverned :
      (input : WebhookIdentityContext) (candidate : GovernedCandidate)
      (answer : Answer (Option GovernedCustomerRow)) (s : S) (r : WebhookCompanyResolution)
      (id : Text)
      → (after_rpc patterns db input candidate answer s).0 ≡ ok r
      → r.company_id ≡ some id
      → IsGoverned answer id
  unfolding after_rpc unresolved_because
  after_rpc-IsGoverned input candidate (errored message) s r id e c = absurd (ground arith)
  after_rpc-IsGoverned input candidate (answered row) s r id e c =
      let mapped = map_governed_customer_row row in
      map-IsGoverned row id (with_status_company input mapped.resolution_status mapped s r id e c)

  -- A message is attributed to a company only when the governed resolver, asked for the sender and the
  -- candidate built from the message, answers with a row that is `RESOLVED` and names that company;
  -- and a relayed or forwarded message is only when its candidate carries evidence of its own.
  pub resolve_company-IsGoverned :
      (input : WebhookIdentityContext) (s : S) (r : WebhookCompanyResolution) (id : Text)
      → (resolve_webhook_company patterns db input s).0 ≡ ok r
      → r.company_id ≡ some id
      → (answer : Answer (Option GovernedCustomerRow)) × ((db.resolve_governed_customer
            input.contact_id
            (build_governed_candidate patterns input)
            s).0
          ≡ ok answer)
        × IsGoverned answer id
        × (should_block_sender_phone_inference input ≡ true
            → has_rpc_candidate_evidence (build_governed_candidate patterns input) ≡ true)
  unfolding resolve_webhook_company unresolved_because
  resolve_company-IsGoverned input s r id e c =
      let candidate = build_governed_candidate patterns input in
      let blocked =
        should_block_sender_phone_inference input && not (has_rpc_candidate_evidence candidate) in
      elim (Bool-cases blocked) [
        | inl h ↦ absurd (ground arith)
        | inr h ↦
            let call = db.resolve_governed_customer input.contact_id candidate s in
            let (answer, asked, rest) =
              continue_ok call.0 (after_rpc patterns db input candidate) call.1 r (rw h at e) in
            (
              answer,
              asked,
              after_rpc-IsGoverned input candidate answer call.1 r id rest c,
              λ b. ground arith,
            )
      ]
