-- ===== src/Company/Resolve.antt =====
-- supabase/functions/_shared/wa-governance/resolveWebhookCompany.ts: the resolution by the governed
-- resolver. The two database calls are parameters.
use oasis_supabase_core.Prelude.{◌&&◌, not, Option, none, some, Text, codes, if◌then◌else◌}
use oasis_supabase_core.Prelude.Exec.{Exec, ok, ◌>>=◌, pure}
use oasis_supabase_core.Company.{
  ResolutionStatus, Details, GovernedCandidate, WebhookCompanyResolution, GovernedCustomerRow,
  WebhookIdentityContext, present, text_or, Patterns, build_governed_candidate,
  map_governed_customer_row, has_rpc_candidate_evidence, should_block_sender_phone_inference,
  resolved, unresolved, reason, rpc_failed,
}

unfoldable pub unresolved_because :
    WebhookIdentityContext → Text → Details GovernedCandidate → WebhookCompanyResolution
unresolved_because input method details = record {
  company_id = none;
  company_name = text_or input.profile_name (codes "Unknown");
  account_manager_id = none;
  resolution_status = unresolved;
  match_method = some method;
  details = details;
}

-- The answer of an RPC or of a query.
pub data Answer (A : Type 0) : Type 0 where
  answered : A → Answer A
  errored : Text → Answer A

pub record Database (S : Type 0) : Type 0 where
  pub resolve_governed_customer :
      (contact_id : Text) → GovernedCandidate → Exec S (Answer (Option GovernedCustomerRow))
  -- the `account_manager_id` of a company, where its row has one
  pub account_manager_of : Text → Exec S (Option Text)

unfoldable pub with_manager : WebhookCompanyResolution → Option Text → WebhookCompanyResolution
with_manager mapped none = mapped
with_manager mapped (some m) = record mapped { account_manager_id = some m }

unfoldable pub not_resolved :
    WebhookIdentityContext → WebhookCompanyResolution → WebhookCompanyResolution
not_resolved input mapped = record mapped {
  company_name = text_or input.profile_name mapped.company_name;
  company_id = none;
}

module _ (patterns : Patterns) {S : Type 0} (db : Database S) where
  unfoldable pub read_manager :
      WebhookCompanyResolution → Option Text → Exec S WebhookCompanyResolution
  unfolding with_manager
  read_manager mapped none = pure mapped
  read_manager mapped (some id) =
      db.account_manager_of id >>= λ m. pure (with_manager mapped (present m))

  unfoldable pub with_status :
      WebhookIdentityContext
      → ResolutionStatus
      → WebhookCompanyResolution
      → Exec S WebhookCompanyResolution
  unfolding not_resolved read_manager
  with_status input resolved mapped = read_manager mapped (present mapped.company_id)
  with_status input _ mapped = pure (not_resolved input mapped)

  unfoldable pub after_rpc :
      WebhookIdentityContext
      → GovernedCandidate
      → Answer (Option GovernedCustomerRow)
      → Exec S WebhookCompanyResolution
  unfolding with_status unresolved_because
  after_rpc input candidate (errored message) =
      pure (unresolved_because input (codes "RPC_ERROR") (rpc_failed message candidate))
  after_rpc input candidate (answered row) =
      let mapped = map_governed_customer_row row in
      with_status input mapped.resolution_status mapped

  unfoldable pub resolve_webhook_company : WebhookIdentityContext → Exec S WebhookCompanyResolution
  unfolding after_rpc unresolved_because
  resolve_webhook_company input s =
      let candidate = build_governed_candidate patterns input in
      if should_block_sender_phone_inference input && not (has_rpc_candidate_evidence candidate)
      then (
        ok (
            unresolved_because input (codes "SENDER_PHONE_INFERENCE_BLOCKED")
              (reason (codes "relay_or_forwarded_without_candidate"))),
        s,
      )
      else (db.resolve_governed_customer input.contact_id candidate >>= λ answer.
            after_rpc input candidate answer)
          s
