-- ===== src/Company/Tests.antt =====
-- A relayed message with and without evidence, and a resolved company.
use oasis_supabase_core.Prelude.{distinct, trim}
use oasis_supabase_core.Prelude.{text_eq}
use oasis_supabase_core.Prelude.{
  ◌≡◌, refl, ap, Option, some, none, [], ◌∷◌, Text, codes, true, false, to_upper,
}
use oasis_supabase_core.Prelude.Json.{null}
use oasis_supabase_core.Prelude.Exec.{ok}
use oasis_supabase_core.Company.{
  GovernedCustomerRow, Patterns, WebhookCompanyResolution, WebhookIdentityContext,
  build_governed_candidate, extract_all_gst_from_text, extract_company_name_from_text,
  extract_gst_from_text, extract_staff_mentioned_client, has_rpc_candidate_evidence, id_if_resolved,
  map_governed_customer_row, normalize_resolution_status, only, or_else, present, reason, several,
  should_block_sender_phone_inference, text_or, unresolved,
}
use oasis_supabase_core.Company.Resolve.{Answer, Database, answered, resolve_webhook_company}
use oasis_supabase_core.Company.Resolution.{IsGoverned, resolve_company-IsGoverned}

-- no pattern matches, and the text `gst` is taken for a GSTIN
abbrev test_patterns : Patterns
test_patterns = record {
  first_group = λ pattern text. none;
  gst_matches = λ text. text ∷ text ∷ [];
  to_upper_case = to_upper;
}

abbrev governed_row : GovernedCustomerRow
governed_row = record {
  company_id = some (codes "c1");
  business_name = some (codes "Sweets");
  gst_number = null;
  is_frozen = null;
  resolution_status = some (codes "RESOLVED");
  match_method = some (codes "GST");
  confidence = null;
  details = null;
}

abbrev test_database : Database Unit
test_database = record {
  resolve_governed_customer = λ contact candidate s. (ok (answered (some governed_row)), s);
  account_manager_of = λ id s. (ok (some (codes "m1")), s);
}

abbrev relayed : Option Text → WebhookIdentityContext
relayed body = record {
  contact_id = codes "w1";
  profile_name = some (codes "Staff");
  message_body = body;
  sender_is_staff_proxy = true;
  explicit_company_id = none;
  is_forwarded = false;
  original_communicator_phone = none;
}

-- what the governed row gives, with the manager read from the company
abbrev governed : WebhookCompanyResolution
governed = record (map_governed_customer_row (some governed_row)) {
  account_manager_id = some (codes "m1");
}

blocked_test : resolve_webhook_company test_patterns test_database (relayed none) tt ≡ (
  ok (record {
    company_id = none;
    company_name = codes "Staff";
    account_manager_id = none;
    resolution_status = unresolved;
    match_method = some (codes "SENDER_PHONE_INFERENCE_BLOCKED");
    details = reason (codes "relay_or_forwarded_without_candidate");
  }),
  tt,
)
unfolding resolve_webhook_company should_block_sender_phone_inference has_rpc_candidate_evidence
    build_governed_candidate present only extract_all_gst_from_text text_or several or_else
    extract_staff_mentioned_client extract_company_name_from_text
blocked_test = refl

gst_test : extract_gst_from_text test_patterns (codes "gst") ≡ some (codes "GST")
unfolding extract_gst_from_text only extract_all_gst_from_text codes distinct text_eq to_upper
gst_test = refl

resolved_test :
    resolve_webhook_company test_patterns test_database (relayed (some (codes "gst"))) tt
    ≡ (ok governed, tt)
unfolding resolve_webhook_company should_block_sender_phone_inference has_rpc_candidate_evidence
    build_governed_candidate present only extract_all_gst_from_text text_or codes distinct text_eq
    to_upper trim map_governed_customer_row normalize_resolution_status id_if_resolved
resolved_test = refl

resolve_company-IsGoverned_example :
    (answer : Answer (Option GovernedCustomerRow)) × (ok (answered (some governed_row)) ≡ ok answer)
    × IsGoverned answer (codes "c1")
    × (should_block_sender_phone_inference (relayed (some (codes "gst"))) ≡ true
        → has_rpc_candidate_evidence
            (build_governed_candidate test_patterns (relayed (some (codes "gst"))))
          ≡ true)
unfolding map_governed_customer_row id_if_resolved normalize_resolution_status text_eq codes
resolve_company-IsGoverned_example =
    resolve_company-IsGoverned test_patterns test_database (relayed (some (codes "gst"))) tt
      governed (codes "c1") (ap (λ p. p.0) resolved_test) refl
