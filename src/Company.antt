-- ===== src/Company.antt =====
-- supabase/functions/_shared/wa-governance/resolveWebhookCompany.ts: which company a message is
-- attributed to. Matching a regular expression is the platform's.
pub mod Resolve
pub mod Resolution
mod Tests
use oasis_supabase_core.Prelude.{
  ℕ, ◌+◌, Bool, true, false, ◌&&◌, ◌||◌, not, Option, none, some, List, [], ◌∷◌, ◌++◌, Text, codes,
  text_eq, nonempty, trim, to_lower, starts_with, list_contains, distinct, if◌then◌else◌,
}
use oasis_supabase_core.Prelude.Json.{
  Json, undefined, null, string, object, get, first, as_text, is_true,
}
use oasis_supabase_core.Prelude.Exec.{Exec, Result, ok, thrown, ◌>>=◌, pure}

pub data ResolutionStatus : Type 0 where
  resolved ambiguous unresolved : ResolutionStatus

-- What the details hold: the row's, a reason, or an error with the candidate sent.
pub data Details (C : Type 0) : Type 0 where
  of_row : (details : Json) → (confidence gst_number is_frozen : Json) → Details C
  reason : Text → Details C
  rpc_failed : Text → C → Details C

pub record GovernedCandidate : Type 0 where
  pub sender_is_verified_staff : Bool
  pub company_id : Option Text
  pub company_name : Option Text
  pub gst_number : Option Text
  pub multiple_gst_hints : Bool
  pub original_communicator_phone : Option Text

pub record WebhookCompanyResolution : Type 0 where
  pub company_id : Option Text
  pub company_name : Text
  pub account_manager_id : Option Text
  pub resolution_status : ResolutionStatus
  pub match_method : Option Text
  pub details : Details GovernedCandidate

pub record GovernedCustomerRow : Type 0 where
  pub company_id : Option Text
  pub business_name : Option Text
  pub gst_number : Json
  pub is_frozen : Json
  pub resolution_status : Option Text
  pub match_method : Option Text
  pub confidence : Json
  pub details : Json

pub record WebhookIdentityContext : Type 0 where
  pub contact_id : Text
  pub profile_name : Option Text
  pub message_body : Option Text
  pub sender_is_staff_proxy : Bool
  pub explicit_company_id : Option Text
  pub is_forwarded : Bool
  pub original_communicator_phone : Option Text

-- Truthiness of an optional text.
unfoldable pub present : Option Text → Option Text
present none = none
present (some []) = none
present (some (c ∷ s)) = some (c ∷ s)

unfoldable pub text_or : Option Text → Text → Text
text_or none d = d
text_or (some s) d = s

unfoldable pub or_else : Option Text → Option Text → Option Text
or_else none b = b
or_else (some a) b = some a

-- `match`: the first group of a pattern matched without regard to case, and the matches of `GST_PATTERN`.
pub record Patterns : Type 0 where
  pub first_group : Text → Text → Option Text
  pub gst_matches : Text → List Text
  pub to_upper_case : Text → Text

unfoldable pub trimmed_group : Option Text → Option Text
trimmed_group none = none
trimmed_group (some []) = none
trimmed_group (some (c ∷ s)) = some (trim (c ∷ s))

abbrev pub from_pattern : Text
from_pattern =
    codes "(?:from|for|m\\/s\\.?|client|company)\\s*[:\\-]?\\s*([A-Z][A-Za-z0-9 &.\\-]{2,40})"

abbrev pub trade_pattern : Text
trade_pattern =
    codes
      "([A-Z][A-Za-z]+(?:\\s+[A-Z][A-Za-z]+){0,3})\\s+(?:traders|enterprises|sweets|foods|catering|hotel|restaurant|stores|paharganj|bakery)"

abbrev pub order_for_pattern : Text
order_for_pattern =
    codes
      "(?:order\\s+for|client|customer|party|for\\s+M\\/s\\.?|for)\\s+[:\\-]?\\s*([A-Z0-9][A-Za-z0-9\\s&'.]+)"

abbrev pub wants_pattern : Text
wants_pattern = codes "([A-Z0-9][A-Za-z0-9\\s&'.]{3,})\\s+(?:ka|ke|ki|order|wants?|need)"

upper_all : (Text → Text) → List Text → List Text
upper_all f [] = []
upper_all f (x ∷ xs) = f x ∷ upper_all f xs

unfoldable pub only : List Text → Option Text
only (x ∷ []) = some x
only _ = none

unfoldable pub several : List Text → Bool
several (x ∷ y ∷ xs) = true
several _ = false

module _ (patterns : Patterns) where
  open patterns use {first_group, gst_matches, to_upper_case}

  unfoldable pub extract_company_name_from_text : Text → Option Text
  unfolding trimmed_group or_else
  extract_company_name_from_text [] = none
  extract_company_name_from_text (c ∷ s) =
      or_else (trimmed_group (first_group from_pattern (c ∷ s)))
        (trimmed_group (first_group trade_pattern (c ∷ s)))

  unfoldable pub extract_staff_mentioned_client : Text → Option Text
  unfolding trimmed_group or_else
  extract_staff_mentioned_client [] = none
  extract_staff_mentioned_client (c ∷ s) =
      or_else (trimmed_group (first_group order_for_pattern (c ∷ s)))
        (trimmed_group (first_group wants_pattern (c ∷ s)))

  unfoldable pub extract_all_gst_from_text : Text → List Text
  unfolding upper_all
  extract_all_gst_from_text [] = []
  extract_all_gst_from_text (c ∷ s) = distinct [] (upper_all to_upper_case (gst_matches (c ∷ s)))

  unfoldable pub extract_gst_from_text : Text → Option Text
  extract_gst_from_text text = only (extract_all_gst_from_text text)

  unfoldable pub build_governed_candidate : WebhookIdentityContext → GovernedCandidate
  build_governed_candidate input =
      let body = text_or input.message_body [] in
      let hints = extract_all_gst_from_text body in
      let mentioned =
        if input.sender_is_staff_proxy then extract_staff_mentioned_client body else none in
      record {
        sender_is_verified_staff = input.sender_is_staff_proxy;
        company_id = present input.explicit_company_id;
        company_name = present (or_else mentioned (extract_company_name_from_text body));
        gst_number = only hints;
        multiple_gst_hints = several hints;
        original_communicator_phone =
            if input.is_forwarded then present input.original_communicator_phone else none;
      }

unfoldable pub normalize_resolution_status : Option Text → ResolutionStatus
normalize_resolution_status none = unresolved
normalize_resolution_status (some s) =
    if text_eq s (codes "RESOLVED")
    then resolved
    else if text_eq s (codes "AMBIGUOUS")
    then ambiguous
    else unresolved

unfoldable pub id_if_resolved : ResolutionStatus → Option Text → Option Text
id_if_resolved resolved id = id
id_if_resolved _ id = none

-- `x ?? null`
or_null : Json → Json
or_null undefined = null
or_null v = v

unfoldable pub map_governed_customer_row : Option GovernedCustomerRow → WebhookCompanyResolution
unfolding or_null
map_governed_customer_row none = record {
  company_id = none;
  company_name = codes "Unknown";
  account_manager_id = none;
  resolution_status = unresolved;
  match_method = none;
  details = of_row null null null null;
}
map_governed_customer_row (some row) =
    let status = normalize_resolution_status row.resolution_status in
    record {
      company_id = id_if_resolved status row.company_id;
      company_name = text_or row.business_name (codes "Unknown");
      account_manager_id = as_text (get (codes "account_manager_id") row.details);
      resolution_status = status;
      match_method = row.match_method;
      details =
          of_row row.details (or_null row.confidence) (or_null row.gst_number)
            (or_null row.is_frozen);
    }

filled : Option Text → Bool
filled none = false
filled (some s) = nonempty (trim s)

unfoldable pub has_rpc_candidate_evidence : GovernedCandidate → Bool
unfolding filled
has_rpc_candidate_evidence c =
    filled c.company_id || filled c.gst_number || c.multiple_gst_hints || filled c.company_name

unfoldable pub should_block_sender_phone_inference : WebhookIdentityContext → Bool
should_block_sender_phone_inference input = input.sender_is_staff_proxy || input.is_forwarded
