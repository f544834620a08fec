-- ===== src/Bridge/Tests.antt =====
-- A session from a verified payload, a refusal, and the phone in its normal form.
use oasis_supabase_core.Bridge.Identity.{public_members, sanitize_lookup}
use oasis_supabase_core.Bridge.{as_record}
use oasis_supabase_core.Prelude.{trim}
use oasis_supabase_core.Prelude.Json.{as_text}
use oasis_supabase_core.Prelude.{text_eq}
use oasis_supabase_core.Prelude.Json.{get}
use oasis_supabase_core.Prelude.Json.{is_true}
use oasis_supabase_core.Bridge.{classify_verified_payload}
use oasis_supabase_core.Prelude.{
  ◌≡◌, refl, some, none, [], codes, true, if◌then◌else◌, list_contains,
}
use oasis_supabase_core.Prelude.Json.{
  Json, null, string, boolean, object, field, end, undefined, field_of, Fields,
}
use oasis_supabase_core.Prelude.Exec.{ok}
use oasis_supabase_core.Bridge.{
  BridgeDeps, failure, validate_bridge_request, invalid, normalize_indian_verified_phone,
  internal_phone_alias_email, mask_phone_for_logs, sanitize_bridge_response_body,
  extract_provider_verified_phone,
}
use oasis_supabase_core.Bridge.Session.{resolve_bridge_session}

abbrev verified_fields : Fields
verified_fields = field (codes "ok") (boolean true) (
    field (codes "type") (string (codes "success")) (
      field (codes "user_id") (string (codes "u1")) (
        field (codes "email") (string (codes "e1"))
          (field (codes "phone") (string (codes "p1")) end))))

-- the legacy function answers with a payload, and a token is minted
abbrev deps : Json → BridgeDeps Unit
deps payload = record {
  supabase_url = codes "https://x";
  service_role_key = codes "k";
  mint_token_hash = λ email s. (ok (some (codes "h1")), s);
  recover_legacy_placeholder = none;
  fetch = λ request s. (ok (record { status = 200; is_ok = true; json = some payload }), s);
  stringify = λ v. [];
}

unverified_test :
    resolve_bridge_session (deps null) (codes "t") tt
    ≡ (ok (failure (codes "provider_verification_failed")), tt)
unfolding resolve_bridge_session codes classify_verified_payload is_true get
unverified_test = refl

mode_test : validate_bridge_request (object end) ≡ invalid (codes "unsupported_mode")
unfolding validate_bridge_request as_text get
mode_test = refl

phone_test :
    normalize_indian_verified_phone (some (codes "98765 43210")) ≡ some (codes "+919876543210")
unfolding normalize_indian_verified_phone codes
phone_test = refl

alias_test :
    internal_phone_alias_email (codes "9876543210") ≡ some (codes "919876543210@phone.oasis.local")
unfolding internal_phone_alias_email normalize_indian_verified_phone codes
alias_test = refl

mask_test : mask_phone_for_logs (codes "+91 98765") ≡ codes "***8765"
unfolding codes mask_phone_for_logs
mask_test = refl

extract_test :
    extract_provider_verified_phone (
      object
        (field (codes "message") (object (field (codes "mobile") (string (codes " 98 ")) end)) end))
    ≡ some (codes "98")
unfolding extract_provider_verified_phone trim as_text get as_record text_eq codes
extract_test = refl

sanitize_lookup_example :
    (field_of (codes "user_id") (sanitize_bridge_response_body verified_fields) ≡ (
      if list_contains public_members (codes "user_id")
      then field_of (codes "user_id") verified_fields
      else undefined))
    × (field_of (codes "email") (sanitize_bridge_response_body verified_fields) ≡ undefined)
sanitize_lookup_example = sanitize_lookup (codes "user_id") verified_fields
