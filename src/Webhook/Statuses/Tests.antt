-- ===== src/Webhook/Statuses/Tests.antt =====
-- A Meta payload with one good and two malformed statuses, sent through the Click2API door.
use oasis_supabase_core.Webhook.Security.{timing_safe_equal}
use oasis_supabase_core.Webhook.Security.{verify_challenge_token}
use oasis_supabase_core.OperatorReply.Delivery.{bounded_error}
use oasis_supabase_core.Webhook.Statuses.{bounded_error_code}
use oasis_supabase_core.Webhook.Statuses.{add_status}
use oasis_supabase_core.Webhook.Statuses.{push_quarantine}
use oasis_supabase_core.Webhook.Statuses.{decode_status}
use oasis_supabase_core.Prelude.{text_eq}
use oasis_supabase_core.Prelude.{◌≡◌, refl, ◌-◌, min, [], ◌∷◌, some, none, codes, Text, length}
use oasis_supabase_core.Prelude.Json.{
  Json, string, array, object, nil, cons, end, field, number, null,
}
use oasis_supabase_core.Webhook.Security.{Platform, verified}
use oasis_supabase_core.Webhook.Statuses.{
  decode_entries, detect_webhook_status_events_with_quarantine, WebhookRequest,
  authenticate_and_parse_webhook, missing_status, non_object, detect_webhook_status_events,
  head_event,
}
use oasis_supabase_core.Webhook.Statuses.Bounds.{
  decode_entries_events, accepted_all, provider_statuses,
}
use oasis_supabase_core.Webhook.Statuses.Diagnostics.{decode_entries_diagnostics}
use oasis_supabase_core.Webhook.Statuses.Boundary.{authenticate_parsed, authentication}

abbrev status_read : Json
status_read =
    object (
      field (codes "id") (string (codes "w1")) (field (codes "status") (string (codes "read")) end))

abbrev without_status : Json
without_status = object (field (codes "id") (string (codes "w2")) end)

abbrev wrap : Text → Json → Json
wrap key value = object (field key value end)

abbrev payload_of : Json → Json
payload_of statuses = wrap (codes "entry") (
    array (
      cons
        (wrap (codes "changes")
          (array (cons (wrap (codes "value") (wrap (codes "statuses") statuses)) nil)))
        nil))

abbrev meta : Json
meta = payload_of (array (cons without_status (cons status_read (cons null nil))))

meta_quarantined : (decode_entries meta).quarantined ≡ missing_status ∷ non_object ∷ []
unfolding decode_entries text_eq codes decode_status push_quarantine add_status
meta_quarantined = refl

meta_events :
    detect_webhook_status_events meta
    ≡ record {
      status = codes "read";
      provider_message_id = some (codes "w1");
      provider_error_code = none;
    }
      ∷ []
unfolding detect_webhook_status_events detect_webhook_status_events_with_quarantine text_eq codes
    decode_status push_quarantine add_status bounded_error_code
meta_events = refl

click2api_events_test :
    detect_webhook_status_events (
      wrap (codes "message") (
        object (
          field
            (codes "message_status")
            (string (codes "failed"))
            (field (codes "error_code") (number (codes "131047")) end))))
    ≡ record {
      status = codes "failed";
      provider_message_id = none;
      provider_error_code = some (codes "131047");
    }
      ∷ []
unfolding detect_webhook_status_events detect_webhook_status_events_with_quarantine text_eq codes
    bounded_error_code bounded_error
click2api_events_test = refl

abbrev test_platform : Platform
test_platform = record { encode = λ s. s; hmac_sha256 = λ key body. [] }

abbrev request : WebhookRequest
request = record {
  raw_body = 123 ∷ 125 ∷ [];
  source = some (codes "click2api");
  token = some (codes "t");
  signature_header = none;
  verify_token = some (codes "t");
  app_secret = none;
}

decode_entries_events_example : (decode_entries meta).events ≡ accepted_all (provider_statuses meta)
decode_entries_events_example = decode_entries_events meta

decode_entries_diagnostics_example :
    length (decode_entries meta).quarantined
    ≡ min 16 (length (provider_statuses meta) - length (decode_entries meta).events)
decode_entries_diagnostics_example = decode_entries_diagnostics meta

authenticate_parsed_example :
    (authentication test_platform (λ body. some meta) request ≡ verified)
    × (some meta ≡ some meta)
    × (detect_webhook_status_events_with_quarantine meta
        ≡ detect_webhook_status_events_with_quarantine meta)
    × (head_event (detect_webhook_status_events_with_quarantine meta).events
        ≡ head_event (detect_webhook_status_events_with_quarantine meta).events)
unfolding authenticate_and_parse_webhook text_eq codes verify_challenge_token timing_safe_equal
authenticate_parsed_example =
    authenticate_parsed test_platform (λ body. some meta) request meta
      (head_event (detect_webhook_status_events_with_quarantine meta).events)
      (detect_webhook_status_events_with_quarantine meta) refl
