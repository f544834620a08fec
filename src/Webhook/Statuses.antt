-- ===== src/Webhook/Statuses.antt =====
-- supabase/functions/_shared/whatsappWebhookBoundary.ts: decoding provider statuses, and the boundary
-- that authenticates and parses a request. URL and JSON parsing are the platform's.
pub mod Boundary
pub mod Bounds
pub mod Diagnostics
mod Tests
use oasis_supabase_core.Prelude.{
  ℕ, zero, suc, ◌+◌, Bool, true, false, ◌&&◌, ◌||◌, not, Option, none, some, List, [], ◌∷◌, ◌++◌,
  Text, codes, text_eq, take, length, ltb, ◌==◌, if◌then◌else◌,
}
use oasis_supabase_core.Prelude.Json.{
  Json, undefined, null, number, string, array, object, get, first, as_array, as_text,
}
use oasis_supabase_core.OperatorReply.Delivery.{ProviderStatusEvent, bounded_error}
use oasis_supabase_core.Webhook.Security.{
  Platform, VerificationResult, verified, refused, verify_challenge_token, verify_meta_signature,
}

pub data StatusElementQuarantineReason : Type 0 where
  non_object missing_status invalid_status_type status_oversized provider_id_oversized :
      StatusElementQuarantineReason

pub record WebhookStatusParseResult : Type 0 where
  pub events : List ProviderStatusEvent
  pub quarantined : List StatusElementQuarantineReason

abbrev pub max_status_string_len : ℕ
max_status_string_len = 64

abbrev pub max_provider_id_len : ℕ
max_provider_id_len = 128

abbrev pub max_quarantine_diagnostics : ℕ
max_quarantine_diagnostics = 16

some_text : Text → Option Text
some_text [] = none
some_text (c ∷ s) = some (c ∷ s)

unfoldable pub bounded_error_code : Json → Option Text
unfolding some_text
bounded_error_code (string s) = some_text (bounded_error (some s))
bounded_error_code (number n) = some_text (bounded_error (some n))
bounded_error_code _ = none

unfoldable pub push_quarantine :
    WebhookStatusParseResult → StatusElementQuarantineReason → WebhookStatusParseResult
push_quarantine r reason =
    if ltb (length r.quarantined) max_quarantine_diagnostics
    then record r { quarantined = r.quarantined ++ reason ∷ [] }
    else r

-- `typeof event.id === "string" && event.id.length > limit`
unfoldable pub oversized : ℕ → Option Text → Bool
oversized limit none = false
oversized limit (some s) = ltb limit (length s)

-- the reason when the status is no string
status_reason : Json → StatusElementQuarantineReason
status_reason undefined = missing_status
status_reason null = missing_status
status_reason _ = invalid_status_type

-- the tests on the status, after those on the id
unfoldable pub add_status :
    WebhookStatusParseResult → Option Text → Json → Option Text → WebhookStatusParseResult
unfolding status_reason
add_status r id (string status) code =
    if ltb max_status_string_len (length status)
    then push_quarantine r status_oversized
    else record r {
      events =
          r.events
          ++ record { status = status; provider_message_id = id; provider_error_code = code } ∷ [];
    }
add_status r id other code = push_quarantine r (status_reason other)

-- the body of the innermost loop
unfoldable pub decode_status : Json → WebhookStatusParseResult → WebhookStatusParseResult
unfolding oversized get first as_text
decode_status (object fs) r =
    let event = object fs in
    let id = as_text (get (codes "id") event) in
    if oversized max_provider_id_len id
    then push_quarantine r provider_id_oversized
    else add_status r id (get (codes "status") event)
        (bounded_error_code (get (codes "code") (first (get (codes "errors") event))))
decode_status _ r = push_quarantine r non_object

-- `for (const value of list)`, where what is no array is skipped
unfoldable pub each {ℓ} : {S : Type ℓ} → (Json → S → S) → List Json → S → S
each body [] s = s
each body (v ∷ vs) s = each body vs (body v s)

unfoldable pub each_of {ℓ} : {S : Type ℓ} → (Json → S → S) → Option (List Json) → S → S
unfolding each
each_of body none s = s
each_of body (some vs) s = each body vs s

-- `asRecord(value)?.key`
unfoldable pub record_get : Text → Json → Json
unfolding get
record_get key (object fs) = get key (object fs)
record_get key _ = undefined

unfoldable pub decode_change : Json → WebhookStatusParseResult → WebhookStatusParseResult
unfolding each_of record_get as_array get
decode_change change =
    each_of decode_status (as_array (get (codes "statuses") (record_get (codes "value") change)))

unfoldable pub decode_entry : Json → WebhookStatusParseResult → WebhookStatusParseResult
unfolding each_of record_get as_array
decode_entry entry = each_of decode_change (as_array (record_get (codes "changes") entry))

-- the Meta part of the payload
unfoldable pub decode_entries : Json → WebhookStatusParseResult
unfolding each_of as_array get decode_entry decode_change
decode_entries payload =
    each_of decode_entry (as_array (get (codes "entry") payload))
      (record { events = []; quarantined = [] })

-- Click2API's status payload
click2api_events : Json → Option Text → List ProviderStatusEvent
unfolding get first as_text
click2api_events payload none = []
click2api_events payload (some status) =
    record {
      status = status;
      provider_message_id =
          as_text
            (get (codes "id") (first (get (codes "messages") (get (codes "response") payload))));
      provider_error_code =
          bounded_error_code (get (codes "error_code") (get (codes "message") payload));
    }
    ∷ []

unfoldable pub or_click2api : Json → WebhookStatusParseResult → WebhookStatusParseResult
unfolding click2api_events get as_text
or_click2api payload r = elim r.events [
  | [] ↦ record r {
    events =
        click2api_events payload
          (as_text (get (codes "message_status") (get (codes "message") payload)));
  }
  | e ∷ es ↦ r
]

unfoldable pub detect_webhook_status_events_with_quarantine : Json → WebhookStatusParseResult
unfolding decode_entries or_click2api
detect_webhook_status_events_with_quarantine payload = or_click2api payload (decode_entries payload)

unfoldable pub detect_webhook_status_events : Json → List ProviderStatusEvent
detect_webhook_status_events payload = (detect_webhook_status_events_with_quarantine payload).events

unfoldable pub head_event : List ProviderStatusEvent → Option ProviderStatusEvent
head_event [] = none
head_event (e ∷ es) = some e

unfoldable pub detect_webhook_status_event : Json → Option ProviderStatusEvent
unfolding head_event
detect_webhook_status_event payload = head_event (detect_webhook_status_events payload)

-- The request as it arrives, with the query parameters of its URL.
pub record WebhookRequest : Type 0 where
  pub raw_body : List ℕ
  pub source : Option Text
  pub token : Option Text
  pub signature_header : Option Text
  pub verify_token : Option Text
  pub app_secret : Option Text

pub data WebhookBoundaryResult : Type 0 where
  failed : ℕ → Text → WebhookBoundaryResult
  parsed : Json → Option ProviderStatusEvent → WebhookStatusParseResult → WebhookBoundaryResult

unfoldable pub is_click2api : Option Text → Bool
is_click2api none = false
is_click2api (some s) = text_eq s (codes "click2api")

module _ (platform : Platform) (parse : List ℕ → Option Json) where
  unfoldable pub parse_body : Option Json → WebhookBoundaryResult
  unfolding head_event
  parse_body none = failed 400 (codes "invalid_json")
  parse_body (some payload) =
      let found = detect_webhook_status_events_with_quarantine payload in
      parsed payload (head_event found.events) found

  unfoldable pub after_verification : List ℕ → VerificationResult → WebhookBoundaryResult
  unfolding parse_body
  after_verification body (refused status code) = failed status code
  after_verification body verified = parse_body (parse body)

  unfoldable pub authenticate_and_parse_webhook : WebhookRequest → WebhookBoundaryResult
  unfolding after_verification is_click2api
  authenticate_and_parse_webhook r = after_verification r.raw_body (
      if is_click2api r.source
      then verify_challenge_token platform r.token r.verify_token
      else verify_meta_signature platform r.raw_body r.signature_header r.app_secret)
