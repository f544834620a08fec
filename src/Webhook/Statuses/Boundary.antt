-- ===== src/Webhook/Statuses/Boundary.antt =====
-- What a request that the boundary lets through has passed.
use oasis_supabase_core.Prelude.{ℕ, ◌≡◌, refl, Option, none, some, List, if◌then◌else◌}
use oasis_supabase_core.Prelude.Json.{Json}
use oasis_supabase_core.OperatorReply.Delivery.{ProviderStatusEvent}
use oasis_supabase_core.Webhook.Security.{
  Platform, VerificationResult, verified, refused, verify_challenge_token, verify_meta_signature,
}
use oasis_supabase_core.Webhook.Statuses.{
  WebhookStatusParseResult, parsed, WebhookRequest, is_click2api,
  detect_webhook_status_events_with_quarantine, authenticate_and_parse_webhook, after_verification,
  parse_body, head_event,
}

module _ (platform : Platform) (parse : List ℕ → Option Json) where
  -- the check that a request meets: the token in its URL, or the signature in its header
  abbrev pub authentication : WebhookRequest → VerificationResult
  authentication r =
      if is_click2api r.source
      then verify_challenge_token platform r.token r.verify_token
      else verify_meta_signature platform r.raw_body r.signature_header r.app_secret

  parse_body_parsed :
      (o : Option Json) (payload : Json) (event : Option ProviderStatusEvent)
      (found : WebhookStatusParseResult)
      → parse_body platform parse o ≡ parsed payload event found
      → (o ≡ some payload)
        × (found ≡ detect_webhook_status_events_with_quarantine payload)
        × (event ≡ head_event found.events)
  unfolding parse_body
  parse_body_parsed none payload event found e = cc
  parse_body_parsed (some p) payload event found e = (cc, cc, cc)

  after_parsed :
      (body : List ℕ) (v : VerificationResult) (payload : Json) (event : Option ProviderStatusEvent)
      (found : WebhookStatusParseResult)
      → after_verification platform parse body v ≡ parsed payload event found
      → (v ≡ verified)
        × (parse body ≡ some payload)
        × (found ≡ detect_webhook_status_events_with_quarantine payload)
        × (event ≡ head_event found.events)
  unfolding after_verification
  after_parsed body (refused status code) payload event found e = cc
  after_parsed body verified payload event found e =
      let (parses, same, head) = parse_body_parsed (parse body) payload event found e in
      (refl, parses, same, head)

  -- A payload that the boundary returns is the parsed body of a request that passed its check (the
  -- token of its URL for Click2API, the signature of its body otherwise); the statuses returned
  -- are those of that payload, and the single event is the first of them.
  pub authenticate_parsed :
      (r : WebhookRequest) (payload : Json) (event : Option ProviderStatusEvent)
      (found : WebhookStatusParseResult)
      → authenticate_and_parse_webhook platform parse r ≡ parsed payload event found
      → (authentication r ≡ verified)
        × (parse r.raw_body ≡ some payload)
        × (found ≡ detect_webhook_status_events_with_quarantine payload)
        × (event ≡ head_event found.events)
  unfolding authenticate_and_parse_webhook
  authenticate_parsed r payload event found e =
      after_parsed r.raw_body (authentication r) payload event found e
