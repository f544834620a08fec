-- ===== src/Webhook/Statuses/Diagnostics.antt =====
-- The diagnostics that are kept for the statuses that give no event.
use oasis_supabase_core.Prelude.{
  ◌+◌, ◌-◌, ◌≤◌, ◌≡◌, Option, List, [], ◌∷◌, Text, codes, length, length-append, min, ltb, arith,
  Bool-cases, inl, inr,
}
use oasis_supabase_core.Prelude.Json.{
  Json, undefined, null, boolean, number, string, array, object, get, first, as_text,
}
use oasis_supabase_core.OperatorReply.Delivery.{ProviderStatusEvent}
use oasis_supabase_core.Webhook.Statuses.{
  StatusElementQuarantineReason, missing_status, invalid_status_type, non_object,
  provider_id_oversized, status_oversized, WebhookStatusParseResult, push_quarantine, add_status,
  decode_status, decode_entries, each, bounded_error_code, oversized,
}
use oasis_supabase_core.Webhook.Statuses.Bounds.{
  accepted, accepted_all, accepted_status, provider_statuses, entries_flat, decode_entries_events,
}

push_diagnostics :
    (r : WebhookStatusParseResult) (q : StatusElementQuarantineReason)
    → length r.quarantined ≤ 16
    → length (push_quarantine r q).quarantined ≡ min 16 (length r.quarantined + 1)
unfolding push_quarantine
push_diagnostics r q h = elim (Bool-cases (ltb (length r.quarantined) 16)) [
  | inl e ↦ rw e (ground (arith, length-append r.quarantined (q ∷ [])))
  | inr e ↦ rw e (ground arith)
]

-- one diagnostic for a status that gives no event
abbrev OneDiagnostic :
    WebhookStatusParseResult → List ProviderStatusEvent → WebhookStatusParseResult → Type 0
OneDiagnostic r events r' =
    (length events ≤ 1)
    × (length r'.quarantined ≡ min 16 (length r.quarantined + (1 - length events)))

module _ (r : WebhookStatusParseResult) (h : length r.quarantined ≤ 16) where
  push-OneDiagnostic :
      (q : StatusElementQuarantineReason) → OneDiagnostic r [] (push_quarantine r q)
  push-OneDiagnostic q = (omega arith, push_diagnostics r q h)

  add_status-OneDiagnostic :
      (id : Option Text) (status : Json) (code : Option Text)
      → OneDiagnostic r (accepted_status id status code) (add_status r id status code)
  unfolding add_status accepted_status
  add_status-OneDiagnostic id (string s) code = elim (Bool-cases (ltb 64 (length s))) [
    | inl e ↦ rw e (push-OneDiagnostic status_oversized)
    | inr e ↦ rw e (omega arith, ground arith)
  ]
  add_status-OneDiagnostic id undefined code = push-OneDiagnostic missing_status
  add_status-OneDiagnostic id null code = push-OneDiagnostic missing_status
  add_status-OneDiagnostic id (boolean b) code = push-OneDiagnostic invalid_status_type
  add_status-OneDiagnostic id (number n) code = push-OneDiagnostic invalid_status_type
  add_status-OneDiagnostic id (array xs) code = push-OneDiagnostic invalid_status_type
  add_status-OneDiagnostic id (object fs) code = push-OneDiagnostic invalid_status_type

  decode_status-OneDiagnostic : (v : Json) → OneDiagnostic r (accepted v) (decode_status v r)
  unfolding decode_status accepted
  decode_status-OneDiagnostic (object fs) =
      let event = object fs in
      elim (Bool-cases (oversized 128 (as_text (get (codes "id") event)))) [
        | inl e ↦ rw e (push-OneDiagnostic provider_id_oversized)
        | inr e ↦ rw e (
            add_status-OneDiagnostic (as_text (get (codes "id") event)) (get (codes "status") event)
              (bounded_error_code (get (codes "code") (first (get (codes "errors") event)))))
      ]
  decode_status-OneDiagnostic undefined = push-OneDiagnostic non_object
  decode_status-OneDiagnostic null = push-OneDiagnostic non_object
  decode_status-OneDiagnostic (boolean b) = push-OneDiagnostic non_object
  decode_status-OneDiagnostic (number n) = push-OneDiagnostic non_object
  decode_status-OneDiagnostic (string s) = push-OneDiagnostic non_object
  decode_status-OneDiagnostic (array xs) = push-OneDiagnostic non_object

each_diagnostics :
    (vs : List Json) (r : WebhookStatusParseResult)
    → length r.quarantined ≤ 16
    → (length (accepted_all vs) ≤ length vs)
      × (length (each decode_status vs r).quarantined
          ≡ min 16 (length r.quarantined + (length vs - length (accepted_all vs))))
unfolding each
each_diagnostics [] r h = (omega arith, ground arith)
each_diagnostics (v ∷ vs) r h =
    let (small, step) = decode_status-OneDiagnostic r h v in
    let (fewer, count) = each_diagnostics vs (decode_status v r) (ground arith) in
    (
      ground (arith, length-append (accepted v) (accepted_all vs)),
      ground (arith, length-append (accepted v) (accepted_all vs)),
    )

-- Of the statuses of a payload that give no event, each has a diagnostic up to the sixteenth.
pub decode_entries_diagnostics :
    (payload : Json)
    → length (decode_entries payload).quarantined
      ≡ min 16 (length (provider_statuses payload) - length (decode_entries payload).events)
decode_entries_diagnostics payload =
    let (fewer, count) =
      each_diagnostics (provider_statuses payload) (record { events = []; quarantined = [] })
        (omega arith) in
    rw (decode_entries_events payload, entries_flat payload) (ground arith)
