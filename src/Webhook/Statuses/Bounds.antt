-- ===== src/Webhook/Statuses/Bounds.antt =====
-- What the nested loops decode, against the flat list of the statuses in a payload.
use oasis_supabase_core.Prelude.{
  ◌≡◌, refl, sym, ◌∙◌, Option, none, some, List, [], ◌∷◌, ◌++◌, Text, codes, length, ltb,
  if◌then◌else◌, arith, Bool-cases, inl, inr,
}
use oasis_supabase_core.Prelude.Json.{
  Json, undefined, null, boolean, number, string, array, object, get, first, as_array, as_text,
}
use oasis_supabase_core.OperatorReply.Delivery.{ProviderStatusEvent}
use mathlib.Core.List.{append_assoc, append-nil}
use oasis_supabase_core.Webhook.Statuses.{
  StatusElementQuarantineReason, non_object, provider_id_oversized, WebhookStatusParseResult,
  push_quarantine, add_status, decode_status, decode_entries, decode_entry, decode_change, each,
  each_of, record_get, bounded_error_code, oversized,
}

-- the elements of what may be an array
abbrev elements : Option (List Json) → List Json
elements none = []
elements (some vs) = vs

abbrev flat : (Json → List Json) → List Json → List Json
flat f [] = []
flat f (v ∷ vs) = f v ++ flat f vs

unfoldable pub statuses_of_change : Json → List Json
statuses_of_change change =
    elements (as_array (get (codes "statuses") (record_get (codes "value") change)))

unfoldable pub statuses_of_entry : Json → List Json
statuses_of_entry entry =
    flat statuses_of_change (elements (as_array (record_get (codes "changes") entry)))

-- Every status of a payload, in the provider's order.
unfoldable pub provider_statuses : Json → List Json
provider_statuses payload =
    flat statuses_of_entry (elements (as_array (get (codes "entry") payload)))

unfoldable pub accepted_status : Option Text → Json → Option Text → List ProviderStatusEvent
accepted_status id (string status) code =
    if ltb 64 (length status)
    then []
    else record { status = status; provider_message_id = id; provider_error_code = code } ∷ []
accepted_status id other code = []

-- The event of a status: an object whose `id` is no string above 128 units, and whose `status` is a
-- string of at most 64.
unfoldable pub accepted : Json → List ProviderStatusEvent
accepted (object fs) =
    let event = object fs in
    if oversized 128 (as_text (get (codes "id") event))
    then []
    else accepted_status (as_text (get (codes "id") event)) (get (codes "status") event)
        (bounded_error_code (get (codes "code") (first (get (codes "errors") event))))
accepted _ = []

abbrev pub accepted_all : List Json → List ProviderStatusEvent
accepted_all [] = []
accepted_all (v ∷ vs) = accepted v ++ accepted_all vs

each-append {ℓ} :
    {S : Type ℓ} (body : Json → S → S) (vs ws : List Json) (s : S)
    → each body (vs ++ ws) s ≡ each body ws (each body vs s)
unfolding each
each-append body [] ws s = refl
each-append body (v ∷ vs) ws s = each-append body vs ws (body v s)

each-flat {ℓ} :
    {S : Type ℓ} (body : Json → S → S) (outer : Json → S → S) (f : Json → List Json)
    → ((v : Json) (s : S) → outer v s ≡ each body (f v) s)
    → (vs : List Json) (s : S) → each outer vs s ≡ each body (flat f vs) s
unfolding each
each-flat body outer f h [] s = refl
each-flat body outer f h (v ∷ vs) s =
    rw (each-append body (f v) (flat f vs) s, sym (h v s)) (each-flat body outer f h vs (outer v s))

elements_of_each {ℓ} :
    {S : Type ℓ} (body : Json → S → S) (o : Option (List Json)) (s : S)
    → each_of body o s ≡ each body (elements o) s
unfolding each_of each
elements_of_each body none s = refl
elements_of_each body (some vs) s = refl

change_flat :
    (v : Json) (r : WebhookStatusParseResult)
    → decode_change v r ≡ each decode_status (statuses_of_change v) r
unfolding decode_change statuses_of_change
change_flat v r =
    elements_of_each decode_status
      (as_array (get (codes "statuses") (record_get (codes "value") v))) r

entry_flat :
    (v : Json) (r : WebhookStatusParseResult)
    → decode_entry v r ≡ each decode_status (statuses_of_entry v) r
unfolding decode_entry statuses_of_entry
entry_flat v r =
    elements_of_each decode_change (as_array (record_get (codes "changes") v)) r
    ∙ each-flat decode_status decode_change statuses_of_change change_flat
        (elements (as_array (record_get (codes "changes") v))) r

pub entries_flat :
    (payload : Json)
    → decode_entries payload
      ≡ each decode_status (provider_statuses payload) (record { events = []; quarantined = [] })
unfolding decode_entries provider_statuses
entries_flat payload =
    elements_of_each decode_entry (as_array (get (codes "entry") payload))
      (record { events = []; quarantined = [] })
    ∙ each-flat decode_status decode_entry statuses_of_entry entry_flat
        (elements (as_array (get (codes "entry") payload)))
        (record { events = []; quarantined = [] })

add_status_events :
    (r : WebhookStatusParseResult) (id : Option Text) (status : Json) (code : Option Text)
    → (add_status r id status code).events ≡ r.events ++ accepted_status id status code
unfolding add_status accepted_status push_quarantine
add_status_events r id (string s) code = elim (Bool-cases (ltb 64 (length s))) [
  | inl e ↦ rw e (ground (arith, append-nil r.events))
  | inr e ↦ rw e refl
]
add_status_events r id undefined code = ground (arith, append-nil r.events)
add_status_events r id null code = ground (arith, append-nil r.events)
add_status_events r id (boolean b) code = ground (arith, append-nil r.events)
add_status_events r id (number n) code = ground (arith, append-nil r.events)
add_status_events r id (array xs) code = ground (arith, append-nil r.events)
add_status_events r id (object fs) code = ground (arith, append-nil r.events)

quarantined_events :
    (r : WebhookStatusParseResult) (q : StatusElementQuarantineReason)
    → (push_quarantine r q).events ≡ r.events ++ []
unfolding push_quarantine
quarantined_events r q = ground (arith, append-nil r.events)

decode_status_events :
    (v : Json) (r : WebhookStatusParseResult) → (decode_status v r).events ≡ r.events ++ accepted v
unfolding decode_status accepted
decode_status_events (object fs) r =
    elim (Bool-cases (oversized 128 (as_text (get (codes "id") (object fs))))) [
      | inl e ↦ rw e (quarantined_events r provider_id_oversized)
      | inr e ↦ rw e (
          add_status_events r (as_text (get (codes "id") (object fs)))
            (get (codes "status") (object fs))
            (bounded_error_code (get (codes "code") (first (get (codes "errors") (object fs))))))
    ]
decode_status_events undefined r = quarantined_events r non_object
decode_status_events null r = quarantined_events r non_object
decode_status_events (boolean b) r = quarantined_events r non_object
decode_status_events (number n) r = quarantined_events r non_object
decode_status_events (string s) r = quarantined_events r non_object
decode_status_events (array xs) r = quarantined_events r non_object

each_events :
    (vs : List Json) (r : WebhookStatusParseResult)
    → (each decode_status vs r).events ≡ r.events ++ accepted_all vs
unfolding each
each_events [] r = sym (append-nil r.events)
each_events (v ∷ vs) r =
    each_events vs (decode_status v r)
    ∙ (rw (decode_status_events v r) (append_assoc r.events (accepted v) (accepted_all vs)))

-- The events that the Meta part of a payload decodes to are those of its well-formed statuses, in the
-- provider's order, whatever malformed members stand between them.
pub decode_entries_events :
    (payload : Json) → (decode_entries payload).events ≡ accepted_all (provider_statuses payload)
decode_entries_events payload =
    rw (entries_flat payload)
      (each_events (provider_statuses payload) (record { events = []; quarantined = [] }))
