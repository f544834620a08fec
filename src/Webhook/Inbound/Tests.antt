-- ===== src/Webhook/Inbound/Tests.antt =====
-- A payload with two messages of two senders, their contacts and a status.
use oasis_supabase_core.Webhook.Inbound.{split_entries}
use oasis_supabase_core.Webhook.Inbound.{then_some}
use oasis_supabase_core.Webhook.Inbound.{has_messages}
use oasis_supabase_core.Packet.Queue.{is_null}
use oasis_supabase_core.Prelude.{text_eq}
use oasis_supabase_core.Prelude.Json.{get}
use oasis_supabase_core.Prelude.Json.{as_array}
use oasis_supabase_core.Interpret.{elements}
use oasis_supabase_core.Prelude.{◌≡◌, refl, none, some, List, [], ◌∷◌, Text, codes, true}
use oasis_supabase_core.Prelude.Json.{Json, null, string, array, object, end, field, cons, nil}
use oasis_supabase_core.Webhook.Inbound.{
  enumerate_inbound_payloads, payload_contains_inbound_messages,
}

abbrev message : Text → Json
message sender = object (field (codes "from") (string sender) end)

abbrev contact : Text → Json
contact id = object (field (codes "wa_id") (string id) end)

abbrev value : Json
value = object (
    field (codes "contacts") (array (cons (contact (codes "a")) (cons (contact (codes "b")) nil))) (
      field (codes "messages") (array (cons (message (codes "a")) (cons (message (codes "b")) nil)))
        (field (codes "statuses") (array (cons null nil)) end)))

abbrev payload : Json
payload = object (
    field (codes "object") (string (codes "w")) (
      field (codes "entry")
        (array (
          cons
            (object (
              field (codes "changes") (array (cons (object (field (codes "value") value end)) nil))
                end))
            nil))
        end))

abbrev isolated : Text → Json
isolated sender = object (
    field (codes "object") (string (codes "w")) (
      field (codes "entry")
        (array (
          cons
            (object (
              field (codes "changes")
                (array (
                  cons
                    (object (
                      field (codes "value")
                        (object (
                          field (codes "contacts") (array (cons (contact sender) nil))
                            (field (codes "messages") (array (cons (message sender) nil)) end)))
                        end))
                    nil))
                end))
            nil))
        end))

abbrev singles : List Json
singles = isolated (codes "a") ∷ isolated (codes "b") ∷ []

contains_test : payload_contains_inbound_messages payload ≡ some true
unfolding payload_contains_inbound_messages elements as_array get text_eq codes is_null has_messages
contains_test = refl

null_entry_test :
    enumerate_inbound_payloads (object (field (codes "entry") (array (cons null nil)) end)) ≡ none
unfolding enumerate_inbound_payloads then_some split_entries elements as_array get text_eq codes
    is_null
null_entry_test = refl
