-- ===== src/Webhook/Inbound.antt =====
-- supabase/functions/whatsapp-webhook/inboundPayloadUtils.ts: a payload with several messages is split
-- into payloads with one. None stands for the TypeError of reading a member of null.
pub mod Members
pub mod Split
pub mod Whole
mod Tests
use oasis_supabase_core.Prelude.{
  Bool, true, false, ◌&&◌, ◌||◌, not, Option, none, some, List, [], ◌∷◌, ◌++◌, Text, codes, text_eq,
  nonempty, list_contains, if◌then◌else◌,
}
use oasis_supabase_core.Prelude.Json.{
  Json, undefined, null, array, object, Items, nil, cons, Fields, end, field, get, as_array,
  as_text,
}
use oasis_supabase_core.Interpret.{is_object, elements}
use oasis_supabase_core.Packet.Queue.{is_null}

unfoldable pub then_some : {A B : Type 0} → Option A → (A → Option B) → Option B
then_some none f = none
then_some (some a) f = f a

unfoldable pub of_list : List Json → Items
of_list [] = nil
of_list (x ∷ xs) = cons x (of_list xs)

-- the members of an object
unfoldable pub fields_of : Json → Fields
fields_of (object fs) = fs
fields_of _ = end

-- the members but those with these keys
unfoldable pub without : List Text → Fields → Fields
without keys end = end
without keys (field k v fs) =
    let rest = without keys fs in if list_contains keys k then rest else field k v rest

-- `object[key] = value`: in its place, or at the end
unfoldable pub set_field : Text → Json → Fields → Fields
set_field key v end = field key v end
set_field key v (field k w fs) =
    let rest = set_field key v fs in if text_eq k key then field k v fs else field k w rest

-- the first message array that is not empty
unfoldable pub has_messages : List Json → Option Bool
has_messages [] = some false
has_messages (change ∷ changes) =
    let rest = has_messages changes in
    if is_null change
    then none
    else elim (elements (as_array (get (codes "messages") (get (codes "value") change)))) [
      | [] ↦ rest
      | m ∷ ms ↦ some true
    ]

or_next : Option Bool → Option Bool → Option Bool
or_next none rest = none
or_next (some true) rest = some true
or_next (some false) rest = rest

entries_have_messages : List Json → Option Bool
unfolding or_next
entries_have_messages [] = some false
entries_have_messages (entry ∷ entries) =
    let rest = entries_have_messages entries in
    if is_null entry
    then none
    else or_next (has_messages (elements (as_array (get (codes "changes") entry)))) rest

unfoldable pub payload_contains_inbound_messages : Json → Option Bool
unfolding entries_have_messages
payload_contains_inbound_messages payload =
    entries_have_messages (elements (as_array (get (codes "entry") payload)))

-- `sender && contact.wa_id === sender`, of a sender that is a text
is_contact_of : Text → Json → Bool
is_contact_of sender contact = elim (as_text (get (codes "wa_id") contact)) [
  | none ↦ false
  | some id ↦ text_eq id sender
]

-- the contacts of a sender
contacts_from : Text → List Json → Option (List Json)
unfolding is_contact_of
contacts_from sender [] = some []
contacts_from sender (c ∷ cs) =
    if is_null c
    then none
    else then_some (contacts_from sender cs)
        (λ rest. some (if is_contact_of sender c then c ∷ rest else rest))

unfoldable pub contacts_of : Option Text → List Json → Option (List Json)
unfolding contacts_from
contacts_of none cs = some []
contacts_of (some []) cs = some []
contacts_of (some (c ∷ sender)) cs = contacts_from (c ∷ sender) cs

-- where the value has contacts, they become those of the sender
with_contacts : Option (List Json) → Option Text → Fields → Option Fields
with_contacts none sender fs = some fs
with_contacts (some cs) sender fs =
    then_some (contacts_of sender cs)
      (λ kept. some (set_field (codes "contacts") (array (of_list kept)) fs))

-- the value with one message
unfoldable pub isolated_value : Json → Json → Option Fields
unfolding with_contacts
isolated_value value message =
    let fs =
      set_field (codes "messages") (array (cons message nil))
        (without (codes "messages" ∷ codes "statuses" ∷ []) (fields_of value)) in
    if is_null message
    then none
    else with_contacts (as_array (get (codes "contacts") value))
        (as_text (get (codes "from") message)) fs

-- `{ ...root, entry: [{ ...entry, changes: [{ ...change, value }] }] }`
unfoldable pub synthetic : Json → Json → Json → Fields → Json
synthetic root entry change value = object (
    set_field (codes "entry")
      (array (
        cons
          (object (
            set_field (codes "changes")
              (array
                (cons (object (set_field (codes "value") (object value) (fields_of change))) nil))
              (fields_of entry)))
          nil))
      (without (codes "entry" ∷ []) (fields_of root)))

module _ (root : Json) where
  unfoldable pub split_messages : Json → Json → Json → List Json → Option (List Json)
  split_messages entry change value [] = some []
  split_messages entry change value (m ∷ ms) = then_some (isolated_value value m) (λ v.
      then_some (split_messages entry change value ms)
        (λ rest. some (synthetic root entry change v ∷ rest)))

  unfoldable pub split_changes : Json → List Json → Option (List Json)
  split_changes entry [] = some []
  split_changes entry (c ∷ cs) =
      let value = get (codes "value") c in
      let singles =
        then_some
          (split_messages entry c value (elements (as_array (get (codes "messages") value))))
          (λ here. then_some (split_changes entry cs) (λ rest. some (here ++ rest))) in
      if is_null c then none else singles

  unfoldable pub split_entries : List Json → Option (List Json)
  split_entries [] = some []
  split_entries (e ∷ es) =
      let singles =
        then_some (split_changes e (elements (as_array (get (codes "changes") e))))
          (λ here. then_some (split_entries es) (λ rest. some (here ++ rest))) in
      if is_null e then none else singles

or_payload : Json → List Json → List Json
or_payload payload [] = payload ∷ []
or_payload payload (s ∷ ss) = s ∷ ss

unfoldable pub enumerate_inbound_payloads : Json → Option (List Json)
unfolding or_payload
enumerate_inbound_payloads payload =
    then_some (split_entries payload (elements (as_array (get (codes "entry") payload))))
      (λ singles. some (or_payload payload singles))
