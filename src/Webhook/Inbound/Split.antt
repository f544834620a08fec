-- ===== src/Webhook/Inbound/Split.antt =====
-- One synthetic payload: its message, its contacts, and what is left out of it.
use oasis_supabase_core.Prelude.{
  ◌≡◌, refl, ap, ◌∙◌, true, false, Option, none, some, List, [], ◌∷◌, Text, codes, text_eq,
  text_eq_iff, All, Bool-cases, inl, inr, arith, if◌then◌else◌,
}
use oasis_supabase_core.Prelude.Json.{
  Json, undefined, array, Fields, field_of, get, first, as_array, as_text, cons, nil,
}
use oasis_supabase_core.Interpret.{elements}
use oasis_supabase_core.Packet.Queue.{is_null}
use oasis_supabase_core.Webhook.Inbound.{
  then_some, of_list, fields_of, without, set_field, is_contact_of, contacts_from, contacts_of,
  with_contacts, isolated_value,
}
use oasis_supabase_core.Webhook.Inbound.Members.{
  field_of-set_field, field_of-set_other, field_of-without, field_of-without_other, to_list-of_list,
  field_of-fields_of,
}

-- What `extractPayloadFields` reads: the first entry's first change's value, and its first message.
abbrev pub value_in : Json → Json
value_in payload =
    get (codes "value") (first (get (codes "changes") (first (get (codes "entry") payload))))

abbrev pub message_in : Json → Json
message_in payload = first (get (codes "messages") (value_in payload))

abbrev pub sender_of : Json → Option Text
sender_of message = as_text (get (codes "from") message)

-- Each contact is one of the sender of the message, and no status is left.
abbrev pub IsIsolated : Json → Type 0
IsIsolated payload =
    All (λ c. as_text (get (codes "wa_id") c) ≡ sender_of (message_in payload))
      (elements (as_array (get (codes "contacts") (value_in payload))))
    × (get (codes "statuses") (value_in payload) ≡ undefined)

pub then_some_iff :
    {A B : Type 0} (o : Option A) (f : A → Option B) (b : B)
    → then_some o f ≡ some b
    → (a : A) × (o ≡ some a) × (f a ≡ some b)
unfolding then_some
then_some_iff none f b e = cc
then_some_iff (some a) f b e = (a, refl, e)

own_contact :
    (sender : Text) (id : Option Text)
    → elim id [ none ↦ false | some t ↦ text_eq t sender ] ≡ true
    → id ≡ some sender
own_contact sender none e = cc
own_contact sender (some t) e = ap some ((text_eq_iff t sender).0 e)

-- every contact that is kept is one of the sender
contacts_from-All :
    (sender : Text) (cs kept : List Json)
    → contacts_from sender cs ≡ some kept
    → All (λ c. as_text (get (codes "wa_id") c) ≡ some sender) kept
unfolding contacts_from is_contact_of
contacts_from-All sender [] kept e = let same : [] ≡ kept = ground arith in rw (← same) tt
contacts_from-All sender (c ∷ cs) kept e = elim (Bool-cases (is_null c)) [
  | inl absent ↦ absurd (ground arith)
  | inr there ↦
      let (rest, came, same) =
        then_some_iff (contacts_from sender cs)
          (λ rest. some (if is_contact_of sender c then c ∷ rest else rest)) kept (rw there at e) in
      let eq : (if is_contact_of sender c then c ∷ rest else rest) ≡ kept = ground arith in
      let later = contacts_from-All sender cs rest came in
      rw (← eq) (elim (Bool-cases (is_contact_of sender c)) [
        | inl own ↦ rw own (own_contact sender (as_text (get (codes "wa_id") c)) own, later)
        | inr other ↦ rw other later
      ])
]

contacts_of-All :
    (sender : Option Text) (cs kept : List Json)
    → contacts_of sender cs ≡ some kept
    → All (λ c. as_text (get (codes "wa_id") c) ≡ sender) kept
unfolding contacts_of
contacts_of-All none cs kept e = let same : [] ≡ kept = ground arith in rw (← same) tt
contacts_of-All (some []) cs kept e = let same : [] ≡ kept = ground arith in rw (← same) tt
contacts_of-All (some (c ∷ sender)) cs kept e = contacts_from-All (c ∷ sender) cs kept e

-- What the isolated value has: the message, no status, and contacts of its sender.
pub record Isolated (message : Json) (v : Fields) : Type 0 where
  pub holds : field_of (codes "messages") v ≡ array (cons message nil)
  pub no_status : field_of (codes "statuses") v ≡ undefined
  pub own :
      All
        (λ c. as_text (get (codes "wa_id") c) ≡ sender_of message)
        (elements (as_array (field_of (codes "contacts") v)))

contacts-Isolated :
    (message : Json) (fs : Fields) (kept : List Json)
    → field_of (codes "messages") fs ≡ array (cons message nil)
    → field_of (codes "statuses") fs ≡ undefined
    → All (λ c. as_text (get (codes "wa_id") c) ≡ sender_of message) kept
    → Isolated message (set_field (codes "contacts") (array (of_list kept)) fs)
unfolding elements text_eq codes as_array
contacts-Isolated message fs kept held none_left own =
    let new = array (of_list kept) in
    record {
      holds = field_of-set_other (codes "contacts") (codes "messages") new fs refl ∙ held;
      no_status = field_of-set_other (codes "contacts") (codes "statuses") new fs refl ∙ none_left;
      own = rw (field_of-set_field (codes "contacts") new fs, to_list-of_list kept) own;
    }

with_contacts-Isolated :
    (contacts : Option (List Json)) (message : Json) (fs v : Fields)
    → as_array (field_of (codes "contacts") fs) ≡ contacts
    → field_of (codes "messages") fs ≡ array (cons message nil)
    → field_of (codes "statuses") fs ≡ undefined
    → with_contacts contacts (sender_of message) fs ≡ some v
    → Isolated message v
unfolding with_contacts elements
with_contacts-Isolated none message fs v same held none_left e =
    let eq : fs ≡ v = ground arith in
    rw (← eq) (record { holds = held; no_status = none_left; own = rw same tt })
with_contacts-Isolated (some cs) message fs v same held none_left e =
    let (kept, came, e') =
      then_some_iff (contacts_of (sender_of message) cs)
        (λ kept. some (set_field (codes "contacts") (array (of_list kept)) fs)) v e in
    let eq : set_field (codes "contacts") (array (of_list kept)) fs ≡ v = ground arith in
    rw (← eq) (
      contacts-Isolated message fs kept held none_left
        (contacts_of-All (sender_of message) cs kept came))

abbrev removed : List Text
removed = codes "messages" ∷ codes "statuses" ∷ []

module _ (value message : Json) where
  abbrev base : Fields
  base = without removed (fields_of value)

  abbrev with_message : Fields
  with_message = set_field (codes "messages") (array (cons message nil)) base

  contacts_kept : field_of (codes "contacts") with_message ≡ get (codes "contacts") value
  unfolding text_eq codes
  contacts_kept =
      field_of-set_other (codes "messages") (codes "contacts") (array (cons message nil)) base refl
      ∙ field_of-without_other removed (codes "contacts") (fields_of value) refl
      ∙ field_of-fields_of (codes "contacts") value

  statuses_gone : field_of (codes "statuses") with_message ≡ undefined
  unfolding text_eq codes
  statuses_gone =
      field_of-set_other (codes "messages") (codes "statuses") (array (cons message nil)) base refl
      ∙ field_of-without removed (codes "statuses") (fields_of value) refl

  pub isolated_value-Isolated :
      (v : Fields) → isolated_value value message ≡ some v → Isolated message v
  unfolding isolated_value
  isolated_value-Isolated v e = elim (Bool-cases (is_null message)) [
    | inl absent ↦ absurd (ground arith)
    | inr there ↦
        with_contacts-Isolated (as_array (get (codes "contacts") value)) message with_message v
          (ap as_array contacts_kept)
          (field_of-set_field (codes "messages") (array (cons message nil)) base) statuses_gone
          (rw there at e)
  ]
