-- ===== src/Webhook/Inbound/Members.antt =====
-- Members of objects that are set and left out.
use oasis_supabase_core.Prelude.{
  ◌≡◌, refl, sym, ap, ◌∙◌, Bool, true, false, not, List, [], ◌∷◌, Text, text_eq, text_eq_iff,
  text_eq_refl, list_contains, Bool-cases, inl, inr, if◌then◌else◌,
}
use oasis_supabase_core.Prelude.Json.{
  Json, undefined, null, boolean, number, string, array, object, Fields, end, field, field_of, get,
  to_list,
}
use oasis_supabase_core.Webhook.Inbound.{of_list, fields_of, without, set_field}

pub field_of-set_field :
    (key : Text) (v : Json) (fs : Fields) → field_of key (set_field key v fs) ≡ v
unfolding field_of set_field
field_of-set_field key v end = rw (text_eq_refl key) refl
field_of-set_field key v (field k w fs) = elim (Bool-cases (text_eq k key)) [
  | inl same ↦ rw (same, set_field, same) refl
  | inr other ↦ rw (other, set_field, other) (field_of-set_field key v fs)
]

pub field_of-set_other :
    (key other : Text) (v : Json) (fs : Fields)
    → text_eq key other ≡ false
    → field_of other (set_field key v fs) ≡ field_of other fs
unfolding field_of set_field
field_of-set_other key other v end h = rw h refl
field_of-set_other key other v (field k w fs) h = elim (Bool-cases (text_eq k key)) [
  | inl same ↦
      let no : text_eq k other ≡ false = rw ((text_eq_iff k key).0 same) h in rw (same, no) refl
  | inr differs ↦
      rw differs (ap (λ x. if text_eq k other then w else x) (field_of-set_other key other v fs h))
]

-- one of the two keys is a member
text_eq-member :
    (keys : List Text) (k key : Text) (b : Bool)
    → list_contains keys k ≡ b
    → list_contains keys key ≡ not b
    → text_eq k key ≡ false
text_eq-member keys k key b e h = elim (Bool-cases (text_eq k key)) [
  | inr differs ↦ differs
  | inl same ↦
      let eq : k ≡ key = (text_eq_iff k key).0 same in
      absurd (not_own b (sym e ∙ ap (list_contains keys) eq ∙ h))
]
  where
    not_own : (b : Bool) → b ≡ not b → ⊥
    not_own true e = cc
    not_own false e = cc

pub field_of-without :
    (keys : List Text) (key : Text) (fs : Fields)
    → list_contains keys key ≡ true
    → field_of key (without keys fs) ≡ undefined
unfolding field_of without
field_of-without keys key end h = refl
field_of-without keys key (field k w fs) h = elim (Bool-cases (list_contains keys k)) [
  | inl out ↦ rw out (field_of-without keys key fs h)
  | inr kept ↦ rw (kept, text_eq-member keys k key false kept h) (field_of-without keys key fs h)
]

pub field_of-without_other :
    (keys : List Text) (key : Text) (fs : Fields)
    → list_contains keys key ≡ false
    → field_of key (without keys fs) ≡ field_of key fs
unfolding field_of without
field_of-without_other keys key end h = refl
field_of-without_other keys key (field k w fs) h = elim (Bool-cases (list_contains keys k)) [
  | inl out ↦ rw (out, text_eq-member keys k key true out h) (field_of-without_other keys key fs h)
  | inr kept ↦
      rw kept (ap (λ x. if text_eq k key then w else x) (field_of-without_other keys key fs h))
]

pub to_list-of_list : (xs : List Json) → to_list (of_list xs) ≡ xs
unfolding to_list of_list
to_list-of_list [] = refl
to_list-of_list (x ∷ xs) = ap (λ l. x ∷ l) (to_list-of_list xs)

pub field_of-fields_of : (key : Text) (v : Json) → field_of key (fields_of v) ≡ get key v
unfolding fields_of get field_of
field_of-fields_of key undefined = refl
field_of-fields_of key null = refl
field_of-fields_of key (boolean b) = refl
field_of-fields_of key (number n) = refl
field_of-fields_of key (string t) = refl
field_of-fields_of key (array xs) = refl
field_of-fields_of key (object fs) = refl
