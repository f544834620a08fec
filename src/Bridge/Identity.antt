-- ===== src/Bridge/Identity.antt =====
-- Verified phones in their normal form, and the members of a response that reach a client.
use oasis_supabase_core.Prelude.{
  ◌≡◌, refl, ap, true, ◌&&◌, Option, some, List, [], ◌∷◌, ◌++◌, Text, codes, text_eq, text_eq_iff,
  keep_units, all_units, all_units-keep_units, is_digit, starts_with, list_contains, length, ◌==◌,
  if◌then◌else◌, Bool-cases, inl, inr, arith,
}
use oasis_supabase_core.Prelude.Json.{Json, undefined, Fields, end, field, field_of}
use oasis_supabase_core.Bridge.{
  normalize_indian_verified_phone, text_or_empty, sanitize_bridge_response_body,
  allowed_response_keys,
}

keep_all : (s : Text) → all_units is_digit s ≡ true → keep_units is_digit s ≡ s
keep_all [] h = refl
keep_all (c ∷ s) h = ground (arith, keep_all s)

-- of the members of a response, those with an allowed name, at their values
abbrev visible : Text → Json → Json
visible key v = if list_contains allowed_response_keys key then v else undefined

sanitize_step :
    (key k : Text) (v : Json) (fs : Fields)
    → field_of key (sanitize_bridge_response_body fs) ≡ visible key (field_of key fs)
    → field_of key (sanitize_bridge_response_body (field k v fs))
      ≡ visible key (field_of key (field k v fs))
unfolding field_of sanitize_bridge_response_body
sanitize_step key k v fs rest = elim (Bool-cases (text_eq k key)) [
  | inl e ↦
      let same = ap (list_contains allowed_response_keys) ((text_eq_iff k key).0 e) in
      elim (Bool-cases (list_contains allowed_response_keys k)) [
        | inl h ↦ rw h (ground (arith, same))
        | inr h ↦ rw h (ground (arith, same))
      ]
  | inr e ↦ elim (Bool-cases (list_contains allowed_response_keys k)) [
    | inl h ↦ rw h (ground arith)
    | inr h ↦ rw h (ground arith)
  ]
]

-- what a client of the bridge may read
abbrev pub public_members : List Text
public_members =
    codes "ok"
    ∷ codes "type"
    ∷ codes "user_id"
    ∷ codes "phone"
    ∷ codes "is_new"
    ∷ codes "token_hash"
    ∷ codes "error"
    ∷ []

sanitize_allowed :
    (key : Text) (fs : Fields)
    → field_of key (sanitize_bridge_response_body fs) ≡ visible key (field_of key fs)
unfolding field_of sanitize_bridge_response_body
sanitize_allowed key end = ground arith
sanitize_allowed key (field k v fs) = sanitize_step key k v fs (sanitize_allowed key fs)

-- A client of the bridge reads the members `ok`, `type`, `user_id`, `phone`, `is_new`, `token_hash` and
-- `error` of a response at their values, and no other member: the e-mail address is not among them.
pub sanitize_lookup :
    (key : Text) (fs : Fields)
    → (field_of key (sanitize_bridge_response_body fs)
        ≡ (if list_contains public_members key then field_of key fs else undefined))
      × (field_of (codes "email") (sanitize_bridge_response_body fs) ≡ undefined)
unfolding allowed_response_keys text_eq codes
sanitize_lookup key fs = (sanitize_allowed key fs, sanitize_allowed (codes "email") fs)

-- the digits of a text that is `+` and then digits
keep_plus :
    (digits : Text)
    → all_units is_digit digits ≡ true
    → keep_units is_digit (codes "+" ++ digits) ≡ digits
unfolding codes
keep_plus digits h = keep_all digits h

normalize_plus :
    (digits : Text)
    → all_units is_digit digits ≡ true
    → length digits ≡ 12
    → starts_with digits (codes "91") ≡ true
    → normalize_indian_verified_phone (some (codes "+" ++ digits)) ≡ some (codes "+" ++ digits)
unfolding normalize_indian_verified_phone text_or_empty
normalize_plus digits h n p = rw (keep_plus digits h) (ground arith)

starts_91 : (s : Text) → starts_with (57 ∷ 49 ∷ s) (codes "91") ≡ true
unfolding starts_with codes
starts_91 s = refl

-- The normal form of a verified phone is `+` and then twelve digits of which the first two are `91`.
IsNormal : Text → Type 0
IsNormal phone =
    (digits : Text) × (phone ≡ codes "+" ++ digits)
    × (all_units is_digit digits ≡ true)
    × (length digits ≡ 12)
    × (starts_with digits (codes "91") ≡ true)

normalize-IsNormal :
    (raw : Option Text) (phone : Text)
    → normalize_indian_verified_phone raw ≡ some phone
    → IsNormal phone
unfolding normalize_indian_verified_phone IsNormal codes
normalize-IsNormal raw phone e =
    let digits = keep_units is_digit (text_or_empty raw) in
    let all_digits = all_units-keep_units is_digit (text_or_empty raw) in
    elim (Bool-cases (length digits == 10)) [
      | inl ten ↦ (57 ∷ 49 ∷ digits, ground arith, ground arith, ground arith, starts_91 digits)
      | inr n ↦ elim (Bool-cases (length digits == 12 && starts_with digits (codes "91"))) [
        | inl h ↦ (digits, ground arith, all_digits, ground arith, ground arith)
        | inr h ↦ absurd (ground arith)
      ]
    ]

-- A verified phone in its normal form, `+91` and ten digits, is its own normal form.
pub normalize_again :
    (raw : Option Text) (phone : Text)
    → normalize_indian_verified_phone raw ≡ some phone
    → normalize_indian_verified_phone (some phone) ≡ some phone
unfolding IsNormal
normalize_again raw phone e =
    let (digits, same, all_digits, twelve, prefix) = normalize-IsNormal raw phone e in
    rw same (normalize_plus digits all_digits twelve prefix)
