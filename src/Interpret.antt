-- ===== src/Interpret.antt =====
-- supabase/functions/whatsapp-content-interpret/sanitize.ts: what is kept of the answer of a language
-- model. The confidence, a float, is left out.
pub mod Conclusion
pub mod Provenance
mod Tests
use oasis_supabase_core.Prelude.{
  ℕ, suc, ◌+◌, Bool, true, false, ◌&&◌, ◌||◌, not, Option, none, some, List, [], ◌∷◌, ◌++◌, Text,
  codes, text_eq, nonempty, trim, to_lower, to_upper, starts_with, keep_units, is_digit,
  list_contains, distinct, decimal, take, length, ltb, leb, ◌==◌, if◌then◌else◌,
}
use oasis_supabase_core.Prelude.Json.{
  Json, undefined, null, boolean, number, string, array, object, get, as_array, as_text,
}

pub data ConclusionIntent : Type 0 where
  new_order amendment enquiry complaint finance other unclear : ConclusionIntent

pub record ExplicitFact : Type 0 where
  pub provider_message_id : Text
  pub kind : Text
  pub value : Text

pub data LineStatus : Type 0 where
  explicit interpreted unclear : LineStatus

-- The quantity is kept as the text of its number.
pub record OrderLine : Type 0 where
  pub product_name : Text
  pub sku : Text
  pub quantity : Option Text
  pub unit : Text
  pub status : LineStatus
  pub evidence_ids : List Text

pub record Correction : Type 0 where
  pub provider_message_id : Text
  pub supersedes : Text
  pub replacement : Text

pub record AiConclusion : Type 0 where
  pub intent : ConclusionIntent
  pub summary : Text
  pub explicit_facts : List ExplicitFact
  pub order_lines : List OrderLine
  pub corrections : List Correction
  pub ambiguities : List Text
  pub recommended_action : Text
  pub human_review_required : Bool

pub record InterpretResponse : Type 0 where
  pub normalized_text : Text
  pub extracted_text : Text
  pub language : Text
  pub warnings : List Text
  pub source_kind : Text
  pub conclusion : AiConclusion

-- `typeof value === "string" ? value.trim().slice(0, max) : ""`
unfoldable pub safe_text : ℕ → Option Text → Text
safe_text max none = []
safe_text max (some s) = take max (trim s)

unfoldable pub safe_string : Json → ℕ → Text
unfolding safe_text as_text
safe_string value max = safe_text max (as_text value)

-- the strings among the elements, trimmed, cut, and dropped when that leaves nothing
unfoldable pub bounded_strings : ℕ → List Json → List Text
unfolding safe_string
bounded_strings max [] = []
bounded_strings max (v ∷ vs) =
    let rest = bounded_strings max vs in
    let s = safe_string v max in if nonempty s then s ∷ rest else rest

unfoldable pub elements : Option (List Json) → List Json
elements none = []
elements (some vs) = vs

unfoldable pub sanitize_string_array : Json → ℕ → ℕ → List Text
unfolding elements bounded_strings as_array
sanitize_string_array value max_items max_length =
    take max_items (bounded_strings max_length (elements (as_array value)))

-- the ids in the allowlist, and the others
unfoldable pub valid_ids : List Text → List Text → List Text
valid_ids allowed [] = []
valid_ids allowed (id ∷ ids) =
    let rest = valid_ids allowed ids in if list_contains allowed id then id ∷ rest else rest

unfoldable pub rejected_ids : List Text → List Text → List Text
rejected_ids allowed [] = []
rejected_ids allowed (id ∷ ids) =
    let rest = rejected_ids allowed ids in if list_contains allowed id then rest else id ∷ rest

-- `[A-Za-z0-9 .,()%/=>-]`
is_note_unit : ℕ → Bool
is_note_unit c =
    (leb b'a' c && leb c b'z')
    || (leb b'A' c && leb c b'Z')
    || is_digit c
    || c == b' '
    || c == b'.'
    || c == b','
    || c == b'('
    || c == b')'
    || c == b'%'
    || c == b'/'
    || c == b'='
    || c == b'>'
    || c == b'-'

unfoldable pub isolation_note : Text → ℕ → Text → Text
unfolding is_note_unit
isolation_note kind index detail =
    codes "PROVENANCE_ISOLATED:"
    ++ (kind ++ (b'_' ∷ (decimal (index + 1) ++ (b':' ∷ take 80 (keep_units is_note_unit detail)))))

unfoldable pub sanitize_intent : Json → ConclusionIntent
unfolding safe_string
sanitize_intent value =
    let candidate = to_upper (safe_string value 32) in
    if text_eq candidate (codes "NEW_ORDER")
    then ConclusionIntent.new_order
    else if text_eq candidate (codes "AMENDMENT")
    then ConclusionIntent.amendment
    else if text_eq candidate (codes "ENQUIRY")
    then ConclusionIntent.enquiry
    else if text_eq candidate (codes "COMPLAINT")
    then ConclusionIntent.complaint
    else if text_eq candidate (codes "FINANCE")
    then ConclusionIntent.finance
    else if text_eq candidate (codes "OTHER")
    then ConclusionIntent.other
    else ConclusionIntent.unclear

-- `entry && typeof entry === "object"`
unfoldable pub is_object : Json → Bool
is_object (object fs) = true
is_object (array xs) = true
is_object _ = false

-- A finite number above zero, by its text.
unfoldable pub positive_number : Json → Option Text
positive_number (number n) =
    if text_eq n (codes "0")
      || starts_with n (codes "-")
      || text_eq n (codes "NaN")
      || text_eq n (codes "Infinity")
    then none
    else some n
positive_number _ = none

-- the exact codes, with their status
unfoldable pub exact_error_status : Text → Option ℕ
exact_error_status code =
    if list_contains
      (codes "INTERPRETER_NOT_CONFIGURED" ∷ codes "INTERPRETER_PROVIDER_CREDITS_EXHAUSTED" ∷ [])
      code
    then some 503
    else if text_eq code (codes "INTERPRETER_PROVIDER_RATE_LIMITED")
    then some 429
    else if text_eq code (codes "INTERPRETER_PROVIDER_AUTH_FAILED")
    then some 502
    else if list_contains
        (codes "EMPTY_MEDIA"
          ∷ codes "AUDIO_TRANSCRIPTION_EMPTY"
          ∷ codes "MEDIA_HOST_NOT_ALLOWED"
          ∷ codes "MEDIA_REDIRECT_NOT_ALLOWED"
          ∷ [])
        code
    then some 422
    else if list_contains (codes "MEDIA_TOO_LARGE" ∷ codes "PACKET_MEDIA_TOO_LARGE" ∷ []) code
    then some 413
    else none

unsupported_mime_codes : List Text
unsupported_mime_codes =
    codes "UNSUPPORTED_IMAGE_TYPE"
    ∷ codes "UNSUPPORTED_AUDIO_TYPE"
    ∷ codes "UNSUPPORTED_VIDEO_TYPE"
    ∷ codes "UNSUPPORTED_DOCUMENT_TYPE"
    ∷ []

status_or : Option ℕ → ℕ → ℕ
status_or none d = d
status_or (some n) d = n

-- every code of `MEDIA_URL_PREFIX_CODES` starts with `MEDIA_URL_`
unfoldable pub status_for_interpretation_error : Text → ℕ
unfolding unsupported_mime_codes status_or
status_for_interpretation_error code = status_or (exact_error_status code) (
    if list_contains unsupported_mime_codes code
    then 415
    else if starts_with code (codes "MEDIA_URL_")
    then 422
    else 502)
