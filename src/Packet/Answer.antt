-- ===== src/Packet/Answer.antt =====
-- supabase/functions/whatsapp-packet-ai-worker/index.ts: what is kept of the model's answer about a
-- packet, and the one further question after an unusable answer. The provider, `JSON.parse` and the clock
-- are parameters.
pub mod Governed
pub mod Recovery
use oasis_supabase_core.Prelude.{
  ℕ, ◌+◌, Bool, true, false, ◌&&◌, ◌||◌, not, Option, none, some, List, [], ◌∷◌, ◌++◌, Text, codes,
  text_eq, nonempty, to_upper, list_contains, ltb, if◌then◌else◌,
}
use oasis_supabase_core.Prelude.Json.{Json, object, get}
use oasis_supabase_core.Prelude.Exec.{Exec, Result, ok, thrown, ◌>>=◌, continue}
use oasis_supabase_core.Interpret.{InterpretResponse, safe_string, sanitize_string_array}
use oasis_supabase_core.Interpret.Conclusion.{sanitize_interpret_result}
use oasis_supabase_core.Packet.{LoadedMessage}
use oasis_supabase_core.Packet.Content.{Part, text_part}

unfoldable pub allowed_intents : List Text
allowed_intents =
    codes "NEW_ORDER"
    ∷ codes "AMENDMENT"
    ∷ codes "CANCELLATION"
    ∷ codes "ENQUIRY"
    ∷ codes "COMPLAINT"
    ∷ codes "PAYMENT_ADVICE"
    ∷ codes "ACCOUNT_QUERY"
    ∷ codes "DELIVERY_QUERY"
    ∷ codes "SPECIFICATION_QUERY"
    ∷ codes "OTHER"
    ∷ codes "UNCLEAR"
    ∷ []

unfoldable pub allowed_departments : List Text
allowed_departments =
    codes "SALES"
    ∷ codes "FINANCE"
    ∷ codes "QUALITY"
    ∷ codes "DISPATCH"
    ∷ codes "LOGISTICS"
    ∷ codes "PRODUCTION"
    ∷ codes "PACKAGING"
    ∷ codes "OPERATIONS"
    ∷ codes "CUSTOMER_SERVICE"
    ∷ []

unfoldable pub allowed_reply_clearance : List Text
allowed_reply_clearance =
    codes "EMPLOYEE_REVIEW_REQUIRED"
    ∷ codes "SUBJECT_EXPERT_REVIEW_REQUIRED"
    ∷ codes "MANAGEMENT_APPROVAL_REQUIRED"
    ∷ codes "BLOCKED_INACCURATE_OR_UNSUPPORTED"
    ∷ codes "CLARIFICATION_REQUIRED"
    ∷ codes "SAFE_TO_SEND_AUTOMATICALLY"
    ∷ []

abbrev pub default_reply_clearance : Text
default_reply_clearance = codes "EMPLOYEE_REVIEW_REQUIRED"

-- The sanitized result, and the members that overwrite those of its conclusion.
pub record Interpretation : Type 0 where
  pub base : InterpretResponse
  pub intent : Text
  pub primary_department : Text
  pub contributor_departments : List Text
  pub reply_clearance : Text
  pub draft_reply : Text
  pub human_review_required : Bool
  pub automatic_action_authority : Text

-- an object that is no array
unfoldable pub is_record : Json → Bool
is_record (object fs) = true
is_record _ = false

message_ids : List LoadedMessage → List Text
message_ids [] = []
message_ids (m ∷ ms) = m.provider_message_id ∷ message_ids ms

-- `.map(toUpperCase).filter(has)`
unfoldable pub allowed_upper : List Text → List Text → List Text
allowed_upper allowed [] = []
allowed_upper allowed (x ∷ xs) =
    let rest = allowed_upper allowed xs in
    if list_contains allowed (to_upper x) then to_upper x ∷ rest else rest

-- `allowed.has(value) ? value : fallback`
unfoldable pub allowed_or : List Text → Text → Text → Text
allowed_or allowed fallback value = if list_contains allowed value then value else fallback

unfoldable pub governed : InterpretResponse → Text → Json → Interpretation
unfolding allowed_or
governed base intent conclusion = record {
  base = base;
  intent = intent;
  primary_department =
      allowed_or allowed_departments []
        (to_upper (safe_string (get (codes "primary_department") conclusion) 32));
  contributor_departments =
      allowed_upper allowed_departments
        (sanitize_string_array (get (codes "contributor_departments") conclusion) 8 32);
  reply_clearance =
      allowed_or allowed_reply_clearance default_reply_clearance
        (to_upper (safe_string (get (codes "reply_clearance") conclusion) 40));
  draft_reply = safe_string (get (codes "draft_reply") conclusion) 4000;
  human_review_required = true;
  automatic_action_authority = codes "HUMAN_OR_DEPARTMENT_REVIEW_REQUIRED";
}

unfoldable pub sanitize_interpretation :
    Json → List LoadedMessage → List Text → Result Interpretation
unfolding message_ids
sanitize_interpretation raw messages warnings =
    let conclusion = get (codes "conclusion") raw in
    let intent = to_upper (safe_string (get (codes "intent") conclusion) 32) in
    let base = sanitize_interpret_result raw (codes "packet") warnings (message_ids messages) in
    if not (is_record raw)
      || not (is_record conclusion)
      || not (list_contains allowed_intents intent)
    then thrown (codes "INTERPRETER_INVALID_SCHEMA")
    else if not (nonempty base.conclusion.summary)
        || not (nonempty base.conclusion.recommended_action)
    then thrown (codes "INTERPRETER_INVALID_SCHEMA")
    else ok (governed base intent conclusion)

-- `buildGeminiRequest` of `_shared/geminiProvider.ts` with the worker's options, which are constants
pub record GeminiRequest : Type 0 where
  pub parts : List Part

unfoldable pub build_gemini_request : List Part → Result GeminiRequest
build_gemini_request [] = thrown (codes "INTERPRETER_REQUEST_EMPTY")
build_gemini_request (p ∷ ps) = ok (record { parts = p ∷ ps })

abbrev pub dispatch_lease_ms : ℕ
dispatch_lease_ms = 120000

abbrev pub lease_safety_margin_ms : ℕ
lease_safety_margin_ms = 5000

abbrev pub reask_provider_budget_ms : ℕ
reask_provider_budget_ms = 90000

unfoldable pub reask_hint : Text
reask_hint =
    codes
      "Your previous reply was not a complete, valid JSON object for the required schema. Reply again with ONLY the complete JSON object, as compact as possible: short summary, no commentary."

unfoldable pub is_recoverable : Text → Bool
is_recoverable code =
    text_eq code (codes "INTERPRETER_INVALID_JSON")
    || text_eq code (codes "INTERPRETER_INVALID_SCHEMA")

-- `parse_json` gives none where `JSON.parse` throws.
pub record AiAttemptDeps (S : Type 0) : Type 0 where
  pub generate : GeminiRequest → Exec S Text
  pub parse_json : Text → Option Json
  pub now : S → ℕ × S
  pub lease_started_at : ℕ

unfoldable pub read_json : Option Json → List LoadedMessage → List Text → Result Interpretation
read_json none messages warnings = thrown (codes "INTERPRETER_INVALID_JSON")
read_json (some raw) messages warnings = sanitize_interpretation raw messages warnings

-- `leaseRoom > 0`, at a time
unfoldable pub has_lease_room : ℕ → ℕ → Bool
has_lease_room lease_started_at time =
    ltb (time + reask_provider_budget_ms + lease_safety_margin_ms)
      (dispatch_lease_ms + lease_started_at)

module _ {S : Type 0} (deps : AiAttemptDeps S) (messages : List LoadedMessage)
    (warnings : List Text) where
  -- the `try` block
  unfoldable pub attempt_interpretation : List Part → Exec S Interpretation
  attempt_interpretation parts s =
      continue (build_gemini_request parts)
        (λ request.
          deps.generate request >>= λ raw t. (read_json (deps.parse_json raw) messages warnings, t))
        s

  -- the `catch` block of the second attempt, which rethrows after it has read the clock
  unfoldable pub after_second : Result Interpretation → Exec S Interpretation
  after_second (ok i) s = (ok i, s)
  after_second (thrown code) s = (thrown code, (deps.now s).1)

  -- what follows the first attempt
  unfoldable pub after_first : List Part → Result Interpretation → Exec S Interpretation
  after_first parts (ok i) s = (ok i, s)
  after_first parts (thrown code) s =
      let (time, s') = deps.now s in
      let again = attempt_interpretation (parts ++ text_part reask_hint ∷ []) s' in
      let ended = after_second again.0 again.1 in
      if is_recoverable code && has_lease_room deps.lease_started_at time
      then ended
      else (thrown code, s')

  -- the loop, whose second attempt is its last
  unfoldable pub interpret_with_recovery : List Part → Exec S Interpretation
  interpret_with_recovery parts s =
      let first = attempt_interpretation parts s in after_first parts first.0 first.1
