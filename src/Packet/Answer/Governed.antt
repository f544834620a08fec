-- ===== src/Packet/Answer/Governed.antt =====
-- What every interpretation that is kept satisfies.
use oasis_supabase_core.Prelude.{
  ◌≡◌, refl, true, ◌||◌, not, List, [], ◌∷◌, Text, codes, text_eq, All, list_contains, nonempty,
  to_upper, Bool-cases, inl, inr, arith,
}
use oasis_supabase_core.Prelude.Json.{Json, get}
use oasis_supabase_core.Prelude.Exec.{ok}
use oasis_supabase_core.Interpret.{InterpretResponse, safe_string}
use oasis_supabase_core.Interpret.Conclusion.{sanitize_interpret_result}
use oasis_supabase_core.Packet.{LoadedMessage}
use oasis_supabase_core.Packet.Answer.{
  Interpretation, allowed_intents, allowed_departments, allowed_reply_clearance, allowed_upper,
  allowed_or, governed, sanitize_interpretation, default_reply_clearance, is_record, message_ids,
}

-- The labels are of the allowed sets (a department may be absent), the case has a summary and a
-- recommended action, and nothing may be done without a person.
pub record IsGoverned (i : Interpretation) : Type 0 where
  pub intent_allowed : list_contains allowed_intents i.intent ≡ true
  pub department_allowed : list_contains ([] ∷ allowed_departments) i.primary_department ≡ true
  pub contributors_allowed :
      All (λ d. list_contains allowed_departments d ≡ true) i.contributor_departments
  pub clearance_allowed : list_contains allowed_reply_clearance i.reply_clearance ≡ true
  pub summarised : nonempty i.base.conclusion.summary ≡ true
  pub recommended : nonempty i.base.conclusion.recommended_action ≡ true
  pub reviewed : i.human_review_required ≡ true
  pub authority : i.automatic_action_authority ≡ codes "HUMAN_OR_DEPARTMENT_REVIEW_REQUIRED"

allowed_upper-All :
    (allowed xs : List Text) → All (λ d. list_contains allowed d ≡ true) (allowed_upper allowed xs)
unfolding allowed_upper
allowed_upper-All allowed [] = tt
allowed_upper-All allowed (x ∷ xs) = elim (Bool-cases (list_contains allowed (to_upper x))) [
  | inl h ↦ rw (h, allowed_upper) (h, allowed_upper-All allowed xs)
  | inr h ↦ rw (h, allowed_upper) (allowed_upper-All allowed xs)
]

department_allowed :
    (v : Text)
    → list_contains ([] ∷ allowed_departments) (allowed_or allowed_departments [] v) ≡ true
unfolding allowed_or text_eq
department_allowed v = elim (Bool-cases (list_contains allowed_departments v)) [
  | inl h ↦ ground arith
  | inr h ↦ rw h refl
]

clearance_allowed :
    (v : Text)
    → list_contains allowed_reply_clearance
        (allowed_or allowed_reply_clearance default_reply_clearance v)
      ≡ true
unfolding allowed_or allowed_reply_clearance text_eq codes
clearance_allowed v = elim (Bool-cases (list_contains allowed_reply_clearance v)) [
  | inl h ↦ ground arith
  | inr h ↦ rw h refl
]

governed-IsGoverned :
    (base : InterpretResponse) (intent : Text) (conclusion : Json)
    → list_contains allowed_intents intent ≡ true
    → nonempty base.conclusion.summary ≡ true
    → nonempty base.conclusion.recommended_action ≡ true
    → IsGoverned (governed base intent conclusion)
unfolding governed
governed-IsGoverned base intent conclusion known summary action = record {
  intent_allowed = known;
  department_allowed = department_allowed _;
  contributors_allowed = allowed_upper-All allowed_departments _;
  clearance_allowed = clearance_allowed _;
  summarised = summary;
  recommended = action;
  reviewed = refl;
  authority = refl;
}

pub sanitize_interpretation-IsGoverned :
    (raw : Json) (messages : List LoadedMessage) (warnings : List Text) (i : Interpretation)
    → sanitize_interpretation raw messages warnings ≡ ok i
    → IsGoverned i
unfolding sanitize_interpretation
sanitize_interpretation-IsGoverned raw messages warnings i e =
    let conclusion = get (codes "conclusion") raw in
    let intent = to_upper (safe_string (get (codes "intent") conclusion) 32) in
    let base = sanitize_interpret_result raw (codes "packet") warnings (message_ids messages) in
    elim (Bool-cases (
      not (is_record raw)
      || not (is_record conclusion)
      || not (list_contains allowed_intents intent))) [
        | inl bad ↦ absurd (ground arith)
        | inr fine ↦
            elim (Bool-cases (
              not (nonempty base.conclusion.summary)
              || not (nonempty base.conclusion.recommended_action))) [
                | inl bad ↦ absurd (ground arith)
                | inr full ↦
                    let same : governed base intent conclusion ≡ i = ground arith in
                    rw (← same) (
                      governed-IsGoverned base intent conclusion (ground arith) (ground arith)
                        (ground arith))
              ]
      ]
