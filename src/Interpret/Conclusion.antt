-- ===== src/Interpret/Conclusion.antt =====
-- supabase/functions/whatsapp-content-interpret/sanitize.ts: facts, order lines and corrections, with the
-- notes about what was isolated threaded in the order in which the code pushes them.
use oasis_supabase_core.Prelude.{
  ℕ, suc, Bool, true, false, ◌&&◌, ◌||◌, not, Option, none, some, List, [], ◌∷◌, ◌++◌, Text, codes,
  text_eq, nonempty, any, to_lower, starts_with, list_contains, distinct, take, if◌then◌else◌, map,
}
use oasis_supabase_core.Prelude.Json.{Json, boolean, get, as_array}
use oasis_supabase_core.Interpret.{
  ExplicitFact, LineStatus, explicit, interpreted, unclear, OrderLine, Correction, AiConclusion,
  InterpretResponse, safe_string, sanitize_string_array, valid_ids, rejected_ids, isolation_note,
  sanitize_intent, is_object, positive_number, elements,
}

-- The notes so far, which the parsers push to.
abbrev pub Notes : Type 0
Notes = List Text

unfoldable pub parse_explicit_fact : List Text → Json → ℕ → Notes → Option ExplicitFact × Notes
parse_explicit_fact allowed entry index isolated =
    let id = safe_string (get (codes "provider_message_id") entry) 240 in
    let kind = safe_string (get (codes "kind") entry) 80 in
    let value = safe_string (get (codes "value") entry) 600 in
    if not (is_object entry) || not (nonempty id) || not (nonempty kind) || not (nonempty value)
    then (none, isolated)
    else if list_contains allowed id
    then (some (record { provider_message_id = id; kind = kind; value = value }), isolated)
    else (
      none,
      isolated ++ isolation_note (codes "explicit_fact") index (kind ++ (b'=' ∷ value)) ∷ [],
    )

-- the status that the answer gives; a line with no product or SKU is never explicit
unfoldable pub raw_status : Text → Bool → LineStatus
raw_status status named =
    if not named
    then unclear
    else if text_eq status (codes "explicit")
    then explicit
    else if text_eq status (codes "interpreted")
    then interpreted
    else unclear

unfoldable pub is_explicit : LineStatus → Bool
is_explicit explicit = true
is_explicit _ = false

text_or : Text → Text → Text
text_or [] d = d
text_or (c ∷ s) d = c ∷ s

option_or : Option Text → Text → Text
option_or none d = d
option_or (some s) d = s

with_unit : Text → Text
with_unit [] = []
with_unit (c ∷ s) = b' ' ∷ c ∷ s

unfoldable pub line_detail : Text → Text → Option Text → Text → Text
unfolding text_or option_or with_unit
line_detail product sku quantity unit =
    text_or product (text_or sku (codes "(unnamed)"))
    ++ (codes " qty=" ++ (option_or quantity (codes "?") ++ with_unit unit))

unfoldable pub is_some : Option Text → Bool
is_some none = false
is_some (some s) = true

unfoldable pub nonempty_list : List Text → Bool
nonempty_list [] = false
nonempty_list (x ∷ xs) = true

-- the line, downgraded and noted where its provenance is not proven
unfoldable pub with_provenance : List Text → List Text → OrderLine → ℕ → Notes → OrderLine × Notes
unfolding nonempty_list
with_provenance valid rejected line index isolated =
    if nonempty_list rejected || (is_explicit line.status && not (nonempty_list valid))
    then (
      record line { status = unclear; evidence_ids = valid },
      isolated
          ++ isolation_note (codes "order_line") index
              (line_detail line.product_name line.sku line.quantity line.unit)
            ∷ [],
    )
    else (record line { evidence_ids = valid }, isolated)

unfoldable pub some_line : OrderLine × Notes → Option OrderLine × Notes
some_line (line, notes) = (some line, notes)

unfoldable pub parse_order_line : List Text → Json → ℕ → Notes → Option OrderLine × Notes
unfolding is_some some_line
parse_order_line allowed entry index isolated =
    let product = safe_string (get (codes "product_name") entry) 240 in
    let sku = safe_string (get (codes "sku") entry) 120 in
    let quantity = positive_number (get (codes "quantity") entry) in
    let ids = sanitize_string_array (get (codes "evidence_ids") entry) 16 240 in
    let named = nonempty product || nonempty sku in
    if not (is_object entry) || (not named && not (is_some quantity))
    then (none, isolated)
    else some_line (
        with_provenance (valid_ids allowed ids) (rejected_ids allowed ids)
          (record {
            product_name = product;
            sku = sku;
            quantity = quantity;
            unit = safe_string (get (codes "unit") entry) 80;
            status = raw_status (to_lower (safe_string (get (codes "status") entry) 32)) named;
            evidence_ids = [];
          })
          index isolated)

unfoldable pub parse_correction : List Text → Json → ℕ → Notes → Option Correction × Notes
parse_correction allowed entry index isolated =
    let id = safe_string (get (codes "provider_message_id") entry) 240 in
    let supersedes = safe_string (get (codes "supersedes") entry) 500 in
    let replacement = safe_string (get (codes "replacement") entry) 500 in
    if not (is_object entry) || not (nonempty id) || not (nonempty replacement)
    then (none, isolated)
    else if list_contains allowed id
    then (
      some
          (record { provider_message_id = id; supersedes = supersedes; replacement = replacement }),
      isolated,
    )
    else (
      none,
      isolated
          ++ isolation_note (codes "correction") index (supersedes ++ (codes " -> " ++ replacement))
            ∷ [],
    )

unfoldable pub keep {ℓ} : {A : Type ℓ} → Option A → List A → List A
keep none xs = xs
keep (some x) xs = x ∷ xs

-- `slice(0, limit).map(parse).filter(x => x !== null)`; the list is cut by the caller
unfoldable pub parse_each {ℓ} :
    {A : Type ℓ} → (Json → ℕ → Notes → Option A × Notes) → List Json → ℕ → Notes → List A × Notes
unfolding keep
parse_each parse [] index isolated = ([], isolated)
parse_each parse (v ∷ vs) index isolated =
    let (item, notes) = parse v index isolated in
    let (items, notes') = parse_each parse vs (suc index) notes in (keep item items, notes')

unfoldable pub sanitize_explicit_facts : Json → List Text → Notes → List ExplicitFact × Notes
sanitize_explicit_facts value allowed isolated =
    parse_each (parse_explicit_fact allowed) (take 50 (elements (as_array value))) 0 isolated

unfoldable pub sanitize_order_lines : Json → List Text → Notes → List OrderLine × Notes
sanitize_order_lines value allowed isolated =
    parse_each (parse_order_line allowed) (take 50 (elements (as_array value))) 0 isolated

unfoldable pub sanitize_corrections : Json → List Text → Notes → List Correction × Notes
sanitize_corrections value allowed isolated =
    parse_each (parse_correction allowed) (take 25 (elements (as_array value))) 0 isolated

unfoldable pub is_correction_note : Text → Bool
is_correction_note note = starts_with note (codes "PROVENANCE_ISOLATED:correction_")

unfoldable pub downgrade : List OrderLine → List OrderLine
downgrade [] = []
downgrade (line ∷ lines) = record line { status = unclear } ∷ downgrade lines

unfoldable pub is_not_false : Json → Bool
is_not_false (boolean b) = b
is_not_false _ = true

-- the conclusion, from the lines, the corrections and the facts that were parsed
unfoldable pub sanitize_conclusion : Json → List Text → AiConclusion × Notes
unfolding is_not_false
sanitize_conclusion value allowed =
    let lines = sanitize_order_lines (get (codes "order_lines") value) allowed [] in
    let corrections = sanitize_corrections (get (codes "corrections") value) allowed lines.1 in
    let facts =
      sanitize_explicit_facts (get (codes "explicit_facts") value) allowed corrections.1 in
    (
      record {
        intent = sanitize_intent (get (codes "intent") value);
        summary = safe_string (get (codes "summary") value) 2200;
        explicit_facts = facts.0;
        order_lines = if any is_correction_note corrections.1 then downgrade lines.0 else lines.0;
        corrections = corrections.0;
        ambiguities = sanitize_string_array (get (codes "ambiguities") value) 25 500;
        recommended_action = safe_string (get (codes "recommended_action") value) 1800;
        human_review_required = is_not_false (get (codes "human_review_required") value);
      },
      facts.1,
    )

unfoldable pub has_any : List Text → Bool
has_any [] = false
has_any (x ∷ xs) = true

or_unknown : Text → Text
or_unknown [] = codes "unknown"
or_unknown (c ∷ s) = c ∷ s

unfoldable pub sanitize_interpret_result : Json → Text → List Text → List Text → InterpretResponse
unfolding has_any or_unknown
sanitize_interpret_result raw source_kind warnings allowed =
    let (conclusion, isolated) = sanitize_conclusion (get (codes "conclusion") raw) allowed in
    record {
      normalized_text = safe_string (get (codes "normalized_text") raw) 12000;
      extracted_text = safe_string (get (codes "extracted_text") raw) 12000;
      language = or_unknown (safe_string (get (codes "language") raw) 120);
      warnings = take 24 (
          distinct [] (
            isolated
            ++ (sanitize_string_array (get (codes "warnings") raw) 20 320
                ++ map (take 320) warnings)));
      source_kind = source_kind;
      conclusion = record conclusion {
        human_review_required =
            has_any warnings || has_any isolated || conclusion.human_review_required;
      };
    }
