-- ===== src/Interpret/Tests.antt =====
-- An answer with a fact of the packet, a fact of no message, and a line that cites both.
use oasis_supabase_core.Interpret.{valid_ids}
use oasis_supabase_core.Interpret.Conclusion.{is_correction_note}
use oasis_supabase_core.Interpret.{positive_number}
use oasis_supabase_core.Interpret.Conclusion.{line_detail}
use oasis_supabase_core.Prelude.{decimal}
use oasis_supabase_core.Interpret.{isolation_note}
use oasis_supabase_core.Interpret.{sanitize_string_array}
use oasis_supabase_core.Interpret.{rejected_ids}
use oasis_supabase_core.Interpret.Conclusion.{with_provenance}
use oasis_supabase_core.Interpret.Conclusion.{parse_order_line}
use oasis_supabase_core.Interpret.Conclusion.{sanitize_order_lines}
use oasis_supabase_core.Interpret.Conclusion.{sanitize_corrections}
use oasis_supabase_core.Prelude.{trim}
use oasis_supabase_core.Interpret.{safe_string}
use oasis_supabase_core.Interpret.{is_object}
use oasis_supabase_core.Interpret.Conclusion.{parse_explicit_fact}
use oasis_supabase_core.Prelude.Json.{as_array}
use oasis_supabase_core.Interpret.{elements}
use oasis_supabase_core.Interpret.Conclusion.{parse_each}
use oasis_supabase_core.Interpret.Conclusion.{sanitize_explicit_facts}
use oasis_supabase_core.Prelude.{starts_with}
use oasis_supabase_core.Prelude.{text_eq}
use oasis_supabase_core.Interpret.{exact_error_status}
use oasis_supabase_core.Prelude.{◌≡◌, ◌⊎◌, refl, Text, List, [], ◌∷◌, codes, some, true}
use oasis_supabase_core.Prelude.Json.{
  Json, string, number, array, object, field, end, cons, nil, get,
}
use oasis_supabase_core.Interpret.{unclear, status_for_interpretation_error}
use oasis_supabase_core.Interpret.Conclusion.{sanitize_interpret_result, sanitize_conclusion}
use oasis_supabase_core.Interpret.Provenance.{IsProven, sanitize-IsProven}

abbrev fact : Text → Json
fact id = object (
    field (codes "provider_message_id") (string id) (
      field (codes "kind") (string (codes "note"))
        (field (codes "value") (string (codes "two <b>")) end)))

abbrev line : Json
line = object (
    field (codes "sku") (string (codes "S1")) (
      field (codes "quantity") (number (codes "2")) (
        field (codes "status") (string (codes "explicit")) (
          field (codes "evidence_ids")
            (array (cons (string (codes "m1")) (cons (string (codes "m9")) nil))) end))))

abbrev answer : Json
answer = object (
    field (codes "conclusion")
      (object (
        field (codes "intent") (string (codes "new_order")) (
          field (codes "explicit_facts")
            (array (cons (fact (codes "m1")) (cons (fact (codes "m9")) nil)))
            (field (codes "order_lines") (array (cons line nil)) end))))
      end)

abbrev no_warnings : List Text
no_warnings = []

abbrev allowed : List Text
allowed = codes "m1" ∷ []

notes_test :
    (sanitize_conclusion (get (codes "conclusion") answer) allowed).1
    ≡ codes "PROVENANCE_ISOLATED:order_line_1:S1 qty=2"
      ∷ codes "PROVENANCE_ISOLATED:explicit_fact_2:note=two b>"
      ∷ []
unfolding sanitize_conclusion sanitize_explicit_facts parse_each elements as_array get text_eq codes
    parse_explicit_fact is_object safe_string trim sanitize_corrections sanitize_order_lines
    parse_order_line with_provenance rejected_ids sanitize_string_array isolation_note decimal
    line_detail positive_number starts_with
notes_test = refl

lines_test :
    (sanitize_interpret_result answer (codes "packet") [] allowed).conclusion.order_lines
    ≡ record {
      product_name = [];
      sku = codes "S1";
      quantity = some (codes "2");
      unit = [];
      status = unclear;
      evidence_ids = codes "m1" ∷ [];
    }
      ∷ []
unfolding sanitize_interpret_result sanitize_conclusion sanitize_corrections parse_each elements
    as_array get text_eq codes sanitize_order_lines parse_order_line is_object safe_string trim
    with_provenance rejected_ids sanitize_string_array is_correction_note starts_with isolation_note
    positive_number valid_ids
lines_test = refl

status_test : status_for_interpretation_error (codes "MEDIA_URL_INVALID") ≡ 422
unfolding status_for_interpretation_error exact_error_status text_eq codes starts_with
status_test = refl

sanitize-IsProven_example :
    IsProven allowed (sanitize_interpret_result answer (codes "packet") [] allowed).conclusion
    × (((sanitize_interpret_result answer
            (codes "packet")
            []
            allowed).conclusion.human_review_required
          ≡ true)
        ⊎ ((no_warnings ≡ [])
            × ((sanitize_conclusion (get (codes "conclusion") answer) allowed).1 ≡ [])))
sanitize-IsProven_example = sanitize-IsProven answer (codes "packet") no_warnings allowed
