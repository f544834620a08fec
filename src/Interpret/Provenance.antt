-- ===== src/Interpret/Provenance.antt =====
-- What a sanitized answer says is backed by messages of the packet.
use oasis_supabase_core.Prelude.{
  ℕ, suc, ◌≡◌, ◌<◌, refl, Bool, true, false, ◌&&◌, ◌||◌, not, Option, none, some, List, [], ◌∷◌,
  Text, codes, nonempty, any, list_contains, take, length, arith, All, Bool-cases, ◌⊎◌, inl, inr,
  to_lower,
}
use oasis_supabase_core.Prelude.Json.{Json, get, as_array}
use oasis_supabase_core.Interpret.{
  ExplicitFact, unclear, OrderLine, Correction, AiConclusion, safe_string, sanitize_string_array,
  valid_ids, rejected_ids, is_object, positive_number, elements,
}
use oasis_supabase_core.Interpret.Conclusion.{
  Notes, parse_explicit_fact, raw_status, is_explicit, with_provenance, parse_order_line,
  parse_correction, keep, parse_each, sanitize_explicit_facts, sanitize_order_lines,
  sanitize_corrections, is_correction_note, downgrade, sanitize_conclusion,
  sanitize_interpret_result, nonempty_list, has_any, is_some,
}

abbrev pub IsAllowed : List Text → Text → Type 0
IsAllowed allowed id = list_contains allowed id ≡ true

-- A line is not explicit, or it names a product or an SKU and cites a message.
abbrev pub IsBacked : OrderLine → Type 0
IsBacked line =
    (is_explicit line.status ≡ false)
    ⊎ (((nonempty line.product_name || nonempty line.sku) ≡ true) × (0 < length line.evidence_ids))

abbrev pub LineIsProven : List Text → OrderLine → Type 0
LineIsProven allowed line = All (IsAllowed allowed) line.evidence_ids × IsBacked line

pub record IsProven (allowed : List Text) (c : AiConclusion) : Type 0 where
  pub facts : All (λ (f : ExplicitFact). IsAllowed allowed f.provider_message_id) c.explicit_facts
  pub corrections : All (λ (x : Correction). IsAllowed allowed x.provider_message_id) c.corrections
  pub lines : All (LineIsProven allowed) c.order_lines

-- A predicate of what a parser may give.
abbrev pub Gives {ℓ κ} : {A : Type ℓ} → (A → Type κ) → Option A → Type κ
Gives P none = Unit
Gives P (some x) = P x

module _ {ℓ κ} {A : Type ℓ} (P : A → Type κ) where
  keep-All : (o : Option A) (xs : List A) → Gives P o → All P xs → All P (keep o xs)
  unfolding keep
  keep-All none xs h k = k
  keep-All (some x) xs h k = (h, k)

  parse_each-All :
      (parse : Json → ℕ → Notes → Option A × Notes)
      → ((v : Json) (i : ℕ) (n : Notes) → Gives P (parse v i n).0)
      → (vs : List Json) (i : ℕ) (n : Notes) → All P (parse_each parse vs i n).0
  unfolding parse_each
  parse_each-All parse h [] i n = tt
  parse_each-All parse h (v ∷ vs) i n =
      keep-All (parse v i n).0 (parse_each parse vs (suc i) (parse v i n).1).0 (h v i n)
        (parse_each-All parse h vs (suc i) (parse v i n).1)

valid_ids-IsAllowed : (allowed ids : List Text) → All (IsAllowed allowed) (valid_ids allowed ids)
unfolding valid_ids
valid_ids-IsAllowed allowed [] = tt
valid_ids-IsAllowed allowed (id ∷ ids) = elim (Bool-cases (list_contains allowed id)) [
  | inl h ↦ rw h (h, valid_ids-IsAllowed allowed ids)
  | inr h ↦ rw h (valid_ids-IsAllowed allowed ids)
]

module _ (allowed : List Text) (entry : Json) (index : ℕ) (notes : Notes) where
  fact-Gives :
      Gives
        (λ (f : ExplicitFact). IsAllowed allowed f.provider_message_id)
        (parse_explicit_fact allowed entry index notes).0
  unfolding parse_explicit_fact
  fact-Gives =
      let id = safe_string (get (codes "provider_message_id") entry) 240 in
      let kind = safe_string (get (codes "kind") entry) 80 in
      let value = safe_string (get (codes "value") entry) 600 in
      elim (Bool-cases (
        not (is_object entry)
        || not (nonempty id)
        || not (nonempty kind)
        || not (nonempty value))) [
          | inl e ↦ rw e tt
          | inr e ↦ elim (Bool-cases (list_contains allowed id)) [
            | inl h ↦ rw (e, h) h
            | inr h ↦ rw (e, h) tt
          ]
        ]

  correction-Gives :
      Gives
        (λ (x : Correction). IsAllowed allowed x.provider_message_id)
        (parse_correction allowed entry index notes).0
  unfolding parse_correction
  correction-Gives =
      let id = safe_string (get (codes "provider_message_id") entry) 240 in
      let replacement = safe_string (get (codes "replacement") entry) 500 in
      elim (Bool-cases (not (is_object entry) || not (nonempty id) || not (nonempty replacement))) [
        | inl e ↦ rw e tt
        | inr e ↦ elim (Bool-cases (list_contains allowed id)) [
          | inl h ↦ rw (e, h) h
          | inr h ↦ rw (e, h) tt
        ]
      ]

some_of_nonempty_list : (xs : List Text) → nonempty_list xs ≡ true → 0 < length xs
unfolding nonempty_list
some_of_nonempty_list [] h = cc
some_of_nonempty_list (x ∷ xs) h = omega arith

raw_status_named :
    (s : Text) (named : Bool) → is_explicit (raw_status s named) ≡ true → named ≡ true
unfolding raw_status is_explicit
raw_status_named s true h = refl
raw_status_named s false h = cc

unclear_not_explicit : is_explicit unclear ≡ false
unfolding is_explicit
unclear_not_explicit = refl

with_provenance-LineIsProven :
    (allowed valid rejected : List Text) (line : OrderLine) (index : ℕ) (notes : Notes)
    → All (IsAllowed allowed) valid
    → (is_explicit line.status ≡ true → (nonempty line.product_name || nonempty line.sku) ≡ true)
    → LineIsProven allowed (with_provenance valid rejected line index notes).0
unfolding with_provenance
with_provenance-LineIsProven allowed valid rejected line index notes h named =
    elim (Bool-cases
      (nonempty_list rejected || (is_explicit line.status && not (nonempty_list valid)))) [
        | inl e ↦ rw e (h, inl unclear_not_explicit)
        | inr e ↦ rw e (
          h,
          elim (Bool-cases (is_explicit line.status)) [
            | inl x ↦ inr (named x, some_of_nonempty_list valid (ground arith))
            | inr x ↦ inl x
          ],
        )
      ]

line-Gives :
    (allowed : List Text) (entry : Json) (index : ℕ) (notes : Notes)
    → Gives (LineIsProven allowed) (parse_order_line allowed entry index notes).0
unfolding parse_order_line
line-Gives allowed entry index notes =
    let product = safe_string (get (codes "product_name") entry) 240 in
    let sku = safe_string (get (codes "sku") entry) 120 in
    let quantity = positive_number (get (codes "quantity") entry) in
    let ids = sanitize_string_array (get (codes "evidence_ids") entry) 16 240 in
    let named = nonempty product || nonempty sku in
    let status = to_lower (safe_string (get (codes "status") entry) 32) in
    let line : OrderLine = record {
      product_name = product;
      sku = sku;
      quantity = quantity;
      unit = safe_string (get (codes "unit") entry) 80;
      status = raw_status status named;
      evidence_ids = [];
    } in
    elim (Bool-cases (not (is_object entry) || (not named && not (is_some quantity)))) [
      | inl e ↦ rw e tt
      | inr e ↦ rw e (
          with_provenance-LineIsProven allowed (valid_ids allowed ids) (rejected_ids allowed ids)
            line index notes (valid_ids-IsAllowed allowed ids) (raw_status_named status named))
    ]

downgrade-LineIsProven :
    (allowed : List Text) (lines : List OrderLine)
    → All (LineIsProven allowed) lines
    → All (LineIsProven allowed) (downgrade lines)
unfolding downgrade
downgrade-LineIsProven allowed [] h = tt
downgrade-LineIsProven allowed (l ∷ ls) ((ids, backed), h) =
    ((ids, inl unclear_not_explicit), downgrade-LineIsProven allowed ls h)

module _ (value : Json) (allowed : List Text) where
  sanitize_conclusion-IsProven : IsProven allowed (sanitize_conclusion value allowed).0
  unfolding sanitize_conclusion sanitize_order_lines sanitize_corrections sanitize_explicit_facts
  sanitize_conclusion-IsProven =
      let lines =
        parse_each (parse_order_line allowed)
          (take 50 (elements (as_array (get (codes "order_lines") value)))) 0 [] in
      let proven =
        parse_each-All (LineIsProven allowed) (parse_order_line allowed) (line-Gives allowed)
          (take 50 (elements (as_array (get (codes "order_lines") value)))) 0 [] in
      let corrections =
        parse_each (parse_correction allowed)
          (take 25 (elements (as_array (get (codes "corrections") value)))) 0 lines.1 in
      record {
        facts =
            parse_each-All (λ (f : ExplicitFact). IsAllowed allowed f.provider_message_id)
              (parse_explicit_fact allowed) (fact-Gives allowed)
              (take 50 (elements (as_array (get (codes "explicit_facts") value)))) 0 corrections.1;
        corrections =
            parse_each-All (λ (x : Correction). IsAllowed allowed x.provider_message_id)
              (parse_correction allowed) (correction-Gives allowed)
              (take 25 (elements (as_array (get (codes "corrections") value)))) 0 lines.1;
        lines = elim (Bool-cases (any is_correction_note corrections.1)) [
          | inl e ↦ rw e (downgrade-LineIsProven allowed lines.0 proven)
          | inr e ↦ rw e proven
        ];
      }

has_any_nil : (xs : List Text) → has_any xs ≡ false → xs ≡ []
unfolding has_any
has_any_nil [] h = refl
has_any_nil (x ∷ xs) h = cc

-- What is kept of an answer is proven: every fact, every correction and every id that an order line
-- cites names a message of the packet, and an explicit line names a product or an SKU and cites a
-- message. An answer that needs no human review came with no warning, and nothing was isolated
-- from it.
pub sanitize-IsProven :
    (raw : Json) (source_kind : Text) (warnings allowed : List Text)
    → IsProven allowed (sanitize_interpret_result raw source_kind warnings allowed).conclusion
      × (((sanitize_interpret_result raw source_kind warnings
              allowed).conclusion.human_review_required
            ≡ true)
          ⊎ ((warnings ≡ [])
              × ((sanitize_conclusion (get (codes "conclusion") raw) allowed).1 ≡ [])))
unfolding sanitize_interpret_result
sanitize-IsProven raw source_kind warnings allowed =
    let proven = sanitize_conclusion-IsProven (get (codes "conclusion") raw) allowed in
    (
      record { facts = proven.facts; corrections = proven.corrections; lines = proven.lines },
      elim (Bool-cases
          (sanitize_interpret_result raw source_kind warnings
            allowed).conclusion.human_review_required) [
              | inl reviewed ↦ inl reviewed
              | inr h ↦ inr (
                has_any_nil warnings (ground arith),
                has_any_nil (sanitize_conclusion (get (codes "conclusion") raw) allowed).1
                    (ground arith),
              )
            ],
    )
