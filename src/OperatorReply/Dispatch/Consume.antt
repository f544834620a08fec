-- ===== src/OperatorReply/Dispatch/Consume.antt =====
-- The loop `consumeAvailableReplies` of whatsappOperatorReplyDispatch.ts.
use oasis_supabase_core.Prelude.{
  ℕ, zero, suc, ◌+◌, ◌≤◌, ◌≡◌, Bool, true, false, ◌&&◌, ◌||◌, not, Option, none, some, List, [],
  ◌∷◌, ◌++◌, Text, codes, text_eq, starts_with, length, ◌==◌, if◌then◌else◌,
}
use oasis_supabase_core.OperatorReply.Dispatch.{
  OperatorReplyRow, Attempt, ok, dispatch_error, DispatchOutcome, Queue, trimmed_present,
  claim_next_operator_reply, dispatch_claimed_operator_reply,
}

pub record Progress : Type 0 where
  pub processed : ℕ
  pub failed : ℕ
  pub errors : List Text

pub record ConsumeResult : Type 0 where
  pub success : Bool
  pub idle : Bool
  pub processed : ℕ
  pub failed : ℕ
  pub errors : List Text

unfoldable pub record_failure : Progress → Text → Progress
record_failure p code = record p { failed = p.failed + 1; errors = p.errors ++ code ∷ [] }

-- the code of an error, or the given one
unfoldable pub error_code {ℓ} : {A : Type ℓ} → Text → Attempt A → Text
error_code fallback (dispatch_error code) = code
error_code fallback _ = fallback

-- What a dispatch adds, and whether the loop breaks after it.
unfoldable pub after_dispatch : Progress → Attempt DispatchOutcome → Progress × Bool
after_dispatch p (ok outcome) =
    if text_eq outcome.status (codes "ACCEPTANCE_UNKNOWN")
    then (record_failure p (codes "ACCEPTANCE_UNKNOWN"), false)
    else if starts_with outcome.status (codes "FAILED")
        || text_eq outcome.status (codes "FAILED_FINAL")
    then (record_failure p outcome.status, false)
    else (record p { processed = p.processed + 1 }, false)
after_dispatch p error =
    let code = error_code (codes "DISPATCH_FAILED") error in
    (record_failure p code, text_eq code (codes "PROVIDER_NOT_CONFIGURED"))

unfoldable pub finish : Bool → Progress → ConsumeResult
finish idle p = record {
  success = p.failed == 0;
  idle = idle;
  processed = p.processed;
  failed = p.failed;
  errors = p.errors;
}

module _ {ℓ} {Db : Type ℓ} (queue : Queue Db) (worker : Text) where
  -- what a claim leads to: the rest of the loop is `again`
  unfoldable pub after_claim :
      (Progress → Db → ConsumeResult × Db)
      → Progress
      → Attempt (Option OperatorReplyRow)
      → Db
      → ConsumeResult × Db
  after_claim again p (ok none) s = (finish (p.processed == 0 && p.failed == 0) p, s)
  after_claim again p (ok (some row)) s =
      let done = dispatch_claimed_operator_reply queue row s in
      let (p', broken) = after_dispatch p done.0 in
      let rest = again p' done.1 in if broken then (finish false p', done.1) else rest
  after_claim again p error s =
      (finish false (record_failure p (error_code (codes "CLAIM_FAILED") error)), s)

  unfoldable pub consume_from : ℕ → Progress → Db → ConsumeResult × Db
  consume_from zero p s = (finish false p, s)
  consume_from (suc left) p s =
      let claimed = claim_next_operator_reply queue worker s in
      after_claim (consume_from left) p claimed.0 claimed.1

  unfoldable pub consume_available_replies : ℕ → Db → ConsumeResult × Db
  consume_available_replies max_replies s =
      if not (trimmed_present queue.api_key)
      then (
        record {
          success = false;
          idle = true;
          processed = 0;
          failed = 1;
          errors = codes "PROVIDER_NOT_CONFIGURED" ∷ [];
        },
        s,
      )
      else consume_from max_replies (record { processed = 0; failed = 0; errors = [] }) s

-- The report of a loop that may still make `left` claims.
record IsReport (p : Progress) (left : ℕ) (r : ConsumeResult) : Type 0 where
  bounded : r.processed + r.failed ≤ p.processed + p.failed + left
  listed : length r.errors ≡ r.failed
  exact : r.success ≡ (r.failed == 0)
  quiet : r.idle ≡ true → (r.processed ≡ 0) × (r.failed ≡ 0)

abbrev Listed : Progress → Type 0
Listed p = length p.errors ≡ p.failed
