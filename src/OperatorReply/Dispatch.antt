-- ===== src/OperatorReply/Dispatch.antt =====
-- The dispatch of queued operator replies, of
-- supabase/functions/_shared/whatsappOperatorReplyDispatch.ts and whatsappProviderAcceptance.ts. The
-- queue's RPCs and the provider are parameters; one store is threaded through all their calls.
pub mod Settlement
pub mod Consume
mod Tests
use oasis_supabase_core.Prelude.{
  ℕ, zero, suc, ◌+◌, Bool, true, false, ◌&&◌, ◌||◌, not, Option, none, some, List, [], ◌∷◌, ◌++◌,
  Text, codes, text_eq, trim, nonempty, starts_with, decimal, take, leb, ◌==◌, if◌then◌else◌,
}
use oasis_supabase_core.Prelude.Json.{
  Json, undefined, null, boolean, number, string, array, object, as_text, get,
}
use oasis_supabase_core.OperatorReply.Delivery.{Reply, gives, fails, rejects}
use oasis_supabase_core.OperatorReply.Reconcile.{string_or_empty}

pub record OperatorReplyRow : Type 0 where
  pub id : Text
  pub lease_token : Text
  pub message_type : Text
  pub recipient_phone_e164 : Text
  pub message_body : Text
  pub template_name : Option Text
  pub template_language : Option Text
  pub message_origin : Text
  pub status : Text

-- an `OperatorReplyDispatchError` with its code, or another error
pub data Attempt {ℓ} (A : Type ℓ) : Type ℓ where
  ok : A → Attempt A
  dispatch_error : Text → Attempt A
  other_error : Attempt A

-- `String(value ?? fallback)`
string_or : Text → Json → Text
unfolding string_or_empty
string_or fallback undefined = fallback
string_or fallback null = fallback
string_or fallback v = string_or_empty v

text_field : Text → Json → Text
unfolding get as_text
text_field key row = elim (as_text (get key row)) [ none ↦ [] | some s ↦ s ]

unfoldable pub parse_claim_row : Json → Option OperatorReplyRow
unfolding text_field string_or get as_text
parse_claim_row row =
    let id = text_field (codes "id") row in
    let token = text_field (codes "lease_token") row in
    if not (nonempty id) || not (nonempty token)
    then none
    else some (record {
      id = id;
      lease_token = token;
      message_type = string_or (codes "TEXT") (get (codes "message_type") row);
      recipient_phone_e164 = string_or [] (get (codes "recipient_phone_e164") row);
      message_body = string_or [] (get (codes "message_body") row);
      template_name = as_text (get (codes "template_name") row);
      template_language = as_text (get (codes "template_language") row);
      message_origin = string_or (codes "STAFF") (get (codes "message_origin") row);
      status = string_or [] (get (codes "status") row);
    })

-- The body of the provider call, to a number.
pub data ProviderPayload : Type 0 where
  template : Text → Option Text → Option Text → ProviderPayload
  message : Text → Text → ProviderPayload

-- `replace(/^\+/, "")`
without_plus : Text → Text
without_plus [] = []
without_plus (c ∷ s) = if c == b'+' then s else c ∷ s

unfoldable pub build_provider_payload : OperatorReplyRow → ProviderPayload
unfolding without_plus
build_provider_payload row =
    let to = without_plus row.recipient_phone_e164 in
    if text_eq row.message_type (codes "TEMPLATE")
    then template to row.template_name row.template_language
    else message to row.message_body

-- A text that is not blank, or a finite number.
id_candidate : Json → Option Text
id_candidate (string s) = if nonempty (trim s) then some s else none
id_candidate (number n) =
    if text_eq n (codes "Infinity") || text_eq n (codes "-Infinity") then none else some n
id_candidate _ = none

first_some : List Json → Option Text
unfolding id_candidate
first_some [] = none
first_some (v ∷ vs) =
    let rest = first_some vs in elim (id_candidate v) [ none ↦ rest | some id ↦ some id ]

unfoldable pub select_click2api_provider_message_id : Json → Option Text
unfolding first_some get
select_click2api_provider_message_id body =
    let nested = get (codes "message") body in
    first_some (
      get (codes "message_id") body
      ∷ get (codes "id") body
      ∷ get (codes "queue_id") body
      ∷ get (codes "message_id") nested
      ∷ get (codes "id") nested
      ∷ get (codes "queue_id") nested
      ∷ [])

pub record FailArgs : Type 0 where
  pub reply_id : Text
  pub lease_token : Text
  pub error_code : Text
  pub error_detail : Text
  pub acceptance_unknown : Bool

pub record CompleteArgs : Type 0 where
  pub reply_id : Text
  pub lease_token : Text
  pub provider_message_id : Text

-- How the provider call ends: no answer within the time, or an HTTP status with a body, which is an
-- empty object when it is no JSON.
pub data Fetched : Type 0 where
  network_error : Text → Fetched
  response : ℕ → Json → Fetched

pub record Queue {ℓ} (Db : Type ℓ) : Type ℓ where
  pub api_key : Option Text
  pub claim : Text → Db → Reply Json × Db
  pub fail : FailArgs → Db → Reply (Unit {0}) × Db
  pub complete : CompleteArgs → Db → Reply Json × Db
  pub fetch : ProviderPayload → Db → Fetched × Db
  pub stringify : Json → Text

pub record DispatchOutcome : Type 0 where
  pub provider_message_id : Text
  pub status : Text

unfoldable pub is_ok_status : ℕ → Bool
is_ok_status n = leb 200 n && leb n 299

abbrev present : Option Text → Bool
present none = false
present (some s) = nonempty s

abbrev trimmed_present : Option Text → Bool
trimmed_present none = false
trimmed_present (some s) = nonempty (trim s)

-- `rpcOrThrow`
unfoldable pub rpc_or_throw {ℓ} : {A : Type ℓ} → Text → Reply A → Attempt A
rpc_or_throw label (gives a) = ok a
rpc_or_throw label (fails _ _) = dispatch_error label
rpc_or_throw label (rejects _) = other_error

-- what follows an awaited call
unfoldable pub then_return {ℓ κ} :
    {A : Type ℓ} {B : Type κ} → Attempt A → (A → Attempt B) → Attempt B
then_return (ok a) f = f a
then_return (dispatch_error e) f = dispatch_error e
then_return other_error f = other_error

module _ {ℓ} {Db : Type ℓ} (queue : Queue Db) where
  open queue use {api_key, claim, fail, complete, fetch, stringify}

  unfoldable pub claim_next_operator_reply : Text → Db → Attempt (Option OperatorReplyRow) × Db
  unfolding rpc_or_throw then_return
  claim_next_operator_reply worker s =
      let answer = claim worker s in
      (
        then_return (rpc_or_throw (codes "CLAIM_FAILED") answer.0)
            (λ row. ok (parse_claim_row row)),
        answer.1,
      )

  unfoldable pub fail_row :
      OperatorReplyRow → Text → Text → Text → Bool → Db → Attempt (Unit {0}) × Db
  unfolding rpc_or_throw
  fail_row row label code detail unknown s =
      let answer =
        fail
          (record {
            reply_id = row.id;
            lease_token = row.lease_token;
            error_code = code;
            error_detail = detail;
            acceptance_unknown = unknown;
          })
          s in
      (rpc_or_throw label answer.0, answer.1)

  outcome : Text → Text → Attempt DispatchOutcome
  outcome id status = ok (record { provider_message_id = id; status = status })

  or_text : Text → Text → Text
  or_text [] fallback = fallback
  or_text (c ∷ s) fallback = c ∷ s

  rejected_code : Bool → ℕ → Text
  rejected_code true status = codes "HTTP_" ++ (decimal status ++ codes "_NO_PROVIDER_ID")
  rejected_code false status = codes "HTTP_" ++ decimal status

  -- the provider's answer without an acceptance
  unfoldable pub reject_row : OperatorReplyRow → ℕ → Json → Db → Attempt DispatchOutcome × Db
  unfolding fail_row then_return outcome or_text rejected_code is_ok_status
  reject_row row status body s =
      let unknown = is_ok_status status in
      let answer =
        fail_row row (codes "FAIL_PROVIDER") (rejected_code unknown status)
          (or_text (take 2000 (stringify body)) (codes "Provider rejected request")) unknown s in
      (
        then_return answer.0 (λ _.
            outcome [] (if unknown then codes "ACCEPTANCE_UNKNOWN" else codes "FAILED_RETRYABLE")),
        answer.1,
      )

  -- reading the status of `null` throws
  accepted_outcome : Text → Json → Attempt DispatchOutcome
  unfolding outcome string_or get
  accepted_outcome id undefined = other_error
  accepted_outcome id null = other_error
  accepted_outcome id completed =
      outcome id (string_or (codes "ACCEPTED") (get (codes "status") completed))

  unfoldable pub complete_row : OperatorReplyRow → Text → Db → Attempt DispatchOutcome × Db
  unfolding rpc_or_throw then_return accepted_outcome
  complete_row row id s =
      let answer =
        complete
          (record { reply_id = row.id; lease_token = row.lease_token; provider_message_id = id })
          s in
      (
        then_return (rpc_or_throw (codes "COMPLETE_FAILED") answer.0)
            (λ completed. accepted_outcome id completed),
        answer.1,
      )

  unfoldable pub answered :
      OperatorReplyRow → ℕ → Json → Option Text → Db → Attempt DispatchOutcome × Db
  answered row status body none s = reject_row row status body s
  answered row status body (some id) s =
      if is_ok_status status then complete_row row id s else reject_row row status body s

  unfoldable pub settle_fetched : OperatorReplyRow → Fetched → Db → Attempt DispatchOutcome × Db
  unfolding then_return outcome
  settle_fetched row (network_error detail) s =
      let answer = fail_row row (codes "FAIL_NETWORK") (codes "NETWORK_TIMEOUT") detail true s in
      (then_return answer.0 (λ _. outcome [] (codes "ACCEPTANCE_UNKNOWN")), answer.1)
  settle_fetched row (response status body) s =
      answered row status body (select_click2api_provider_message_id body) s

  unfoldable pub dispatch_claimed_operator_reply :
      OperatorReplyRow → Db → Attempt DispatchOutcome × Db
  unfolding then_return
  dispatch_claimed_operator_reply row s =
      if not (present api_key)
      then (let answer =
            fail_row row (codes "FAIL_NOT_CONFIGURED") (codes "PROVIDER_NOT_CONFIGURED")
              (codes "CLICK2API_API_KEY absent") false s in
          (then_return answer.0 (λ _. dispatch_error (codes "PROVIDER_NOT_CONFIGURED")), answer.1))
      else let fetched = fetch (build_provider_payload row) s in
        settle_fetched row fetched.0 fetched.1
