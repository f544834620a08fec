-- ===== src/OperatorReply/Dispatch/Settlement.antt =====
-- How a claimed reply is settled with the queue, of whatsappOperatorReplyDispatch.ts.
use oasis_supabase_core.Prelude.{
  ℕ, ◌≡◌, refl, true, false, Option, none, some, List, [], ◌∷◌, ◌++◌, Text, ◌⊎◌, inl, inr,
  Bool-cases,
}
use oasis_supabase_core.Prelude.Json.{Json}
use oasis_supabase_core.OperatorReply.Dispatch.{
  OperatorReplyRow, Attempt, FailArgs, CompleteArgs, Fetched, network_error, response, Queue,
  present, answered, DispatchOutcome, is_ok_status, build_provider_payload,
  select_click2api_provider_message_id, fail_row, reject_row, complete_row, settle_fetched,
  dispatch_claimed_operator_reply,
}

-- A write to the queue about a claimed reply.
pub data Settlement : Type 0 where
  failing : FailArgs → Settlement
  completing : CompleteArgs → Settlement

-- The queue with a log of these writes beside its store.
abbrev pub logged {ℓ} : {Db : Type ℓ} → Queue Db → Queue (Db × List Settlement)
logged q = record {
  api_key = q.api_key;
  claim = λ worker s. let r = q.claim worker s.0 in (r.0, (r.1, s.1));
  fail = λ args s. let r = q.fail args s.0 in (r.0, (r.1, s.1 ++ failing args ∷ []));
  complete = λ args s. let r = q.complete args s.0 in (r.0, (r.1, s.1 ++ completing args ∷ []));
  fetch = λ payload s. let r = q.fetch payload s.0 in (r.0, (r.1, s.1));
  stringify = q.stringify;
}

abbrev pub IsLeaseOf : OperatorReplyRow → Settlement → Type 0
IsLeaseOf row (failing a) = (a.reply_id ≡ row.id) × (a.lease_token ≡ row.lease_token)
IsLeaseOf row (completing a) = (a.reply_id ≡ row.id) × (a.lease_token ≡ row.lease_token)

-- The provider answered, and not with success.
abbrev pub IsRefused : Fetched → Type 0
IsRefused (network_error _) = ⊥
IsRefused (response status body) = is_ok_status status ≡ false

-- The provider answered with success and this message id.
abbrev pub IsAccepted : Text → Fetched → Type 0
IsAccepted id (network_error _) = ⊥
IsAccepted id (response status body) =
    (is_ok_status status ≡ true) × (select_click2api_provider_message_id body ≡ some id)

abbrev pub IsJustified : Option Text → Fetched → Settlement → Type 0
IsJustified key fetched (failing a) =
    (a.acceptance_unknown ≡ true) ⊎ ((present key ≡ false) ⊎ IsRefused fetched)
IsJustified key fetched (completing a) =
    (present key ≡ true) × IsAccepted a.provider_message_id fetched

-- The log has one write more, for the row, and justified.
abbrev pub SettledOnce :
    Option Text → OperatorReplyRow → Fetched → List Settlement → List Settlement → Type 0
SettledOnce key row fetched log log' =
    (x : Settlement) × (log' ≡ log ++ x ∷ []) × IsLeaseOf row x × IsJustified key fetched x

module _ {ℓ} {Db : Type ℓ} (queue : Queue Db) (row : OperatorReplyRow) where
  abbrev Settles :
      Fetched → List Settlement → Attempt DispatchOutcome × (Db × List Settlement) → Type 0
  Settles fetched log r = SettledOnce queue.api_key row fetched log r.1.1

  reject_row-Settles :
      (status : ℕ) (body : Json) (s : Db) (log : List Settlement)
      → Settles (response status body) log (reject_row (logged queue) row status body (s, log))
  unfolding reject_row fail_row
  reject_row-Settles status body s log = (
    failing _,
    refl,
    (refl, refl),
    elim (Bool-cases (is_ok_status status)) [ inl good ↦ inl good | inr bad ↦ inr (inr bad) ],
  )

  answered-Settles :
      (status : ℕ) (body : Json) (id : Option Text) (s : Db) (log : List Settlement)
      → present queue.api_key ≡ true
      → select_click2api_provider_message_id body ≡ id
      → Settles (response status body) log (answered (logged queue) row status body id (s, log))
  unfolding answered complete_row
  answered-Settles status body none s log key e = reject_row-Settles status body s log
  answered-Settles status body (some id) s log key e = elim (Bool-cases (is_ok_status status)) [
    | inl good ↦ rw (good, answered) (completing _, refl, (refl, refl), (key, (good, e)))
    | inr bad ↦ rw (bad, answered) (reject_row-Settles status body s log)
  ]

  settle_fetched-Settles :
      (fetched : Fetched) (s : Db) (log : List Settlement)
      → present queue.api_key ≡ true
      → Settles fetched log (settle_fetched (logged queue) row fetched (s, log))
  unfolding settle_fetched fail_row
  settle_fetched-Settles (network_error detail) s log key =
      (failing _, refl, (refl, refl), inl refl)
  settle_fetched-Settles (response status body) s log key =
      answered-Settles status body _ s log key refl

-- Dispatching a claimed reply writes to the queue exactly once, for that reply under its lease. It is
-- completed only with the message id of a successful provider answer, and failed as not accepted only
-- when no provider call was made for want of a key or the provider answered without success: a call
-- that may have been accepted is never put down as a plain failure.
pub dispatch-SettledOnce {ℓ} :
    {Db : Type ℓ} (queue : Queue Db) (row : OperatorReplyRow) (s : Db) (log : List Settlement)
    → SettledOnce queue.api_key row
        (queue.fetch (build_provider_payload row) s).0
        log
        (dispatch_claimed_operator_reply (logged queue) row (s, log)).1.1
unfolding dispatch_claimed_operator_reply fail_row
dispatch-SettledOnce queue row s log = elim (Bool-cases (present queue.api_key)) [
  | inl key ↦
      rw (key, dispatch_claimed_operator_reply)
        (settle_fetched-Settles queue row (queue.fetch (build_provider_payload row) s).0 _ log key)
  | inr absent ↦
      rw (absent, dispatch_claimed_operator_reply) (failing _, refl, (refl, refl), inr (inl absent))
]
