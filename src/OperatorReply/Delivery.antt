-- ===== src/OperatorReply/Delivery.antt =====
-- Persisting provider status callbacks, of whatsappOperatorReplyStatus.ts. The database client and the
-- digest are parameters; a store is threaded through its calls, and each call may also throw.
pub mod Batch
pub mod Uuid
mod Tests
use oasis_supabase_core.Prelude.{
  ℕ, zero, suc, ◌+◌, ◌%◌, ◌/◌, Bool, true, false, ◌&&◌, ◌||◌, not, Option, none, some, List, [],
  ◌∷◌, ◌++◌, map, Text, codes, text_eq, trim, to_lower, nonempty, keep_units, is_digit, take, drop,
  length, decimal, leb, ltb, ◌==◌, if◌then◌else◌,
}
use oasis_supabase_core.Prelude.Json.{Json, is_true, as_text, get}
use oasis_supabase_core.Prelude.Exec.{Result, ok, thrown, Exec, continue, ◌>>=◌, pure, throw}
use oasis_supabase_core.OperatorReply.Status.{
  BoundedProviderStatus, failed_final, status_text, normalize_operator_reply_provider_status,
}

-- An error code is kept as the text that `String` gives.
pub record ProviderStatusEvent : Type 0 where
  pub status : Text
  pub provider_message_id : Option Text
  pub provider_error_code : Option Text

pub record Evidence : Type 0 where
  pub provider_status : Text
  pub target_status : BoundedProviderStatus
  pub provider_error_code : Option Text

pub record PersistArgs : Type 0 where
  pub provider_message_id : Text
  pub status : BoundedProviderStatus
  pub evidence : Evidence

-- an `{ data, error }` answer, or a rejected promise
pub data Reply {ℓ} (A : Type ℓ) : Type ℓ where
  gives : A → Reply A
  fails : Text → Text → Reply A
  rejects : Text → Reply A

-- A row of `debug_webhooks` for a status that no outbox row has.
pub record UnmatchedRow : Type 0 where
  pub id : Text
  pub wamid : Text
  pub provider_status : Text
  pub target_status : BoundedProviderStatus

-- The calls of the database client that this code makes (an error has a code and a message), and
-- SHA-256 of the JSON of a list of texts.
pub record Admin {ℓ} (Db : Type ℓ) : Type ℓ where
  pub persist_rpc : PersistArgs → Db → Reply Json × Db
  pub insert_unmatched : UnmatchedRow → Db → Reply (Unit {0}) × Db
  pub digest : List Text → List ℕ

pub record PersistOutcome : Type 0 where
  pub matched : Bool
  pub updated : Bool
  pub status : Option Text

-- `value ?? ""`
unfoldable pub text_or_empty : Option Text → Text
text_or_empty none = []
text_or_empty (some s) = s

is_code_unit : ℕ → Bool
is_code_unit c =
    (leb b'a' c && leb c b'z')
    || (leb b'A' c && leb c b'Z')
    || is_digit c
    || c == b'_'
    || c == b'.'
    || c == b':'
    || c == b'-'

-- `String(code ?? "").replace(/[^a-zA-Z0-9_.:-]/g, "").slice(0, 64)`
unfoldable pub bounded_error : Option Text → Text
unfolding is_code_unit text_or_empty
bounded_error code = take 64 (keep_units is_code_unit (text_or_empty code))

abbrev some_nonempty : Bool → Text → Option Text
some_nonempty true [] = none
some_nonempty true (c ∷ s) = some (c ∷ s)
some_nonempty false s = none

abbrev is_failed_final : BoundedProviderStatus → Bool
is_failed_final failed_final = true
is_failed_final _ = false

unfoldable pub persist_args : ProviderStatusEvent → Text → BoundedProviderStatus → PersistArgs
unfolding bounded_error
persist_args event id target = record {
  provider_message_id = id;
  status = target;
  evidence = record {
    provider_status = to_lower (trim event.status);
    target_status = target;
    provider_error_code =
        some_nonempty (is_failed_final target) (bounded_error event.provider_error_code);
  };
}

-- what is read of the RPC's answer; null data reads as an empty object
unfoldable pub read_outcome : Json → PersistOutcome
unfolding get is_true as_text
read_outcome payload = record {
  matched = is_true (get (codes "matched") payload);
  updated = is_true (get (codes "updated") payload);
  status = as_text (get (codes "status") payload);
}

-- the bytes with the version and variant bits set
stamp_byte : ℕ → ℕ → ℕ
stamp_byte i b = if i == 6 then b % 16 + 128 else if i == 8 then b % 64 + 128 else b

stamp : ℕ → List ℕ → List ℕ
stamp i [] = []
stamp i (b ∷ bs) = stamp_byte i b ∷ stamp (suc i) bs

hex_digit : ℕ → ℕ
hex_digit d = if ltb d 10 then b'0' + d else 87 + d

hex : List ℕ → Text
hex [] = []
hex (b ∷ bs) = hex_digit (b / 16) ∷ hex_digit (b % 16) ∷ hex bs

-- the five groups of the hexadecimal text
dashed : Text → Text
dashed v =
    take 8 v
    ++ (b'-'
        ∷ (take 4 (drop 8 v)
            ++ (b'-'
                ∷ (take 4 (drop 12 v) ++ (b'-' ∷ (take 4 (drop 16 v) ++ (b'-' ∷ drop 20 v)))))))

unfoldable pub uuid_of_digest : List ℕ → Text
unfolding stamp stamp_byte hex_digit hex dashed
uuid_of_digest digest = dashed (hex (stamp 0 (take 16 digest)))

module _ {ℓ} {Db : Type ℓ} (admin : Admin Db) where
  open admin use {persist_rpc, insert_unmatched, digest}

  unfoldable pub unmatched_status_audit_uuid : Text → Text → Option Text → Text
  unfolding uuid_of_digest bounded_error
  unmatched_status_audit_uuid id status code = uuid_of_digest (
      digest (codes "oasis/wa450/unmatched-status/v1" ∷ trim id ∷ status ∷ bounded_error code ∷ []))

  persist_reply : Reply Json → Exec Db PersistOutcome
  unfolding read_outcome
  persist_reply (gives payload) = pure (read_outcome payload)
  persist_reply (fails code message) = throw (codes "WA_STATUS_RPC_FAILED:" ++ take 160 message)
  persist_reply (rejects e) = throw e

  -- the part after the status is recognised
  persist_recognised : ProviderStatusEvent → BoundedProviderStatus → Exec Db PersistOutcome
  unfolding persist_reply persist_args text_or_empty
  persist_recognised event target s =
      let id = trim (text_or_empty event.provider_message_id) in
      let answer = persist_rpc (persist_args event id target) s in
      if nonempty id
      then persist_reply answer.0 answer.1
      else throw (codes "WA_STATUS_PROVIDER_ID_MISSING") s

  unfoldable pub persist_operator_reply_provider_status :
      ProviderStatusEvent → Exec Db PersistOutcome
  unfolding persist_recognised
  persist_operator_reply_provider_status event s =
      elim (normalize_operator_reply_provider_status event.status) [
        | none ↦ pure (record { matched = false; updated = false; status = none }) s
        | some target ↦ persist_recognised event target s
      ]

  unfoldable pub unmatched_row : ProviderStatusEvent → Text → BoundedProviderStatus → UnmatchedRow
  unfolding unmatched_status_audit_uuid
  unmatched_row event id target = record {
    id = unmatched_status_audit_uuid id (status_text target) event.provider_error_code;
    wamid = id;
    provider_status = to_lower (trim event.status);
    target_status = target;
  }

  -- A duplicate key (23505) is no failure: the row is there.
  unfoldable pub quarantine_reply : Reply (Unit {0}) → Exec Db (Unit {0})
  quarantine_reply (gives _) s = pure tt s
  quarantine_reply (fails code message) s =
      if text_eq code (codes "23505")
      then pure tt s
      else throw (codes "WA_STATUS_QUARANTINE_FAILED:" ++ take 160 message) s
  quarantine_reply (rejects e) s = throw e s

  quarantine_recognised : ProviderStatusEvent → BoundedProviderStatus → Exec Db (Unit {0})
  unfolding quarantine_reply unmatched_row text_or_empty
  quarantine_recognised event target s =
      let id = trim (text_or_empty event.provider_message_id) in
      let answer = insert_unmatched (unmatched_row event id target) s in
      if nonempty id
      then quarantine_reply answer.0 answer.1
      else throw (codes "WA_STATUS_QUARANTINE_INVALID") s

  unfoldable pub quarantine_unmatched_operator_reply_status :
      ProviderStatusEvent → Exec Db (Unit {0})
  unfolding quarantine_recognised
  quarantine_unmatched_operator_reply_status event s =
      elim (normalize_operator_reply_provider_status event.status) [
        | none ↦ throw (codes "WA_STATUS_QUARANTINE_INVALID") s
        | some target ↦ quarantine_recognised event target s
      ]

-- The counters of a batch: `retryable_failures` counts what the `catch` swallows.
pub record Counters : Type 0 where
  pub updated : ℕ
  pub ignored : ℕ
  pub unmatched : ℕ
  pub quarantined : ℕ
  pub retryable_failures : ℕ

pub record ProviderStatusBatchResult : Type 0 where
  pub count : ℕ
  pub updated : ℕ
  pub ignored : ℕ
  pub unmatched : ℕ
  pub quarantined : ℕ

abbrev pub no_events : Counters
no_events = record {
  updated = 0;
  ignored = 0;
  unmatched = 0;
  quarantined = 0;
  retryable_failures = 0;
}

unfoldable pub count_failure : Counters → Counters
count_failure c = record c { retryable_failures = c.retryable_failures + 1 }

-- after the quarantine of an unmatched event, which is counted before it
unfoldable pub count_quarantine : Counters → Result (Unit {0}) → Counters
unfolding count_failure
count_quarantine c (ok _) = record c { quarantined = c.quarantined + 1 }
count_quarantine c (thrown _) = count_failure c

module _ {ℓ} {Db : Type ℓ} (admin : Admin Db) where
  unfoldable pub handle_outcome :
      ProviderStatusEvent → Counters → Result PersistOutcome → Db → Counters × Db
  unfolding count_quarantine count_failure
  handle_outcome event c (thrown _) s = (count_failure c, s)
  handle_outcome event c (ok outcome) s =
      if not outcome.matched
      then (let done = quarantine_unmatched_operator_reply_status admin event s in
          (count_quarantine (record c { unmatched = c.unmatched + 1 }) done.0, done.1))
      else if outcome.updated
      then (record c { updated = c.updated + 1 }, s)
      else (c, s)

  -- the body of the loop
  unfoldable pub handle_event : ProviderStatusEvent → Counters → Db → Counters × Db
  unfolding handle_outcome
  handle_event event c s = elim (normalize_operator_reply_provider_status event.status) [
    | none ↦ (record c { ignored = c.ignored + 1 }, s)
    | some _ ↦
        (let answer = persist_operator_reply_provider_status admin event s in
          handle_outcome event c answer.0 answer.1)
  ]

  unfoldable pub handle_events : List ProviderStatusEvent → Counters → Db → Counters × Db
  handle_events [] c s = (c, s)
  handle_events (event ∷ events) c s =
      let next = handle_event event c s in handle_events events next.0 next.1

  unfoldable pub persist_operator_reply_provider_status_batch :
      List ProviderStatusEvent → Exec Db ProviderStatusBatchResult
  persist_operator_reply_provider_status_batch events s =
      let done = handle_events events no_events s in
      if ltb 0 done.0.retryable_failures
      then throw (codes "WA_STATUS_BATCH_RETRYABLE_FAILURES:" ++ decimal done.0.retryable_failures)
          done.1
      else pure
          (record {
            count = length events;
            updated = done.0.updated;
            ignored = done.0.ignored;
            unmatched = done.0.unmatched;
            quarantined = done.0.quarantined;
          })
          done.1
