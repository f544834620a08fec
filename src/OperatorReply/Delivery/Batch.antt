-- ===== src/OperatorReply/Delivery/Batch.antt =====
-- What a batch of provider status callbacks reports and writes.
use oasis_supabase_core.Prelude.{
  ℕ, ◌+◌, ◌≤◌, ◌≡◌, refl, ◌∙◌, ap, Bool, true, false, not, ◌&&◌, ◌||◌, Option, none, some, List, [],
  ◌∷◌, length, arith, if◌then◌else◌, ltb,
}
use oasis_supabase_core.Prelude.Exec.{Result, ok, thrown}
use oasis_supabase_core.OperatorReply.Status.{
  BoundedProviderStatus, normalize_operator_reply_provider_status,
}
use oasis_supabase_core.OperatorReply.Delivery.{
  ProviderStatusEvent, Admin, PersistOutcome, Counters, ProviderStatusBatchResult, no_events,
  handle_event, handle_events, persist_operator_reply_provider_status_batch,
  persist_operator_reply_provider_status, quarantine_unmatched_operator_reply_status,
}

-- an unmatched event is quarantined or counted as a failure
record IsBalanced (c : Counters) : Type 0 where
  lower : c.unmatched ≤ c.quarantined + c.retryable_failures
  upper : c.quarantined ≤ c.unmatched

abbrev is_unrecognised : Option BoundedProviderStatus → ℕ
is_unrecognised none = 1
is_unrecognised (some _) = 0

-- how many events have a status outside the receipts that are tracked
abbrev pub unrecognised : List ProviderStatusEvent → ℕ
unrecognised [] = 0
unrecognised (e ∷ es) =
    is_unrecognised (normalize_operator_reply_provider_status e.status) + unrecognised es

abbrev handled : Counters → ℕ
handled c = c.updated + c.ignored + c.unmatched

module _ {ℓ} {Db : Type ℓ} (admin : Admin Db) where
  handle_event-IsBalanced :
      (e : ProviderStatusEvent) (c : Counters) (s : Db)
      → IsBalanced c
      → IsBalanced (handle_event admin e c s).0
  unfolding handle_event
  handle_event-IsBalanced e c s b = ground arith

  handle_event-counts :
      (e : ProviderStatusEvent) (c : Counters) (s : Db)
      → let c' = (handle_event admin e c s).0 in
        (c'.ignored
          ≡ c.ignored + is_unrecognised (normalize_operator_reply_provider_status e.status))
        × (handled c' ≤ handled c + 1)
  unfolding handle_event
  handle_event-counts e c s = ground arith

  handle_events-IsBalanced :
      (es : List ProviderStatusEvent) (c : Counters) (s : Db)
      → IsBalanced c
      → IsBalanced (handle_events admin es c s).0
  unfolding handle_events
  handle_events-IsBalanced [] c s b = b
  handle_events-IsBalanced (e ∷ es) c s b =
      let next = handle_event admin e c s in
      handle_events-IsBalanced es next.0 next.1 (handle_event-IsBalanced e c s b)

  handle_events-counts :
      (es : List ProviderStatusEvent) (c : Counters) (s : Db)
      → let c' = (handle_events admin es c s).0 in
        (c'.ignored ≡ c.ignored + unrecognised es) × (handled c' ≤ handled c + length es)
  unfolding handle_events
  handle_events-counts [] c s = omega arith
  handle_events-counts (e ∷ es) c s =
      let next = handle_event admin e c s in
      omega (arith, handle_events-counts es next.0 next.1, handle_event-counts e c s)

  -- A batch that does not throw reports every event it was given, as ignored exactly those whose
  -- status is not a tracked receipt, has quarantined every unmatched event, and counts no event as
  -- two of updated, ignored and unmatched.
  pub batch_report :
      (es : List ProviderStatusEvent) (s s' : Db) (r : ProviderStatusBatchResult)
      → persist_operator_reply_provider_status_batch admin es s ≡ (ok r, s')
      → (r.count ≡ length es)
        × (r.ignored ≡ unrecognised es)
        × (r.quarantined ≡ r.unmatched)
        × (r.updated + r.ignored + r.unmatched ≤ r.count)
  unfolding persist_operator_reply_provider_status_batch
  batch_report es s s' r h = ground (
    arith,
    handle_events-counts es no_events s,
    handle_events-IsBalanced es no_events s (omega arith),
  )

abbrev pub succeeded {ℓ} : {A : Type ℓ} → Result A → Bool
succeeded (ok _) = true
succeeded (thrown _) = false

module _ {ℓ} {Db : Type ℓ} (admin : Admin Db) where
  abbrev persisted : ProviderStatusEvent → Result PersistOutcome → Db → Bool
  persisted e (thrown _) s = false
  persisted e (ok o) s =
      o.matched || succeeded (quarantine_unmatched_operator_reply_status admin e s).0

  abbrev recognised_ok : Option BoundedProviderStatus → ProviderStatusEvent → Db → Bool
  recognised_ok none e s = true
  recognised_ok (some _) e s =
      let answer = persist_operator_reply_provider_status admin e s in persisted e answer.0 answer.1

  -- One event handled at a store without a failure: its status is not a tracked receipt, or it is
  -- persisted and, when no outbox row has it, quarantined.
  abbrev pub event_ok : ProviderStatusEvent → Db → Bool
  event_ok e s = recognised_ok (normalize_operator_reply_provider_status e.status) e s

  -- The store after one event, however it went.
  abbrev pub store_after : ProviderStatusEvent → Db → Db
  store_after e s = (handle_event admin e no_events s).1

  abbrev pub events_ok : List ProviderStatusEvent → Db → Bool
  events_ok [] s = true
  events_ok (e ∷ es) s = event_ok e s && events_ok es (store_after e s)

  abbrev pub store_after_all : List ProviderStatusEvent → Db → Db
  store_after_all [] s = s
  store_after_all (e ∷ es) s = store_after_all es (store_after e s)

  handle_event_store :
      (e : ProviderStatusEvent) (c : Counters) (s : Db)
      → (handle_event admin e c s).1 ≡ store_after e s
  unfolding handle_event
  handle_event_store e c s = ground arith

  handle_events_store :
      (es : List ProviderStatusEvent) (c : Counters) (s : Db)
      → (handle_events admin es c s).1 ≡ store_after_all es s
  unfolding handle_events
  handle_events_store [] c s = refl
  handle_events_store (e ∷ es) c s =
      handle_events_store es (handle_event admin e c s).0 (handle_event admin e c s).1
      ∙ ap (store_after_all es) (handle_event_store e c s)

  -- No event starves a later one: whether the batch throws or not, each event is handled in turn at
  -- the store that the events before it left.
  pub batch_store :
      (es : List ProviderStatusEvent) (s : Db)
      → (persist_operator_reply_provider_status_batch admin es s).1 ≡ store_after_all es s
  unfolding persist_operator_reply_provider_status_batch
  batch_store es s = ground (arith, handle_events_store es no_events s)

  handle_event_failures :
      (e : ProviderStatusEvent) (c : Counters) (s : Db)
      → (handle_event admin e c s).0.retryable_failures
        ≡ c.retryable_failures + (if event_ok e s then 0 else 1)
  unfolding handle_event
  handle_event_failures e c s = ground arith

  handle_events_grow :
      (es : List ProviderStatusEvent) (c : Counters) (s : Db)
      → c.retryable_failures ≤ (handle_events admin es c s).0.retryable_failures
  unfolding handle_events
  handle_events_grow [] c s = omega arith
  handle_events_grow (e ∷ es) c s =
      let next = handle_event admin e c s in
      ground (arith, handle_event_failures e c s, handle_events_grow es next.0 next.1)

  handle_events_failures :
      (es : List ProviderStatusEvent) (c : Counters) (s : Db)
      → ltb c.retryable_failures (handle_events admin es c s).0.retryable_failures
        ≡ not (events_ok es s)
  unfolding handle_events
  handle_events_failures [] c s = ground arith
  handle_events_failures (e ∷ es) c s =
      let next = handle_event admin e c s in
      ground (
        arith,
        handle_event_failures e c s,
        handle_events_failures es next.0 next.1,
        handle_events_grow es next.0 next.1,
        handle_event_store e c s,
      )

  -- A batch succeeds exactly when every event is handled without a failure at the store that the
  -- events before it left: no failure is hidden, and nothing else makes the batch throw.
  pub batch-succeeded :
      (es : List ProviderStatusEvent) (s : Db)
      → succeeded (persist_operator_reply_provider_status_batch admin es s).0 ≡ events_ok es s
  unfolding persist_operator_reply_provider_status_batch
  batch-succeeded es s = ground (arith, handle_events_failures es no_events s)
