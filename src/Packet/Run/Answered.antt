-- ===== src/Packet/Run/Answered.antt =====
-- How a run under a lease is answered, and what it has written by then.
use oasis_supabase_core.Prelude.{
  ℕ, ◌≡◌, refl, none, some, List, [], ◌∷◌, ◌++◌, Text, codes, text_eq, text_eq_iff, ◌⊎◌, inl, inr,
  Bool-cases,
}
use oasis_supabase_core.Prelude.Exec.{Result, ok, thrown}
use oasis_supabase_core.Packet.Queue.{DispatchLease, call, before_colon}
use oasis_supabase_core.Packet.Queue.Calls.{retry_args, retry_dispatch_lease}
use oasis_supabase_core.Packet.Run.{
  WorkerDeps, Answer, returned, request_error, failed, Work, done, not_configured, work, after_work,
  run_lease,
}
use oasis_supabase_core.Packet.Run.Trace.{Event, retried, logged}
use oasis_supabase_core.Packet.Run.Written.{Traces, unconfigured}
use oasis_supabase_core.Packet.Run.Paths.{work-Gives}

-- the message starts with the code of a superseded lease
abbrev pub IsSuperseded : Text → Type 0
IsSuperseded message = before_colon message ≡ codes "DISPATCH_LEASE_SUPERSEDED"

-- the last write is the retry of the lease for this error
abbrev pub EndsRetried : DispatchLease → Text → List Event → Type 0
EndsRetried lease message log =
    (es : List Event) × (log ≡ es ++ retried (retry_args lease message) ∷ [])

abbrev pub IsAnswered :
    {S : Type 0} → WorkerDeps S → DispatchLease → ℕ → List Event → Answer → List Event → Type 0
IsAnswered deps lease started log (returned outcome) log' =
    (es : List Event) × (log' ≡ log ++ es) × Traces deps lease started (done outcome) es
IsAnswered deps lease started log (request_error code status) log' =
    ((deps.api_key ≡ none) ⊎ (deps.api_key ≡ some []))
    × EndsRetried lease (codes "WORKER_NOT_CONFIGURED") log'
IsAnswered deps lease started log (failed message) log' =
    IsSuperseded message ⊎ EndsRetried lease message log'

no_key :
    {S : Type 0} (deps : WorkerDeps S) (lease : DispatchLease) (started : ℕ) (es : List Event)
    → Traces deps lease started not_configured es
    → (deps.api_key ≡ none) ⊎ (deps.api_key ≡ some [])
no_key deps lease started _ (unconfigured absent) = absent

module _ {S : Type 0} (deps : WorkerDeps S) (lease : DispatchLease) where
  retry-Ends :
      (message : Text) (s : S) (log : List Event)
      → IsSuperseded message
        ⊎ EndsRetried lease message
            (retry_dispatch_lease (logged deps).admin lease message (s, log)).1.1
  unfolding retry_dispatch_lease call
  retry-Ends message s log =
      elim (Bool-cases (text_eq (before_colon message) (codes "DISPATCH_LEASE_SUPERSEDED"))) [
        | inl same ↦ inl ((text_eq_iff _ _).0 same)
        | inr other ↦ rw other (inr (log, refl))
      ]

  configured-Ends :
      (s : S) (log : List Event)
      → EndsRetried lease
          (codes "WORKER_NOT_CONFIGURED")
          (retry_dispatch_lease
            (logged deps).admin
            lease
            (codes "WORKER_NOT_CONFIGURED")
            (s, log)).1.1
  unfolding retry_dispatch_lease call before_colon text_eq codes
  configured-Ends s log = (log, refl)

  after_work-IsAnswered :
      (started : ℕ) (log : List Event) (r : Result Work) (t : S × List Event)
      → ((w : Work)
          → r ≡ ok w
          → (es : List Event) × (t.1 ≡ log ++ es) × Traces deps lease started w es)
      → (let run = after_work (logged deps) lease r t in
          IsAnswered deps lease started log run.0 run.1.1)
  unfolding after_work
  after_work-IsAnswered started log (ok (done outcome)) t gives = gives (done outcome) refl
  after_work-IsAnswered started log (ok not_configured) t gives =
      let (es, grown, trace) = gives not_configured refl in
      (no_key deps lease started es trace, configured-Ends t.0 t.1)
  after_work-IsAnswered started log (thrown message) t gives = retry-Ends message t.0 t.1

  -- A run under a lease that returns an outcome has written exactly this, in this order: the completion of
  -- each distinct medium of the content that it prepared from the messages of the lease and the active
  -- snapshot, under the fingerprint of these messages; the interpretation, unless one of this fingerprint
  -- was found; the case, materialized from the found interpretation or, under the id that storing it gave,
  -- from the new one, which was made from that content; at most one governance of that interpretation; and
  -- last the completion of its own lease. A confirmed identity writes the case, from the interpretation that
  -- the database names, and the completion alone. The outcome carries that interpretation and what the
  -- materialization answered. A run that fails, or lacks the key of the provider, writes last the retry of
  -- its lease for that error, unless the error says that the lease was superseded.
  pub run_lease-IsAnswered :
      (started : ℕ) (s : S) (log : List Event)
      → (let run = run_lease (logged deps) started lease (s, log) in
          IsAnswered deps lease started log run.0 run.1.1)
  unfolding run_lease
  run_lease-IsAnswered started s log =
      let worked = work (logged deps) started lease (s, log) in
      after_work-IsAnswered started log worked.0 worked.1
        (λ w e. work-Gives deps lease started s log w e)
