-- ===== src/Packet/Run/Settled.antt =====
-- What a leased run that returns has written.
use mathlib.Core.List.{append-nil}
use oasis_supabase_core.Prelude.{
  ℕ, ◌≡◌, refl, sym, ap, ◌||◌, not, Option, none, some, List, [], ◌∷◌, ◌++◌, Text, codes, nonempty,
  list_contains, to_upper, ◌⊎◌, inl, inr, Bool-cases,
}
use oasis_supabase_core.Prelude.Json.{Json, get}
use oasis_supabase_core.Prelude.Exec.{Exec, ◌>>=◌, pure}
use oasis_supabase_core.Interpret.{safe_string}
use oasis_supabase_core.Packet.Queue.{
  DispatchLease, ExecutionKind, packet, case_context, GovernArgs, Admin, job_of, call,
  with_dispatch_lease_rpc_args,
}
use oasis_supabase_core.Packet.Queue.Calls.{
  continuation_of, found_packet, load_for, load_case_context, govern_args, load_packet,
  complete_one_media, complete_each, materialize_case, apply_non_order_governance,
  complete_dispatch_lease, continuation_interpretation_id, non_order_governance_case_types,
}
use oasis_supabase_core.Packet.Run.{
  WorkerDeps, WorkerOutcome, continued, Work, done, settle_case, continue_case,
}
use oasis_supabase_core.Packet.Run.Quiet.{Quiet, bind-Quiet}
use oasis_supabase_core.Packet.Run.Written.{
  media_events, materializing, advised, governing, IsSettled, Traces, continuing,
}
use oasis_supabase_core.Packet.Run.Trace.{
  Answers, Event, media_done, governed, completed, logged, logged_admin, Gives, bind-Gives,
  tells-Gives, pure-Gives,
}

module _ {S : Type 0} (admin : Admin S) where
  pub complete_each-Gives :
      (ids : List Text) (fingerprint : Text)
      → Gives
          (complete_each (logged_admin admin) ids fingerprint)
          (λ u es. es ≡ media_events fingerprint ids)
  unfolding complete_each complete_one_media call
  complete_each-Gives [] fingerprint = pure-Gives tt _ refl
  complete_each-Gives (id ∷ ids) fingerprint =
      tells-Gives (complete_one_media (logged_admin admin) id fingerprint) _ _
        (media_done id fingerprint) (λ s log. refl)
        (λ u answers s log a e.
          let (es, grown, same) = complete_each-Gives ids fingerprint s log a e in
          (es, grown, ap (λ l. media_done id fingerprint ∷ l) same))

  governance-Gives :
      (case_result : Json) (id : Text) (interpretation : Json)
      → Gives
          (apply_non_order_governance (logged_admin admin) case_result id interpretation)
          (λ r es.
            (es ≡ []) ⊎ ((g : GovernArgs) × (g.interpretation_id ≡ id) × (es ≡ governed g ∷ [])))
  unfolding apply_non_order_governance call govern_args
  governance-Gives case_result id interpretation s log a e =
      elim (Bool-cases (
        not (nonempty (safe_string (get (codes "case_id") case_result) 80))
        || not (
            list_contains non_order_governance_case_types
              (to_upper (safe_string (get (codes "case_type") case_result) 40))))) [
                | inl outside ↦ rw outside ([], sym (append-nil log), inl refl)
                | inr inside ↦ rw inside (_, refl, inr (_, refl, refl))
              ]

  load_packet-Quiet : (id : Text) → Quiet (load_packet (logged_admin admin) id)
  unfolding load_packet call
  load_packet-Quiet id =
      bind-Quiet (call ((logged_admin admin).packet_row id) found_packet) _ (λ s log. refl)
        (λ u s log. refl)

  pub load_for-Quiet :
      (id : Text) (kind : ExecutionKind) (case_id : Option Text)
      → Quiet (load_for (logged_admin admin) id kind case_id)
  unfolding load_for load_case_context call
  load_for-Quiet id packet case_id s log = load_packet-Quiet id s log
  load_for-Quiet id case_context none s log = load_packet-Quiet id s log
  load_for-Quiet id case_context (some case_id) s log = refl

  pub continuation_of-Quiet :
      (kind : ExecutionKind) (case_id : Option Text) (revision : Option ℕ)
      → Quiet (continuation_of (logged_admin admin) kind case_id revision)
  unfolding continuation_of call
  continuation_of-Quiet packet case_id revision s log = refl
  continuation_of-Quiet case_context none revision s log = refl
  continuation_of-Quiet case_context (some case_id) revision s log = refl

module _ {S : Type 0} (deps : WorkerDeps S) (lease : DispatchLease) where
  abbrev l : WorkerDeps (S × List Event)
  l = logged deps

  -- the last write
  complete-Gives :
      (w : Work) (R : Work → List Event → Type 0)
      → R w (completed (job_of lease) ∷ [])
      → Gives (complete_dispatch_lease l.admin lease >>= λ u. pure w) R
  unfolding complete_dispatch_lease call
  complete-Gives w R r =
      tells-Gives (complete_dispatch_lease l.admin lease) _ R (completed (job_of lease))
        (λ s log. refl) (λ u answers. pure-Gives w _ r)

  materialize-Gives :
      (id : Text) (f : Json → Exec (S × List Event) Work) (R : Work → List Event → Type 0)
      → ((case_result : Json)
          → Answers (materialize_case l.admin lease.packet_id id (some lease)) case_result
          → Gives (f case_result) (λ w es. R w (materializing lease id ∷ es)))
      → Gives (materialize_case l.admin lease.packet_id id (some lease) >>= f) R
  unfolding materialize_case call with_dispatch_lease_rpc_args
  materialize-Gives id f R k =
      tells-Gives (materialize_case l.admin lease.packet_id id (some lease)) f R
        (materializing lease id) (λ s log. refl) k

  unfoldable pub Settles : Text → (Json → WorkerOutcome) → Work → List Event → Type 0
  Settles id outcome w es =
      (case_result : Json) × (w ≡ done (outcome case_result))
      × IsSettled deps lease id case_result es

  Settles-governance :
      (id : Text) (outcome : Json → WorkerOutcome) (case_result : Json) (es : List Event)
      → Answers (materialize_case l.admin lease.packet_id id (some lease)) case_result
      → (es ≡ []) ⊎ ((g : GovernArgs) × (g.interpretation_id ≡ id) × (es ≡ governed g ∷ []))
      → Settles id outcome
          (done (outcome case_result))
          (materializing lease id ∷ (es ++ completed (job_of lease) ∷ []))
  unfolding Settles
  Settles-governance id outcome case_result es m (inl absent) =
      (case_result, refl, (m, rw absent advised))
  Settles-governance id outcome case_result es m (inr (g, same, e)) =
      (case_result, refl, (m, rw e (governing same)))

  pub settle_case-Gives :
      (id : Text) (view : Json) (outcome : Json → WorkerOutcome)
      → Gives (settle_case l lease id view outcome) (Settles id outcome)
  unfolding settle_case
  settle_case-Gives id view outcome = materialize-Gives id _ _ (λ case_result m.
      bind-Gives (apply_non_order_governance l.admin case_result id view) _ _ _
        (governance-Gives deps.admin case_result id view)
        (λ r es p.
          complete-Gives (done (outcome case_result)) _
            (Settles-governance id outcome case_result es m p)))

  pub continue_case-Gives :
      (started : ℕ) (id : Text)
      → Answers (continuation_interpretation_id l.admin lease) (some id)
      → Gives (continue_case l lease id) (Traces deps lease started)
  unfolding continue_case
  continue_case-Gives started id found = materialize-Gives id _ _ (λ case_result m.
      complete-Gives (done (continued lease.packet_id id case_result)) _ (continuing found m))
