-- ===== src/Packet/Run/Trace.antt =====
-- The writes of a run, in the order in which they are made.
use mathlib.Core.List.{append_assoc, append-nil}
use oasis_supabase_core.Prelude.{◌≡◌, refl, sym, ap, ◌∙◌, subst, List, [], ◌∷◌, ◌++◌, Text}
use oasis_supabase_core.Prelude.Exec.{Exec, ok, continue, continue_ok, ◌>>=◌, pure}
use oasis_supabase_core.Packet.Queue.{
  JobArgs, MaterializeArgs, PersistArgs, GovernArgs, RetryArgs, Admin,
}
use oasis_supabase_core.Packet.Run.{WorkerDeps}
use oasis_supabase_core.Packet.Run.Quiet.{lift, Quiet, lift_content, lift_provider}

-- A write to the evidence, the case or the queue; `media_done` has the id and the fingerprint.
pub data Event : Type 0 where
  media_done : Text → Text → Event
  persisted : PersistArgs → Event
  materialized : MaterializeArgs → Event
  governed : GovernArgs → Event
  completed : JobArgs → Event
  retried : RetryArgs → Event

abbrev tell : {S A : Type 0} → Event → (S → A × S) → S × List Event → A × (S × List Event)
tell e m s = let r = m s.0 in (r.0, (r.1, s.1 ++ e ∷ []))

-- The client with a log of its writes beside the store; a claim is not logged.
abbrev pub logged_admin : {S : Type 0} → Admin S → Admin (S × List Event)
logged_admin a = record {
  claim = λ id. lift (a.claim id);
  continuation = λ id revision. lift (a.continuation id revision);
  job_state = λ id. lift (a.job_state id);
  packet_row = λ id. lift (a.packet_row id);
  packet_messages = λ id. lift (a.packet_messages id);
  case_messages = λ id. lift (a.case_messages id);
  active_snapshot = lift a.active_snapshot;
  cached_interpretation = λ id fingerprint. lift (a.cached_interpretation id fingerprint);
  complete_media =
      λ id fingerprint. tell (media_done id fingerprint) (a.complete_media id fingerprint);
  persist = λ args. tell (persisted args) (a.persist args);
  materialize = λ args. tell (materialized args) (a.materialize args);
  govern = λ args. tell (governed args) (a.govern args);
  complete = λ args. tell (completed args) (a.complete args);
  retry = λ args. tell (retried args) (a.retry args);
  to_lower_case = a.to_lower_case;
  to_safe_integer = a.to_safe_integer;
}

abbrev pub logged : {S : Type 0} → WorkerDeps S → WorkerDeps (S × List Event)
logged deps = record {
  admin = logged_admin deps.admin;
  content = lift_content (List Event) deps.content;
  provider = lift_provider (List Event) deps.provider;
  parse_json = deps.parse_json;
  api_key = deps.api_key;
  sha256 = deps.sha256;
}

module _ {S A : Type 0} where
  -- the events of an operation that returns
  abbrev pub Gives : Exec (S × List Event) A → (A → List Event → Type 0) → Type 0
  Gives m P =
      (s : S) (log : List Event) (a : A)
      → (m (s, log)).0 ≡ ok a
      → (es : List Event) × ((m (s, log)).1.1 ≡ log ++ es) × P a es

  abbrev pub Tells : Event → Exec (S × List Event) A → Type 0
  Tells e m = (s : S) (log : List Event) → (m (s, log)).1.1 ≡ log ++ e ∷ []

  -- what the operation returns in some store
  abbrev pub Answers : Exec (S × List Event) A → A → Type 0
  Answers m a = (t : S × List Event) × ((m t).0 ≡ ok a)

pub weaken-Gives :
    {S A : Type 0} (m : Exec (S × List Event) A) (P R : A → List Event → Type 0)
    → Gives m P
    → ((a : A) (es : List Event) → P a es → R a es)
    → Gives m R
weaken-Gives m P R g k s log a e = let (es, grown, p) = g s log a e in (es, grown, k a es p)

module _ {S A B : Type 0} (m : Exec (S × List Event) A) (f : A → Exec (S × List Event) B)
    (R : B → List Event → Type 0) where
  pub bind-Gives :
      (P : A → List Event → Type 0)
      → Gives m P
      → ((a : A) (es : List Event) → P a es → Gives (f a) (λ b es'. R b (es ++ es')))
      → Gives (m >>= f) R
  bind-Gives P g k s log b e =
      let r = m (s, log) in
      let (a, came, rest) = continue_ok r.0 f r.1 b e in
      let (es, grown, p) = g s log a came in
      let (es', grown', q) = k a es p r.1.0 r.1.1 b rest in
      (
        es ++ es',
        ap (λ x. (continue x f r.1).1.1) came
            ∙ grown'
            ∙ ap (λ l. l ++ es') grown
            ∙ append_assoc log es es',
        q,
      )

  pub quiet-Gives : Quiet m → ((a : A) → Answers m a → Gives (f a) R) → Gives (m >>= f) R
  quiet-Gives quiet k =
      bind-Gives (λ a es. (es ≡ []) × Answers m a)
        (λ s log a e. ([], quiet s log ∙ sym (append-nil log), (refl, ((s, log), e))))
        (λ a es p. subst (λ es. Gives (f a) (λ b es'. R b (es ++ es'))) (sym p.0) (k a p.1))

  pub tells-Gives :
      (ev : Event)
      → Tells ev m
      → ((a : A) → Answers m a → Gives (f a) (λ b es. R b (ev ∷ es)))
      → Gives (m >>= f) R
  tells-Gives ev tells k =
      bind-Gives (λ a es. (es ≡ ev ∷ []) × Answers m a)
        (λ s log a e. (ev ∷ [], tells s log, (refl, ((s, log), e))))
        (λ a es p. subst (λ es. Gives (f a) (λ b es'. R b (es ++ es'))) (sym p.0) (k a p.1))

pub pure-Gives :
    {S A : Type 0} (a : A) (R : A → List Event → Type 0) → R a [] → Gives {S = S} (pure a) R
pure-Gives a R r s log b e =
    let same : a ≡ b = cc in ([], sym (append-nil log), subst (λ x. R x []) same r)
