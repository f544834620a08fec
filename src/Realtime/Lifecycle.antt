-- ===== src/Realtime/Lifecycle.antt =====
-- What holds of a realtime session over every sequence of its methods.
use oasis_supabase_core.Prelude.{
  ℕ, ◌+◌, ◌≡◌, ◌∙◌, refl, map, Bool, true, false, Option, none, some, List, [], ◌∷◌, Text, arith,
  if◌then◌else◌,
}
use oasis_supabase_core.Realtime.{RealtimeChannelScope, Checked, ok, fault, session_disposed, Fault}
use oasis_supabase_core.Realtime.Versions.{Platform}
use oasis_supabase_core.Realtime.Session.{
  RealtimeConsumerSession, RealtimeDeltaEvent, RealtimeDeltaDisposition, Row, new_session,
  load_snapshot, apply_delta, dispose,
}

-- A call of a method of the session.
pub data Call : Type 0 where
  load : List Row → Call
  delta : RealtimeDeltaEvent → Call
  close : Call

-- What a call gives back: a fault, a disposition, or a channel that the cleanup was called with.
pub data Answer : Type 0 where
  done : Answer
  failed : Fault → Answer
  disposition : RealtimeDeltaDisposition → Answer
  cleaned : Text → Answer

-- a method that throws leaves the session as it was
abbrev after_load :
    RealtimeConsumerSession → Checked RealtimeConsumerSession → RealtimeConsumerSession × Answer
after_load s (ok s') = (s', done)
after_load s (fault f) = (s, failed f)

abbrev after_delta :
    RealtimeConsumerSession
    → Checked (RealtimeConsumerSession × RealtimeDeltaDisposition)
    → RealtimeConsumerSession × Answer
after_delta s (ok r) = (r.0, disposition r.1)
after_delta s (fault f) = (s, failed f)

abbrev after_dispose : RealtimeConsumerSession × Option Text → RealtimeConsumerSession × Answer
after_dispose (s, none) = (s, done)
after_dispose (s, some channel) = (s, cleaned channel)

abbrev cleanups_in : Answer → ℕ
cleanups_in (cleaned _) = 1
cleanups_in _ = 0

module _ (platform : Platform) where
  abbrev pub call : RealtimeConsumerSession → Call → RealtimeConsumerSession × Answer
  call s (load rows) = after_load s (load_snapshot s rows)
  call s (delta event) = after_delta s (apply_delta platform s event)
  call s close = after_dispose (dispose s)

  abbrev pub calls : RealtimeConsumerSession → List Call → RealtimeConsumerSession × List Answer
  calls s [] = (s, [])
  calls s (c ∷ cs) = let (s', a) = call s c in let (s'', as') = calls s' cs in (s'', a ∷ as')

abbrev pub cleanups : List Answer → ℕ
cleanups [] = 0
cleanups (a ∷ as') = cleanups_in a + cleanups as'

-- Nothing is remembered before a snapshot, and no snapshot after disposal.
pub record IsConsistent (s : RealtimeConsumerSession) : Type 0 where
  pub fresh : s.snapshot_loaded ≡ false → s.seen_versions ≡ []
  pub closed : s.disposed ≡ true → s.snapshot_loaded ≡ false

abbrev room : Bool → ℕ
room disposed = if disposed then 0 else 1

-- what a disposed session answers a call
abbrev pub refusal : Call → Answer
refusal (load rows) = failed session_disposed
refusal (delta event) = failed session_disposed
refusal close = done

new_session-IsConsistent :
    (o : RealtimeChannelScope) (s : RealtimeConsumerSession)
    → new_session o ≡ ok s
    → IsConsistent s × (s.disposed ≡ false)
unfolding new_session
new_session-IsConsistent o s h = ground arith

load-IsConsistent :
    (s s' : RealtimeConsumerSession) (rows : List Row)
    → IsConsistent s
    → load_snapshot s rows ≡ ok s'
    → IsConsistent s'
unfolding load_snapshot
load-IsConsistent s s' rows i h = ground arith

delta-IsConsistent :
    (p : Platform) (s : RealtimeConsumerSession) (e : RealtimeDeltaEvent)
    → IsConsistent s
    → IsConsistent (after_delta s (apply_delta p s e)).0
      × ((after_delta s (apply_delta p s e)).0.disposed ≡ s.disposed)
unfolding apply_delta
delta-IsConsistent p s e i = ground arith

dispose-IsConsistent : (s : RealtimeConsumerSession) → IsConsistent s → IsConsistent (dispose s).0
unfolding dispose
dispose-IsConsistent s i = ground arith

module _ (p : Platform) where
  call-IsConsistent :
      (s : RealtimeConsumerSession) (c : Call) → IsConsistent s → IsConsistent (call p s c).0
  unfolding load_snapshot dispose
  call-IsConsistent s (load rows) i = ground arith
  call-IsConsistent s (delta e) i = (delta-IsConsistent p s e i).0
  call-IsConsistent s close i = ground arith

  call-cleanups :
      (s : RealtimeConsumerSession) (c : Call)
      → cleanups_in (call p s c).1 + room (call p s c).0.disposed ≡ room s.disposed
  unfolding load_snapshot dispose apply_delta
  call-cleanups s (load rows) = ground arith
  call-cleanups s (delta e) = ground arith
  call-cleanups s close = ground arith

  call_disposed :
      (s : RealtimeConsumerSession) (c : Call)
      → s.disposed ≡ true
      → ((call p s c).0 ≡ s) × ((call p s c).1 ≡ refusal c)
  unfolding load_snapshot dispose apply_delta
  call_disposed s (load rows) h = rw h (refl, refl)
  call_disposed s (delta e) h = rw h (refl, refl)
  call_disposed s close h = rw h (refl, refl)

  calls-IsConsistent :
      (s : RealtimeConsumerSession) (cs : List Call)
      → IsConsistent s
      → IsConsistent (calls p s cs).0
  calls-IsConsistent s [] i = i
  calls-IsConsistent s (c ∷ cs) i = calls-IsConsistent (call p s c).0 cs (call-IsConsistent s c i)

  calls-cleanups :
      (s : RealtimeConsumerSession) (cs : List Call)
      → cleanups (calls p s cs).1 + room (calls p s cs).0.disposed ≡ room s.disposed
  calls-cleanups s [] = omega arith
  calls-cleanups s (c ∷ cs) = omega (arith, calls-cleanups (call p s c).0 cs, call-cleanups s c)

  -- Every session that the constructor makes, after any sequence of snapshots, deltas and disposals,
  -- remembers no version unless a snapshot is loaded, and has no snapshot loaded once it is disposed.
  pub new_session-calls-IsConsistent :
      (o : RealtimeChannelScope) (s : RealtimeConsumerSession) (cs : List Call)
      → new_session o ≡ ok s
      → IsConsistent (calls p s cs).0
  new_session-calls-IsConsistent o s cs h =
      calls-IsConsistent s cs (new_session-IsConsistent o s h).0

  -- The cleanup callback of a session that the constructor makes is called at most once, and exactly
  -- when the session has been disposed, whatever the sequence of calls.
  pub new_session-cleanups :
      (o : RealtimeChannelScope) (s : RealtimeConsumerSession) (cs : List Call)
      → new_session o ≡ ok s
      → cleanups (calls p s cs).1 ≡ (if (calls p s cs).0.disposed then 1 else 0)
  new_session-cleanups o s cs h =
      ground (arith, calls-cleanups s cs, (new_session-IsConsistent o s h).1)

  calls_disposed :
      (s : RealtimeConsumerSession) (cs : List Call)
      → s.disposed ≡ true
      → ((calls p s cs).0 ≡ s) × ((calls p s cs).1 ≡ map refusal cs)
  calls_disposed s [] h = (refl, refl)
  calls_disposed s (c ∷ cs) h =
      let (same, refused) = call_disposed s c h in
      let (same', rest) = calls_disposed (call p s c).0 cs (rw same h) in
      (same' ∙ same, (λ i. refused i ∷ rest i))

  close_disposed : (s : RealtimeConsumerSession) → (call p s close).0.disposed ≡ true
  unfolding dispose
  close_disposed s = ground arith

  close-IsConsistent :
      (s : RealtimeConsumerSession) → IsConsistent s → (call p s close).0.seen_versions ≡ []
  unfolding dispose
  close-IsConsistent s i = ground (arith, i.fresh, i.closed)

  -- A session that the constructor makes, and that is disposed after any sequence of calls, has forgotten
  -- every version and stays as it is over any sequence of later calls: each snapshot and each delta fails
  -- as disposed, and each disposal does nothing.
  pub new_session-close :
      (o : RealtimeChannelScope) (s : RealtimeConsumerSession) (before later : List Call)
      → new_session o ≡ ok s
      → (let closed = (call p (calls p s before).0 close).0 in
          (closed.disposed ≡ true)
          × (closed.seen_versions ≡ [])
          × ((calls p closed later).0 ≡ closed)
          × ((calls p closed later).1 ≡ map refusal later))
  new_session-close o s before later h =
      let s' = (calls p s before).0 in
      let (same, refused) = calls_disposed (call p s' close).0 later (close_disposed s') in
      (
        close_disposed s',
        close-IsConsistent s' (new_session-calls-IsConsistent o s before h),
        same,
        refused,
      )
