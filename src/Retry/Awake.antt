-- ===== src/Retry/Awake.antt =====
-- What a sleep of the retry loop leaves of a property of its events.
use oasis_supabase_core.Prelude.{ℕ, ◌≡◌, true, Option, List, [], ◌∷◌, ltb, inl, inr, Bool-cases}
use oasis_supabase_core.Retry.{
  Env, Sleep, over, broken, endless, Run, Event, slept, stop, log, awake, pause,
}

module _ {ℓ} {A : Type ℓ} (Holds : List Event → Type 0) where
  awake_events : (s : Sleep) (r : Run A) → Holds [] → Holds r.events → Holds (awake s r).events
  unfolding awake stop
  awake_events over r none_left h = h
  awake_events (broken e) r none_left h = none_left
  awake_events endless r none_left h = none_left

  -- A property of the events that the empty list has, and that a sleep before them keeps.
  pub pause_events :
      (env : Env A) (limit : ℕ) (delays : List ℕ) (attempt delay : ℕ) (at : Option ℕ) (r : Run A)
      → Holds []
      → ((es : List Event) → ltb 0 delay ≡ true → Holds es → Holds (slept delay at ∷ es))
      → Holds r.events
      → Holds (pause env limit delays attempt delay at r).events
  unfolding pause log
  pause_events env limit delays attempt delay at r none_left keeps h =
      elim (Bool-cases (ltb 0 delay)) [
        | inl p ↦ rw p (keeps _ p (awake_events (env.sleep attempt delay) r none_left h))
        | inr p ↦ rw p h
      ]
