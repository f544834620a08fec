-- ===== src/Realtime/Replay.antt =====
-- Deduplication of deltas by a realtime session.
use oasis_supabase_core.Prelude.{
  ◌≡◌, refl, none, some, List, [], ◌∷◌, ◌++◌, Text, text_eq, text_eq_iff, text_eq_refl, arith,
  if◌then◌else◌, ◌⊎◌, inl, inr,
}
use oasis_supabase_core.Realtime.{Checked, Fault, ok, fault}
use oasis_supabase_core.Realtime.Versions.{Platform}
use oasis_supabase_core.Realtime.Session.{
  SeenVersionEntry, RealtimeDeltaEvent, RealtimeDeltaDisposition, applied, duplicate,
  rejected_unauthorized_event, RealtimeConsumerSession, find_seen_version, without_key,
  upsert_seen_version, classify_delta_version, row_version_key, apply_delta,
}

find-append_one :
    (es : List SeenVersionEntry) (k v j : Text)
    → find_seen_version es j ≡ none
    → find_seen_version (es ++ record { key = k; version = v } ∷ []) j
      ≡ (if text_eq k j then some v else none)
unfolding find_seen_version
find-append_one [] k v j h = refl
find-append_one (e ∷ es) k v j h = ground (arith, find-append_one es k v j)

find-append_found :
    (es : List SeenVersionEntry) (k v j w : Text)
    → find_seen_version es j ≡ some w
    → find_seen_version (es ++ record { key = k; version = v } ∷ []) j ≡ some w
unfolding find_seen_version
find-append_found [] k v j w h = cc
find-append_found (e ∷ es) k v j w h = ground (arith, find-append_found es k v j w)

find-without_key :
    (es : List SeenVersionEntry) (k j : Text)
    → find_seen_version (without_key es k) j
      ≡ (if text_eq k j then none else find_seen_version es j)
unfolding find_seen_version without_key
find-without_key [] k j = ground arith
find-without_key (e ∷ es) k j =
    ground
      (arith, find-without_key es k j, text_eq_iff e.key k, text_eq_iff e.key j, text_eq_iff k j)

find-append :
    (es : List SeenVersionEntry) (k v j : Text)
    → find_seen_version (es ++ record { key = k; version = v } ∷ []) j
      ≡ elim (find_seen_version es j) [
        | none ↦ if text_eq k j then some v else none
        | some w ↦ some w
      ]
unfolding find_seen_version
find-append [] k v j = refl
find-append (e ∷ es) k v j = ground (arith, find-append es k v j)

-- After an update a key reads the new version, and every other key what it read before.
pub find-upsert :
    (es : List SeenVersionEntry) (k v j : Text)
    → find_seen_version (upsert_seen_version es k v) j
      ≡ (if text_eq k j then some v else find_seen_version es j)
unfolding upsert_seen_version
find-upsert es k v j = ground (arith, find-append (without_key es k) k v j, find-without_key es k j)

pub Checked-cases {ℓ} :
    {A : Type ℓ} (c : Checked A) → ((f : Fault) × (c ≡ fault f)) ⊎ ((a : A) × (c ≡ ok a))
Checked-cases (ok a) = inr (a, refl)
Checked-cases (fault f) = inl (f, refl)

abbrev pub redelivered : RealtimeDeltaDisposition → RealtimeDeltaDisposition
redelivered applied = duplicate
redelivered duplicate = duplicate
redelivered rejected_unauthorized_event = rejected_unauthorized_event

module _ (platform : Platform) where
  classify_again :
      (es : List SeenVersionEntry) (k v : Text)
      → let (d, es') = classify_delta_version platform es k v in
        classify_delta_version platform es' k v ≡ (redelivered d, es')
  unfolding classify_delta_version
  classify_again es k v = ground (arith, find-upsert es k v k, text_eq_refl k, text_eq_refl v)

  -- Delivering an event again right after a delivery that did not throw changes nothing: an event
  -- that was applied or a duplicate is now a duplicate, and one that was rejected is rejected again,
  -- however the platform compares versions.
  pub apply_delta_again :
      (s s' : RealtimeConsumerSession) (event : RealtimeDeltaEvent) (d : RealtimeDeltaDisposition)
      → apply_delta platform s event ≡ ok (s', d)
      → apply_delta platform s' event ≡ ok (s', redelivered d)
  unfolding apply_delta
  apply_delta_again s s' event d h =
      elim (Checked-cases (row_version_key event.schema event.table event.row_id)) [
        | inl (f, e) ↦ ground arith
        | inr (key, e) ↦ ground (arith, classify_again s.seen_versions key event.version)
      ]

  -- What an applied event changes: from then on its row reads its version, and every other row what
  -- it read before.
  pub apply_delta_applied :
      (s s' : RealtimeConsumerSession) (event : RealtimeDeltaEvent) (key row : Text)
      → apply_delta platform s event ≡ ok (s', applied)
      → row_version_key event.schema event.table event.row_id ≡ ok key
      → find_seen_version s'.seen_versions row
        ≡ (if text_eq key row then some event.version else find_seen_version s.seen_versions row)
  unfolding apply_delta classify_delta_version
  apply_delta_applied s s' event key row h k =
      ground (arith, find-upsert s.seen_versions key event.version row)

  -- An event that is not applied, as a duplicate or as unauthorized, leaves the session as it was.
  pub apply_delta_ignored :
      (s s' : RealtimeConsumerSession) (event : RealtimeDeltaEvent) (d : RealtimeDeltaDisposition)
      → apply_delta platform s event ≡ ok (s', d)
      → (d ≡ applied) ⊎ (s' ≡ s)
  unfolding apply_delta classify_delta_version
  apply_delta_ignored s s' event d h = ground arith
