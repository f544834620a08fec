-- ===== src/Packet/Complete/Whole.antt =====
-- The loop over the messages, and what a request that is prepared holds.
use mathlib.Core.List.{append_assoc, append-nil}
use oasis_supabase_core.Prelude.{
  ℕ, ◌+◌, ◌≤◌, ◌<◌, ◌≡◌, refl, List, [], ◌∷◌, ◌++◌, Text, codes, nonempty, length, leb, arith,
  Bool-cases, ◌⊎◌, inl, inr, subst,
}
use oasis_supabase_core.Prelude.Exec.{ok, continue_ok, pure}
use oasis_supabase_core.Packet.{
  LoadedMessage, is_media, media_of, legacy_packet_messages, max_packet_media_bytes,
  assert_oversized_media_complete, media_phase_budget_ms,
}
use oasis_supabase_core.Packet.Content.{
  KnowledgeSnapshot, ContentDeps, Prepared, add_text, add_unavailable, no_content, fetch_media,
  prepare_message, prepare_messages, check_complete, prepare_from, prepare_content,
  format_knowledge_snapshot_context,
}
use oasis_supabase_core.Packet.Complete.{complete-length}
use oasis_supabase_core.Packet.Complete.Prepare.{
  Tracks, ids, length-ids, attached_bytes, attached_media, add_text-Tracks, add_unavailable-Tracks,
  on_media_error-Tracks, after_download-Tracks,
}

ids-media_of-cons :
    (m : LoadedMessage) (ms : List LoadedMessage)
    → ids (media_of (m ∷ ms)) ≡ ids (media_of (m ∷ [])) ++ ids (media_of ms)
unfolding media_of
ids-media_of-cons m ms = elim (Bool-cases (is_media m)) [
  | inl medium ↦ rw medium refl
  | inr text ↦ rw text refl
]

module _ {S : Type 0} (deps : ContentDeps S) (started total : ℕ) where
  fetch_media-Tracks :
      (media : List Text) (m : LoadedMessage) (p r : Prepared) (s : S)
      → Tracks media p
      → (fetch_media deps started total m p s).0 ≡ ok r
      → Tracks (media ++ m.provider_message_id ∷ []) r
  unfolding fetch_media
  fetch_media-Tracks media m p r s t e =
      let time = (deps.now s).0 in
      elim (Bool-cases (leb (media_phase_budget_ms + started) time)) [
        | inl late ↦
            on_media_error-Tracks media m p t total (codes "MEDIA_PHASE_BUDGET_EXCEEDED") p r refl
              refl (omega arith) (rw late at e)
        | inr early ↦ after_download-Tracks media m p t total _ r (rw early at e)
      ]

  -- the id of a message that is a medium is added
  prepare_message-Tracks :
      (media : List Text) (m : LoadedMessage) (p r : Prepared) (s : S)
      → Tracks media p
      → (prepare_message deps started total m p s).0 ≡ ok r
      → Tracks (media ++ ids (media_of (m ∷ []))) r
  unfolding prepare_message media_of
  prepare_message-Tracks media m p r s t e = elim (Bool-cases (is_media m)) [
    | inr text ↦
        rw (text, append-nil media)
          (let same : add_text m p ≡ r = ground arith in rw (← same) (add_text-Tracks media m p t))
    | inl medium ↦ rw medium (elim (Bool-cases (nonempty m.media_url)) [
      | inr absent ↦
          let same : add_unavailable m p ≡ r = ground arith in
          rw (← same) (add_unavailable-Tracks media m p t)
      | inl present ↦ fetch_media-Tracks media m p r s t (ground arith)
    ])
  ]

  prepare_messages-Tracks :
      (media : List Text) (ms : List LoadedMessage) (p r : Prepared) (s : S)
      → Tracks media p
      → (prepare_messages deps started total ms p s).0 ≡ ok r
      → Tracks (media ++ ids (media_of ms)) r
  unfolding prepare_messages media_of
  prepare_messages-Tracks media [] p r s t e =
      let same : p ≡ r = ground arith in rw (← same, append-nil media) t
  prepare_messages-Tracks media (m ∷ ms) p r s t e =
      let first = prepare_message deps started total m p s in
      let (p', came, rest) =
        continue_ok first.0 (λ p'. prepare_messages deps started total ms p') first.1 r e in
      let later =
        prepare_messages-Tracks (media ++ ids (media_of (m ∷ []))) ms p' r first.1
          (prepare_message-Tracks media m p p' s t came) rest in
      rw
        (ids-media_of-cons m ms, ← append_assoc media (ids (media_of (m ∷ []))) (ids (media_of ms)))
        later

no_content-Tracks : (prompt : Text) → Tracks [] (no_content prompt)
unfolding no_content
no_content-Tracks prompt = record {
  fewer = omega arith;
  whole = λ e. refl;
  counted = omega arith;
  bounded = omega arith;
  attached = refl;
}

check_complete-eq :
    {S : Type 0} (deps : ContentDeps S) (messages : List LoadedMessage) (q p : Prepared) (s : S)
    → (check_complete deps messages q s).0 ≡ ok p
    → (q ≡ p)
      × (legacy_packet_messages < length messages
          → length (media_of messages) ≤ length p.processed_media_ids)
unfolding check_complete
check_complete-eq deps messages q p s e =
    let (u, complete, same) =
      continue_ok (assert_oversized_media_complete messages q.processed_media_ids q.failure_codes)
        (λ u. pure q) s p e in
    let eq : q ≡ p = ground arith in
    (
      eq,
      subst
          (λ x.
            legacy_packet_messages < length messages
            → length (media_of messages) ≤ length x.processed_media_ids)
          eq
          (λ large. complete-length messages q.processed_media_ids q.failure_codes complete large),
    )

-- A request that is prepared has at most 24 MiB of media, one for each of its processed ids; and above the
-- legacy size of a packet its processed ids are those of all the media messages of the packet, in their
-- order.
pub processed_media_ids-prepare_content :
    {S : Type 0} (deps : ContentDeps S) (messages : List LoadedMessage)
    (snapshot : KnowledgeSnapshot) (s : S) (p : Prepared)
    → (prepare_content deps messages snapshot s).0 ≡ ok p
    → (attached_bytes p.parts ≤ max_packet_media_bytes)
      × (attached_media p.parts ≡ length p.processed_media_ids)
      × ((length messages ≤ legacy_packet_messages)
          ⊎ (p.processed_media_ids ≡ ids (media_of messages)))
unfolding prepare_content prepare_from
processed_media_ids-prepare_content deps messages snapshot s p e =
    let knowledge = format_knowledge_snapshot_context deps.stringify snapshot in
    let (context, came, e1) = continue_ok knowledge (λ c. prepare_from deps messages c) s p e in
    let prompt = deps.system_prompt ++ (codes "\n\n" ++ context) in
    let started = (deps.now s).0 in
    let s1 = (deps.now s).1 in
    let loop = prepare_messages deps started (length messages) messages (no_content prompt) s1 in
    let (q, prepared, e2) = continue_ok loop.0 (λ r. check_complete deps messages r) loop.1 p e1 in
    let (same, all) = check_complete-eq deps messages q p loop.1 e2 in
    let t : Tracks (ids (media_of messages)) p = subst (Tracks (ids (media_of messages))) same (
      prepare_messages-Tracks deps started (length messages) [] messages (no_content prompt) q s1
        (no_content-Tracks prompt) prepared) in
    let whole : (length messages ≤ legacy_packet_messages)
        ⊎ (p.processed_media_ids ≡ ids (media_of messages)) =
      elim (Bool-cases (leb (length messages) legacy_packet_messages)) [
        | inl small ↦ inl (ground arith)
        | inr large ↦
            inr
              (t.whole (omega (arith, t.fewer, all (ground arith), length-ids (media_of messages))))
      ] in
    (t.bounded, t.attached, whole)
