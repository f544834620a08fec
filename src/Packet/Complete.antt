-- ===== src/Packet/Complete.antt =====
-- Media that were attached are counted, so a packet above the legacy size is interpreted with all of its
-- media or not at all.
pub mod Prepare
pub mod Whole
use oasis_supabase_core.Prelude.{
  ℕ, zero, suc, ◌+◌, ◌-◌, ◌≤◌, ◌<◌, ◌≡◌, refl, sym, ◌∙◌, Bool, true, false, not, List, [], ◌∷◌,
  ◌++◌, Text, codes, text_eq, text_eq_iff, length, ltb, leb, ◌==◌, if◌then◌else◌, arith, Bool-cases,
  inl, inr,
}
use oasis_supabase_core.Prelude.Exec.{Result, ok, thrown}
use oasis_supabase_core.Packet.{
  LoadedMessage, Counts, set_count, count_processed, missing_from, media_of,
  assert_oversized_media_complete, legacy_packet_messages,
}

-- how often an id occurs
abbrev occurs : Text → List Text → ℕ
occurs k [] = 0
occurs k (x ∷ xs) = (if text_eq k x then 1 else 0) + occurs k xs

abbrev erase : Text → List Text → List Text
erase k [] = []
erase k (x ∷ xs) = if text_eq k x then xs else x ∷ erase k xs

length-erase : (k : Text) (xs : List Text) → 0 < occurs k xs → length (erase k xs) + 1 ≡ length xs
length-erase k [] h = absurd (omega arith)
length-erase k (x ∷ xs) h = ground (arith, length-erase k xs)

occurs-erase :
    (j k : Text) (xs : List Text)
    → 0 < occurs k xs
    → occurs j (erase k xs) + (if text_eq j k then 1 else 0) ≡ occurs j xs
occurs-erase j k [] h = absurd (omega arith)
occurs-erase j k (x ∷ xs) h =
    ground (arith, occurs-erase j k xs, text_eq_iff j k, text_eq_iff k x, text_eq_iff j x)

count_processed-eq-add :
    (counts : Counts) (ids : List Text) (k : Text)
    → count_processed counts ids k ≡ counts k + occurs k ids
unfolding count_processed set_count
count_processed-eq-add counts [] k = omega arith
count_processed-eq-add counts (id ∷ ids) k =
    count_processed-eq-add (set_count counts id (counts id + 1)) ids k
    ∙ ground (arith, text_eq_iff k id)

-- The counts are those of a list.
abbrev Tallies : Counts → List Text → Type 0
Tallies counts xs = (k : Text) → counts k ≡ occurs k xs

set_count-Tallies :
    (counts : Counts) (xs : List Text) (id : Text)
    → Tallies counts xs
    → 0 < occurs id xs
    → Tallies (set_count counts id (counts id - 1)) (erase id xs)
unfolding set_count
set_count-Tallies counts xs id h some_left k =
    ground (arith, h k, h id, occurs-erase k id xs, text_eq_iff k id)

-- Where nothing is missing, each medium took one of the processed ids.
length-missing :
    (counts : Counts) (media : List LoadedMessage) (xs : List Text)
    → Tallies counts xs
    → length (missing_from counts media) ≡ 0
    → length media ≤ length xs
unfolding missing_from
length-missing counts [] xs h e = omega arith
length-missing counts (m ∷ ms) xs h e =
    let id = m.provider_message_id in
    elim (Bool-cases (counts id == 0)) [
      | inl lost ↦ absurd (ground arith)
      | inr found ↦
          let left : 0 < occurs id xs = ground (arith, h id) in
          let rest =
            length-missing (set_count counts id (counts id - 1)) ms (erase id xs)
              (set_count-Tallies counts xs id h left) (ground arith) in
          omega (arith, length-erase id xs left, rest)
    ]

-- above the legacy size, the check passes only if there are as many processed ids as media
pub complete-length :
    (messages : List LoadedMessage) (processed failures : List Text)
    → assert_oversized_media_complete messages processed failures ≡ ok tt
    → legacy_packet_messages < length messages
    → length (media_of messages) ≤ length processed
unfolding assert_oversized_media_complete
complete-length messages processed failures e large =
    length-missing (count_processed (λ id. 0) processed) (media_of messages) processed
      (λ k. omega (arith, count_processed-eq-add (λ id. 0) processed k)) (ground arith)
