-- ===== src/OperatorReply/Status/Order.antt =====
-- The order in which the status of an operator reply advances.
use oasis_supabase_core.Prelude.{
  ℕ, suc, ◌+◌, ◌≤◌, ◌<◌, ◌≡◌, refl, true, false, Option, none, some, List, [], ◌∷◌, Text, codes,
  text_eq, text_eq_iff, text_eq_refl, to_upper, arith, All, max, ltb, if◌then◌else◌, ◌⊎◌, inl, inr,
  Bool-cases,
}
use oasis_supabase_core.OperatorReply.Status.{
  status_rank, outranks, advances, should_advance_operator_reply_status,
}

abbrev rank_height : Option ℕ → ℕ
rank_height none = 0
rank_height (some r) = suc r

-- The place of an upper-case status in the order, from 0 for an unknown one to 6 for `FAILED_FINAL`.
height : Text → ℕ
height s = if text_eq s (codes "FAILED_FINAL") then 6 else rank_height (status_rank s)

rank_le : (s : Text) → rank_height (status_rank s) ≤ 5
unfolding status_rank
rank_le s = ground arith

height_le : (s : Text) → height s ≤ 6
unfolding height
height_le s = ground (arith, rank_le s)

advances-height : (p n : Text) → advances p n ≡ true → height p < height n
unfolding advances height outranks
advances-height p n h = ground (arith, rank_le p, rank_le n)

-- Callbacks applied in turn to a status, each only if it advances the status; how many were applied.
abbrev pub receive : Text → List Text → Text × ℕ
receive s [] = (s, 0)
receive s (t ∷ ts) =
    let rest = receive s ts in
    let moved = receive t ts in
    if should_advance_operator_reply_status s t then (moved.0, suc moved.1) else rest

should_advance-height :
    (s t : Text)
    → should_advance_operator_reply_status s t ≡ true
    → height (to_upper s) < height (to_upper t)
unfolding should_advance_operator_reply_status
should_advance-height s t h = advances-height (to_upper s) (to_upper t) h

receive-height :
    (s : Text) (ts : List Text)
    → (receive s ts).1 + height (to_upper s) ≤ height (to_upper (receive s ts).0)
receive-height s [] = omega arith
receive-height s (t ∷ ts) = elim (Bool-cases (should_advance_operator_reply_status s t)) [
  | inl p ↦ rw p (omega (arith, receive-height t ts, should_advance-height s t p))
  | inr p ↦ rw p (receive-height s ts)
]

-- Whatever callbacks arrive, in whatever order and however often repeated, a reply's status is
-- advanced at most six times.
pub receive_bounded : (s : Text) (ts : List Text) → (receive s ts).1 ≤ 6
receive_bounded s ts = omega (arith, receive-height s ts, height_le (to_upper (receive s ts).0))

-- The place of a status among the known ones but `FAILED_FINAL`, in any case, from 1; 0 if it is none.
abbrev pub place : Text → ℕ
place s = rank_height (status_rank (to_upper s))

abbrev pub IsNoFailure : Text → Type 0
IsNoFailure s = text_eq (to_upper s) (codes "FAILED_FINAL") ≡ false

abbrev pub highest : ℕ → List Text → ℕ
highest n [] = n
highest n (t ∷ ts) = highest (max n (place t)) ts

outranks-height : (t c : Option ℕ) → outranks t c ≡ ltb (rank_height c) (rank_height t)
unfolding outranks
outranks-height none none = refl
outranks-height none (some c) = ground arith
outranks-height (some t) none = ground arith
outranks-height (some t) (some c) = ground arith

should_advance-place :
    (s t : Text)
    → IsNoFailure s
    → IsNoFailure t
    → should_advance_operator_reply_status s t ≡ ltb (place s) (place t)
unfolding should_advance_operator_reply_status advances
should_advance-place s t not_s not_t =
    rw (not_s, not_t) (outranks-height (status_rank (to_upper t)) (status_rank (to_upper s)))

-- Without a failure the order in which callbacks arrive, and how often, does not matter: from a status
-- that is no failure, the status reached has the highest place of the status and all the callbacks.
pub receive-highest :
    (s : Text) (ts : List Text)
    → IsNoFailure s
    → All IsNoFailure ts
    → place (receive s ts).0 ≡ highest (place s) ts
receive-highest s [] not_s none_left = refl
receive-highest s (t ∷ ts) not_s (not_t, rest) =
    elim (Bool-cases (should_advance_operator_reply_status s t)) [
      | inl p ↦
          let up : max (place s) (place t) ≡ place t =
            ground (arith, should_advance-place s t not_s not_t) in
          rw (p, up) (receive-highest t ts not_t rest)
      | inr p ↦
          let same : max (place s) (place t) ≡ place s =
            ground (arith, should_advance-place s t not_s not_t) in
          rw (p, same) (receive-highest s ts not_s rest)
    ]

abbrev pub IsDelivered : Text → Type 0
IsDelivered s = (to_upper s ≡ codes "DELIVERED") ⊎ (to_upper s ≡ codes "READ")

delivered_ranks :
    (status_rank (codes "DELIVERED") ≡ some 3)
    × (status_rank (codes "READ") ≡ some 4)
    × (text_eq (codes "DELIVERED") (codes "FAILED_FINAL") ≡ false)
    × (text_eq (codes "READ") (codes "FAILED_FINAL") ≡ false)
unfolding status_rank text_eq codes
delivered_ranks = (refl, refl, refl, refl)

rank_top : (n : Text) → 4 < rank_height (status_rank n) → n ≡ codes "READ"
unfolding status_rank
rank_top n h = ground (arith, text_eq_iff n (codes "READ"))

delivered-advances : (n : Text) → advances (codes "DELIVERED") n ≡ true → n ≡ codes "READ"
unfolding advances outranks
delivered-advances n h =
    ground (arith, delivered_ranks, rank_top n, rank_le n, text_eq_refl (codes "DELIVERED"))

read-advances : (n : Text) → advances (codes "READ") n ≡ false
unfolding advances outranks
read-advances n = ground (arith, delivered_ranks, rank_le n, text_eq_refl (codes "READ"))

advance-IsDelivered :
    (s t : Text) → IsDelivered s → should_advance_operator_reply_status s t ≡ true → IsDelivered t
unfolding should_advance_operator_reply_status
advance-IsDelivered s t (inl d) h = inr (delivered-advances (to_upper t) (rw d at h))
advance-IsDelivered s t (inr r) h = let e = read-advances (to_upper t) in cc

-- A verified delivery is never erased: from `DELIVERED` or `READ`, in any case, every sequence of
-- callbacks leaves the status `DELIVERED` or `READ`.
pub receive-IsDelivered : (s : Text) (ts : List Text) → IsDelivered s → IsDelivered (receive s ts).0
receive-IsDelivered s [] d = d
receive-IsDelivered s (t ∷ ts) d = elim (Bool-cases (should_advance_operator_reply_status s t)) [
  | inl p ↦ rw p (receive-IsDelivered t ts (advance-IsDelivered s t d p))
  | inr p ↦ rw p (receive-IsDelivered s ts d)
]
