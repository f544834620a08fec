-- ===== src/OperatorReply/Status.antt =====
-- Provider statuses and their order, of whatsappOperatorReplyStatus.ts.
pub mod Order
mod Tests
use oasis_supabase_core.Prelude.{
  ℕ, Bool, true, false, ◌&&◌, not, ◌||◌, Option, none, some, Text, codes, text_eq, trim, to_lower,
  to_upper, ltb, if◌then◌else◌,
}

pub data BoundedProviderStatus : Type 0 where
  accepted delivered read failed_final : BoundedProviderStatus

-- the string that the union type stands for
unfoldable pub status_text : BoundedProviderStatus → Text
status_text accepted = codes "ACCEPTED"
status_text delivered = codes "DELIVERED"
status_text read = codes "READ"
status_text failed_final = codes "FAILED_FINAL"

bounded_status : Text → Option BoundedProviderStatus
bounded_status s =
    if text_eq s (codes "sent") || text_eq s (codes "accepted")
    then some accepted
    else if text_eq s (codes "delivered")
    then some delivered
    else if text_eq s (codes "read")
    then some read
    else if text_eq s (codes "failed") || text_eq s (codes "undelivered")
    then some failed_final
    else none

unfoldable pub normalize_operator_reply_provider_status : Text → Option BoundedProviderStatus
unfolding bounded_status
normalize_operator_reply_provider_status status = bounded_status (to_lower (trim status))

-- `STATUS_RANK`, with `none` for a key that it does not have
unfoldable pub status_rank : Text → Option ℕ
status_rank s =
    if text_eq s (codes "QUEUED")
    then some 0
    else if text_eq s (codes "SENDING")
    then some 1
    else if text_eq s (codes "ACCEPTANCE_UNKNOWN")
    then some 1
    else if text_eq s (codes "ACCEPTED")
    then some 2
    else if text_eq s (codes "DELIVERED")
    then some 3
    else if text_eq s (codes "READ")
    then some 4
    else none

abbrev has_rank : Option ℕ → Bool
has_rank none = false
has_rank (some _) = true

-- `targetRank >= 0 && targetRank > currentRank`, where a missing rank is -1
unfoldable pub outranks : Option ℕ → Option ℕ → Bool
outranks none _ = false
outranks (some t) none = true
outranks (some t) (some c) = ltb c t

-- the tests after the upper-casing
unfoldable pub advances : Text → Text → Bool
unfolding outranks
advances previous next =
    if text_eq previous (codes "FAILED_FINAL")
    then false
    else if text_eq next (codes "FAILED_FINAL")
    then not (text_eq previous (codes "DELIVERED"))
      && not (text_eq previous (codes "READ"))
      && has_rank (status_rank previous)
    else outranks (status_rank next) (status_rank previous)

unfoldable pub should_advance_operator_reply_status : Text → Text → Bool
unfolding advances
should_advance_operator_reply_status current target = advances (to_upper current) (to_upper target)
