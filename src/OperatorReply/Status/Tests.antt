-- ===== src/OperatorReply/Status/Tests.antt =====
-- Statuses in the case and order in which a provider sends them.
use oasis_supabase_core.Prelude.{
  ◌≡◌, refl, ◌≤◌, List, [], ◌∷◌, Text, codes, to_upper, text_eq, some, none, inl,
}
use oasis_supabase_core.Prelude.{trim, to_lower}
use oasis_supabase_core.OperatorReply.Status.{status_rank}
use oasis_supabase_core.OperatorReply.Status.{
  normalize_operator_reply_provider_status, delivered, failed_final,
  should_advance_operator_reply_status,
}
use oasis_supabase_core.OperatorReply.Status.Order.{
  receive, receive_bounded, place, highest, receive-highest, IsDelivered, receive-IsDelivered,
}

abbrev callbacks : List Text
callbacks =
    codes "SENDING" ∷ codes "accepted" ∷ codes "ACCEPTED" ∷ codes "READ" ∷ codes "FAILED_FINAL" ∷ []

normalize_tests :
    (normalize_operator_reply_provider_status (codes " Delivered\n") ≡ some delivered)
    × (normalize_operator_reply_provider_status (codes "UNDELIVERED") ≡ some failed_final)
    × (normalize_operator_reply_provider_status (codes "warning") ≡ none)
unfolding normalize_operator_reply_provider_status trim to_lower text_eq codes
normalize_tests = (refl, refl, refl)

receive_test : receive (codes "QUEUED") callbacks ≡ (codes "READ", 3)
unfolding should_advance_operator_reply_status status_rank to_upper text_eq codes
receive_test = refl

receive_bounded_example : (receive (codes "QUEUED") callbacks).1 ≤ 6
receive_bounded_example = receive_bounded (codes "QUEUED") callbacks

failed_upper : to_upper (codes "Failed_Final") ≡ codes "FAILED_FINAL"
unfolding to_upper codes
failed_upper = refl

abbrev deliveries : List Text
deliveries = codes "accepted" ∷ codes "READ" ∷ codes "DELIVERED" ∷ codes "seen" ∷ []

receive-highest_example :
    place (receive (codes "QUEUED") deliveries).0 ≡ highest (place (codes "QUEUED")) deliveries
unfolding text_eq to_upper codes
receive-highest_example =
    receive-highest (codes "QUEUED") deliveries refl (refl, (refl, (refl, (refl, tt))))

delivered_upper : to_upper (codes "delivered") ≡ codes "DELIVERED"
unfolding to_upper codes
delivered_upper = refl

receive-IsDelivered_example : IsDelivered (receive (codes "delivered") callbacks).0
receive-IsDelivered_example =
    receive-IsDelivered (codes "delivered") callbacks (inl delivered_upper)
