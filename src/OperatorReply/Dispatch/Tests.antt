-- ===== src/OperatorReply/Dispatch/Tests.antt =====
-- A queue of two replies, and a provider that accepts one and times out on the other.
use oasis_supabase_core.OperatorReply.Dispatch.Consume.{finish}
use oasis_supabase_core.OperatorReply.Dispatch.{fail_row}
use oasis_supabase_core.OperatorReply.Dispatch.{complete_row}
use oasis_supabase_core.OperatorReply.Dispatch.{is_ok_status}
use oasis_supabase_core.OperatorReply.Dispatch.{select_click2api_provider_message_id}
use oasis_supabase_core.OperatorReply.Dispatch.{answered}
use oasis_supabase_core.OperatorReply.Dispatch.{settle_fetched}
use oasis_supabase_core.OperatorReply.Dispatch.Consume.{after_dispatch}
use oasis_supabase_core.OperatorReply.Dispatch.{parse_claim_row}
use oasis_supabase_core.OperatorReply.Dispatch.Consume.{after_claim}
use oasis_supabase_core.Prelude.{
  ℕ, zero, suc, ◌≡◌, refl, false, none, some, [], ◌∷◌, Text, codes, text_eq, trim, if◌then◌else◌,
  starts_with,
}
use oasis_supabase_core.Prelude.Json.{Json, object, field, end, string, null}
use oasis_supabase_core.OperatorReply.Delivery.{gives}
use oasis_supabase_core.OperatorReply.Dispatch.{
  OperatorReplyRow, Fetched, network_error, response, Queue, ProviderPayload, template, message,
  build_provider_payload, dispatch_claimed_operator_reply, claim_next_operator_reply,
}
use oasis_supabase_core.OperatorReply.Dispatch.Settlement.{
  logged, SettledOnce, dispatch-SettledOnce,
}
use oasis_supabase_core.OperatorReply.Dispatch.Consume.{
  consume_available_replies, consume_from, record_failure,
}

abbrev claimed : Text → Json
claimed to = object (
    field (codes "id") (string (codes "r")) (
      field (codes "lease_token") (string (codes "t"))
        (field (codes "recipient_phone_e164") (string to) end)))

-- the rows that are left: two, one, none
abbrev claim_at : ℕ → Json × ℕ
claim_at zero = (null, 0)
claim_at (suc zero) = (claimed (codes "+2"), 0)
claim_at (suc (suc n)) = (claimed (codes "+1"), suc n)

abbrev answer_to : Text → Fetched
answer_to to =
    if text_eq to (codes "1")
    then response 200 (object (field (codes "message_id") (string (codes "m1")) end))
    else network_error (codes "timeout")

abbrev provider : ProviderPayload → Fetched
provider (template to _ _) = answer_to to
provider (message to _) = answer_to to

abbrev two_replies : Queue ℕ
two_replies = record {
  api_key = some (codes "key");
  claim = λ worker s. let r = claim_at s in (gives r.0, r.1);
  fail = λ args s. (gives tt, s);
  complete = λ args s. (gives (object end), s);
  fetch = λ payload s. (provider payload, s);
  stringify = λ body. [];
}

abbrev reply : OperatorReplyRow
reply = record {
  id = codes "r";
  lease_token = codes "t";
  message_type = codes "TEXT";
  recipient_phone_e164 = codes "+2";
  message_body = codes "hello";
  template_name = none;
  template_language = none;
  message_origin = codes "STAFF";
  status = codes "SENDING";
}

consume_run : (consume_available_replies two_replies (codes "w") 5 2).0 ≡ record {
  success = false;
  idle = false;
  processed = 1;
  failed = 1;
  errors = codes "ACCEPTANCE_UNKNOWN" ∷ [];
}
unfolding consume_available_replies trim codes consume_from after_claim claim_next_operator_reply
    parse_claim_row text_eq after_dispatch dispatch_claimed_operator_reply settle_fetched
    build_provider_payload answered select_click2api_provider_message_id is_ok_status complete_row
    starts_with fail_row finish record_failure
consume_run = refl

dispatch-SettledOnce_example :
    SettledOnce two_replies.api_key reply
      (two_replies.fetch (build_provider_payload reply) 0).0
      []
      (dispatch_claimed_operator_reply (logged two_replies) reply (0, [])).1.1
dispatch-SettledOnce_example = dispatch-SettledOnce two_replies reply 0 []
