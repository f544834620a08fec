-- ===== src/Packet/Queue.antt =====
-- supabase/functions/whatsapp-packet-ai-worker/index.ts: the calls of the database about a packet. The
-- client, `Number` and the lower-case function are parameters; one store is threaded through the calls.
pub mod Calls
use oasis_supabase_core.Prelude.{
  ℕ, suc, Bool, true, false, ◌&&◌, ◌||◌, not, Option, none, some, List, [], ◌∷◌, ◌++◌, Text, codes,
  text_eq, nonempty, trim, to_upper, starts_with, list_contains, distinct, take, length, ltb, ◌==◌,
  if◌then◌else◌,
}
use oasis_supabase_core.Prelude.Int.{ℤ, pos, negsuc}
use oasis_supabase_core.Prelude.Json.{
  Json, undefined, null, boolean, number, string, array, object, Items, nil, cons, Fields, end,
  field, get, as_array, is_true,
}
use oasis_supabase_core.Prelude.Exec.{Exec, Result, ok, thrown, ◌>>=◌, pure}
use oasis_supabase_core.OperatorReply.Delivery.{Reply, gives, fails, rejects}
use oasis_supabase_core.Interpret.{safe_string, is_object, elements}
use oasis_supabase_core.Packet.{
  LoadedMessage, messages_of, assert_packet_message_count, assert_provider_ids_present,
}
use oasis_supabase_core.Packet.Content.{KnowledgeSnapshot}
use oasis_supabase_core.Packet.Answer.{Interpretation, is_record}

pub data ExecutionKind : Type 0 where
  packet case_context : ExecutionKind

-- The context revision is absent also when it is no positive safe integer, which only a packet job may have.
pub record DispatchLease : Type 0 where
  pub id : Text
  pub packet_id : Text
  pub packet_revision : ℕ
  pub lease_token : Text
  pub execution_kind : ExecutionKind
  pub case_id : Option Text
  pub context_revision : Option ℕ

-- the job, the token and the revision of a lease
pub record JobArgs : Type 0 where
  pub job_id : Text
  pub lease_token : Text
  pub packet_revision : ℕ

pub record MaterializeArgs : Type 0 where
  pub packet_id : Text
  pub interpretation_id : Text
  pub job : Option JobArgs

-- The constant members (provider, model and the versions of the policies) are left out.
pub record PersistArgs : Type 0 where
  pub packet_id : Text
  pub content_fingerprint : Text
  pub provider_message_ids : List Text
  pub interpretation : Interpretation
  pub knowledge_snapshot : KnowledgeSnapshot
  pub job : Option JobArgs

pub record GovernArgs : Type 0 where
  pub case_id : Text
  pub interpretation_id : Text
  pub intent : Text
  pub primary_department : Option Text
  pub reply_clearance : Option Text
  pub draft_reply : Option Text

pub record RetryArgs : Type 0 where
  pub job : JobArgs
  pub error_code : Text
  pub error_detail : Text
  pub knowledge_authority_failure : Bool

-- The calls of the database client, each with what it answers. `to_safe_integer` is `Number`, where that
-- is a safe integer.
pub record Admin (Db : Type 0) : Type 0 where
  pub claim : Option Text → Db → Reply Json × Db
  pub continuation : Text → Option ℕ → Db → Reply Json × Db
  pub job_state : Text → Db → Reply Json × Db
  pub packet_row : Text → Db → Reply Json × Db
  pub packet_messages : Text → Db → Reply Json × Db
  pub case_messages : Text → Db → Reply Json × Db
  pub active_snapshot : Db → Reply Json × Db
  pub cached_interpretation : Text → Text → Db → Reply Json × Db
  pub complete_media : Text → Text → Db → Reply (Unit {0}) × Db
  pub persist : PersistArgs → Db → Reply Json × Db
  pub materialize : MaterializeArgs → Db → Reply Json × Db
  pub govern : GovernArgs → Db → Reply Json × Db
  pub complete : JobArgs → Db → Reply Json × Db
  pub retry : RetryArgs → Db → Reply (Unit {0}) × Db
  pub to_lower_case : Text → Text
  pub to_safe_integer : Json → Option ℤ

-- `safeString(error.message, 120)`, after a code
unfoldable pub coded : Text → Text → Text
coded code message = code ++ (b':' ∷ take 120 (trim message))

unfoldable pub rpc_with_transport : {A : Type 0} → Text → Reply A → Result A
rpc_with_transport code (gives a) = ok a
rpc_with_transport code (fails c message) = thrown (coded code message)
rpc_with_transport code (rejects message) = thrown (coded code message)

-- a lookup whose rejection is not caught
unfoldable pub lookup : {A : Type 0} → Text → Reply A → Result A
lookup code (gives a) = ok a
lookup code (fails c message) = thrown (coded code message)
lookup code (rejects message) = thrown message

-- a call of the database whose reply is read
unfoldable pub call : {Db A B : Type 0} → (Db → Reply A × Db) → (Reply A → Result B) → Exec Db B
call m read s = let r = m s in (read r.0, r.1)

-- a truthy value
unfoldable pub is_present : Json → Bool
is_present undefined = false
is_present null = false
is_present (boolean b) = b
is_present (number n) = not (text_eq n (codes "0") || text_eq n (codes "NaN"))
is_present (string s) = nonempty s
is_present (array xs) = true
is_present (object fs) = true

unfoldable pub is_null : Json → Bool
is_null undefined = true
is_null null = true
is_null _ = false

unfoldable pub all_null : Fields → Bool
all_null end = true
all_null (field k v fs) = is_null v && all_null fs

unfoldable pub all_null_items : Items → Bool
all_null_items nil = true
all_null_items (cons v vs) = is_null v && all_null_items vs

-- a composite row that has members, all of them null
unfoldable pub is_empty_claim_row : Json → Bool
is_empty_claim_row (object end) = false
is_empty_claim_row (object fs) = all_null fs
is_empty_claim_row (array nil) = false
is_empty_claim_row (array xs) = all_null_items xs
is_empty_claim_row _ = false

abbrev pub some_nonempty : Text → Option Text
some_nonempty [] = none
some_nonempty (c ∷ s) = some (c ∷ s)

abbrev pub has_some : {A : Type 0} → Option A → Bool
has_some none = false
has_some (some a) = true

-- a safe integer of at least one
unfoldable pub positive : Option ℤ → Option ℕ
positive none = none
positive (some (pos n)) = if ltb 0 n then some n else none
positive (some (negsuc n)) = none

kind_of : Text → Option ExecutionKind
kind_of text =
    if text_eq text (codes "PACKET")
    then some packet
    else if text_eq text (codes "CASE_CONTEXT")
    then some case_context
    else none

-- the lease, from the parts that are checked
lease_of : DispatchLease → Option ExecutionKind → Option ℕ → Result (Option DispatchLease)
lease_of l (some packet) (some revision) =
    if nonempty l.id && nonempty l.packet_id && nonempty l.lease_token
    then ok (some (record l { packet_revision = revision; execution_kind = packet }))
    else thrown (codes "DISPATCH_CLAIM_INVALID")
lease_of l (some case_context) (some revision) =
    if nonempty l.id
      && nonempty l.packet_id
      && nonempty l.lease_token
      && has_some l.case_id
      && has_some l.context_revision
    then ok (some (record l { packet_revision = revision; execution_kind = case_context }))
    else thrown (codes "DISPATCH_CLAIM_INVALID")
lease_of l kind revision = thrown (codes "DISPATCH_CLAIM_INVALID")

unfoldable pub parse_dispatch_lease_row : (Json → Option ℤ) → Json → Result (Option DispatchLease)
unfolding kind_of lease_of
parse_dispatch_lease_row to_safe_integer row =
    let parsed =
      lease_of
        (record {
          id = safe_string (get (codes "id") row) 80;
          packet_id = safe_string (get (codes "packet_id") row) 80;
          packet_revision = 0;
          lease_token = safe_string (get (codes "lease_token") row) 80;
          execution_kind = packet;
          case_id = some_nonempty (safe_string (get (codes "case_id") row) 80);
          context_revision =
              if is_null (get (codes "context_revision") row)
              then none
              else positive (to_safe_integer (get (codes "context_revision") row));
        })
        (kind_of (safe_string (get (codes "execution_kind") row) 32))
        (positive (to_safe_integer (get (codes "packet_revision") row))) in
    if not (is_present row) || is_empty_claim_row row then ok none else parsed

unfoldable pub job_of : DispatchLease → JobArgs
job_of lease = record {
  job_id = lease.id;
  lease_token = lease.lease_token;
  packet_revision = lease.packet_revision;
}

-- `withDispatchLeaseRpcArgs`
unfoldable pub with_dispatch_lease_rpc_args : Option DispatchLease → Option JobArgs
with_dispatch_lease_rpc_args none = none
with_dispatch_lease_rpc_args (some lease) = some (job_of lease)

-- a text before the first colon
unfoldable pub before_colon : Text → Text
before_colon [] = []
before_colon (c ∷ s) = let rest = before_colon s in if c == b':' then [] else c ∷ rest
