-- ===== src/Packet/Request.antt =====
-- supabase/functions/whatsapp-packet-ai-worker/index.ts: the request of the worker, with its
-- authorization. `atob`, the text decoder and `JSON.parse` are one parameter.
use oasis_supabase_core.Prelude.{
  ℕ, zero, suc, ◌%◌, Bool, true, false, ◌&&◌, ◌||◌, not, Option, none, some, List, [], ◌∷◌, ◌++◌,
  Text, codes, text_eq, nonempty, trim, trim_start, to_lower, is_space, is_digit, all_units, take,
  drop, length, leb, ◌==◌, if◌then◌else◌,
}
use oasis_supabase_core.Prelude.Json.{Json, object, end, get, is_true, as_text}
use oasis_supabase_core.Prelude.Exec.{Result, ok, thrown}
use oasis_supabase_core.Interpret.{safe_string}
use oasis_supabase_core.Packet.Answer.{is_record}
use oasis_supabase_core.Packet.Queue.{DispatchLease, is_null}
use oasis_supabase_core.Packet.Queue.Calls.{claim_dispatch_lease, dispatch_job_state}
use oasis_supabase_core.Packet.Run.{
  WorkerDeps, WorkerOutcome, idle, deferred, Answer, returned, request_error, failed, run_lease,
}

is_hex_unit : ℕ → Bool
is_hex_unit c = is_digit c || (leb b'a' c && leb c b'f') || (leb b'A' c && leb c b'F')

is_version_unit : ℕ → Bool
is_version_unit c = leb b'1' c && leb c b'5'

is_variant_unit : ℕ → Bool
is_variant_unit c = c == b'8' || c == b'9' || c == b'a' || c == b'b' || c == b'A' || c == b'B'

is_dash : ℕ → Bool
is_dash c = c == b'-'

-- a text of units that each satisfy the test at their place
matches : List (ℕ → Bool) → Text → Bool
matches [] [] = true
matches [] (c ∷ s) = false
matches (p ∷ ps) [] = false
matches (p ∷ ps) (c ∷ s) = p c && matches ps s

times : ℕ → List (ℕ → Bool) → List (ℕ → Bool)
unfolding is_hex_unit
times zero ps = ps
times (suc n) ps = is_hex_unit ∷ times n ps

-- the regular expression of a packet id, in either case of letters
unfoldable pub is_packet_id : Text → Bool
unfolding times matches is_hex_unit is_version_unit is_variant_unit is_dash
is_packet_id id =
    matches
      (times 8 (
        is_dash
        ∷ times 4 (
            is_dash
            ∷ is_version_unit
            ∷ times 3 (is_dash ∷ is_variant_unit ∷ times 3 (is_dash ∷ times 12 [])))))
      id

module _ {Db : Type 0} (deps : WorkerDeps Db) where
  open deps use {admin, content}

  -- a packet whose lease was not given
  unfoldable pub without_lease : Text → Option Text → Answer
  without_lease packet_id none = request_error (codes "DISPATCH_LEASE_REQUIRED") 409
  without_lease packet_id (some state) =
      if text_eq state (codes "LEASED")
      then returned (deferred (codes "DISPATCH_LEASE_ACTIVE") packet_id)
      else if text_eq state (codes "COMPLETED")
      then returned (deferred (codes "DISPATCH_ALREADY_COMPLETED") packet_id)
      else request_error (codes "DISPATCH_LEASE_REQUIRED") 409

  unfoldable pub after_state : Text → Result (Option Text) → Answer
  after_state packet_id (ok state) = without_lease packet_id state
  after_state packet_id (thrown message) = failed message

  unfoldable pub after_claim_next : ℕ → Result (Option DispatchLease) → Db → Answer × Db
  after_claim_next started (ok none) s = (returned idle, s)
  after_claim_next started (ok (some lease)) s = run_lease deps started lease s
  after_claim_next started (thrown message) s = (failed message, s)

  unfoldable pub after_claim_packet : ℕ → Text → Result (Option DispatchLease) → Db → Answer × Db
  after_claim_packet started packet_id (ok none) s =
      let state = dispatch_job_state admin packet_id s in (after_state packet_id state.0, state.1)
  after_claim_packet started packet_id (ok (some lease)) s = run_lease deps started lease s
  after_claim_packet started packet_id (thrown message) s = (failed message, s)

  unfoldable pub process_worker_request : Json → Db → Answer × Db
  process_worker_request body s =
      let (started, s') = content.now s in
      let packet_id = safe_string (get (codes "packet_id") body) 80 in
      let next = claim_dispatch_lease admin none s' in
      let claimed = claim_dispatch_lease admin (some packet_id) s' in
      let ran_next = after_claim_next started next.0 next.1 in
      let ran_packet = after_claim_packet started packet_id claimed.0 claimed.1 in
      if is_null body
      then (failed (codes "Cannot read properties of null (reading 'claim_next')"), s')
      else if is_true (get (codes "claim_next") body)
      then ran_next
      else if is_packet_id packet_id
      then ran_packet
      else (request_error (codes "PACKET_ID_REQUIRED") 400, s')

-- the parts between dots
split_dots : Text → List Text
split_dots [] = [] ∷ []
split_dots (c ∷ s) = if c == b'.' then [] ∷ split_dots s else prepend c (split_dots s)
  where
    prepend : ℕ → List Text → List Text
    prepend c [] = (c ∷ []) ∷ []
    prepend c (part ∷ parts) = (c ∷ part) ∷ parts

is_token_unit : ℕ → Bool
is_token_unit c = not (is_space c)

-- what follows `Bearer` and white space in a trimmed text, when there is no white space in it
unfoldable pub bearer_token : Text → Option Text
unfolding is_token_unit
bearer_token text =
    let token = trim_start (drop 6 text) in
    if text_eq (to_lower (take 6 text)) (codes "bearer")
      && not (length token == length (drop 6 text))
      && nonempty token
      && all_units is_token_unit token
    then some token
    else none

url_unit : ℕ → ℕ
url_unit c = if c == b'-' then b'+' else if c == b'_' then b'/' else c

decoded_alphabet : Text → Text
unfolding url_unit
decoded_alphabet [] = []
decoded_alphabet (c ∷ s) = url_unit c ∷ decoded_alphabet s

padding : ℕ → Text
padding n =
    if n % 4 == 1
    then codes "==="
    else if n % 4 == 2
    then codes "=="
    else if n % 4 == 3
    then codes "="
    else []

-- `decode` gives none where `atob` or `JSON.parse` throws
payload_of : (Text → Option Json) → List Text → Option Json
unfolding decoded_alphabet padding
payload_of decode (header ∷ claims ∷ signature ∷ []) =
    decode (decoded_alphabet claims ++ padding (length claims))
payload_of decode parts = none

is_service_role : Option Json → Bool
is_service_role none = false
is_service_role (some payload) = has_role (is_record payload) (as_text (get (codes "role") payload))
  where
    has_role : Bool → Option Text → Bool
    has_role known none = false
    has_role known (some role) = known && text_eq role (codes "service_role")

unfoldable pub trusted_service_role_authorization : (Text → Option Json) → Text → Bool
unfolding split_dots payload_of is_service_role
trusted_service_role_authorization decode authorization = elim (bearer_token (trim authorization)) [
  | none ↦ false
  | some token ↦ is_service_role (payload_of decode (split_dots token))
]

-- What the handler reads of a request and of the environment; a body that is no JSON is none.
pub record HttpRequest : Type 0 where
  pub method : Text
  pub authorization : Text
  pub body : Option Json
  pub service_role_key : Text
  pub supabase_url : Text

pub data HttpAnswer : Type 0 where
  success : WorkerOutcome → HttpAnswer
  refused : Text → ℕ → HttpAnswer

body_or_empty : Option Json → Json
body_or_empty none = object end
body_or_empty (some body) = body

respond : Answer → HttpAnswer
respond (returned outcome) = success outcome
respond (request_error code status) = refused code status
respond (failed message) = refused (take 240 message) 502

-- `handleRequest`, with the answer to an error that it throws
unfoldable pub handle_request :
    {Db : Type 0} → WorkerDeps Db → (Text → Option Json) → HttpRequest → Db → HttpAnswer × Db
unfolding body_or_empty respond
handle_request deps decode request s =
    let ran = process_worker_request deps (body_or_empty request.body) s in
    if not (text_eq request.method (codes "POST"))
    then (refused (codes "METHOD_NOT_ALLOWED") 405, s)
    else if not (nonempty request.service_role_key)
        || not (trusted_service_role_authorization decode request.authorization)
    then (refused (codes "TRUSTED_PROCESSOR_REQUIRED") 401, s)
    else if not (nonempty request.supabase_url)
    then (refused (codes "WORKER_NOT_CONFIGURED") 503, s)
    else (respond ran.0, ran.1)
