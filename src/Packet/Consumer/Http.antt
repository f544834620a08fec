-- ===== src/Packet/Consumer/Http.antt =====
-- supabase/functions/whatsapp-packet-ai-consumer/index.ts: the handler of a request, with its check of
-- the worker secret. The RPC that verifies the secret is a parameter.
use oasis_supabase_core.Prelude.{
  ℕ, ◌||◌, not, Option, none, some, [], Text, codes, text_eq, nonempty, trim, take, if◌then◌else◌,
}
use oasis_supabase_core.Prelude.Int.{ℤ}
use oasis_supabase_core.Prelude.Json.{Json, object, end, get, is_true}
use oasis_supabase_core.Prelude.Exec.{Exec, Result, ok, thrown, ◌>>=◌, pure}
use oasis_supabase_core.Packet.Queue.{is_null}
use oasis_supabase_core.Packet.Run.{WorkerDeps}
use oasis_supabase_core.Packet.Consumer.{Report, bounded_max_jobs, consume_available_jobs}

pub data ConsumerAuthority : Type 0 where
  granted : ConsumerAuthority
  denied : ℕ → Text → ConsumerAuthority

-- What the handler reads of a request and of the environment; a body that is no JSON is none.
pub record ConsumerRequest : Type 0 where
  pub method : Text
  pub worker_secret : Option Text
  pub body : Option Json
  pub supabase_url : Text
  pub service_role_key : Text

pub data ConsumerAnswer : Type 0 where
  reported : Report → ℕ → ConsumerAnswer
  rejected : Text → ℕ → ConsumerAnswer

-- What the RPC answers when its promise does not reject: the data or the error.
pub data Verification : Type 0 where
  verified : Json → Verification
  unavailable : Text → Verification

-- What the handler is given: the worker, the RPC and the number of a text
pub record ConsumerDeps (Db : Type 0) : Type 0 where
  pub worker : WorkerDeps Db
  pub verify_secret : Text → Exec Db Verification
  pub integer_of : Text → Option ℤ

unfoldable pub candidate_of : Option Text → Text
candidate_of none = []
candidate_of (some secret) = trim secret

unfoldable pub authority_of : Verification → ConsumerAuthority
authority_of (verified answer) = if is_true answer then granted else denied 403 (codes "forbidden")
authority_of (unavailable message) = denied 500 (codes "authority_unavailable")

unfoldable pub request_body : Option Json → Json
request_body none = object end
request_body (some body) = body

unfoldable pub report_status : Report → ℕ
report_status r = if r.success then 200 else 502

module _ {Db : Type 0} (deps : ConsumerDeps Db) where
  open deps use {worker, verify_secret, integer_of}

  unfoldable pub require_consumer_authority : Option Text → Exec Db ConsumerAuthority
  unfolding candidate_of authority_of
  require_consumer_authority secret =
      let candidate = candidate_of secret in
      if nonempty candidate
      then (verify_secret candidate >>= λ answer. pure (authority_of answer))
      else pure (denied 401 (codes "unauthorized"))

  -- a body that is `null` has no `max_jobs` to read
  unfoldable pub serve_jobs : Json → Db → ConsumerAnswer × Db
  serve_jobs body s =
      let jobs = bounded_max_jobs integer_of (get (codes "max_jobs") body) in
      let run = consume_available_jobs worker jobs s in
      if is_null body
      then (rejected (codes "Cannot read properties of null (reading 'max_jobs')") 502, s)
      else (reported run.0 (report_status run.0), run.1)

  -- an error that was thrown is answered in the `catch` of the server
  unfoldable pub after_authority : Json → Result ConsumerAuthority → Db → ConsumerAnswer × Db
  after_authority body (ok granted) s = serve_jobs body s
  after_authority body (ok (denied status error)) s = (rejected error status, s)
  after_authority body (thrown message) s = (rejected (take 240 message) 502, s)

  -- `handleRequest`, with the answer to an error that it throws
  unfoldable pub handle_consumer_request : ConsumerRequest → Db → ConsumerAnswer × Db
  unfolding request_body
  handle_consumer_request request s =
      let authority = require_consumer_authority request.worker_secret s in
      let served = after_authority (request_body request.body) authority.0 authority.1 in
      if not (text_eq request.method (codes "POST"))
      then (rejected (codes "METHOD_NOT_ALLOWED") 405, s)
      else if not (nonempty request.supabase_url) || not (nonempty request.service_role_key)
      then (rejected (codes "CONSUMER_NOT_CONFIGURED") 503, s)
      else served
