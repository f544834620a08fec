-- ===== src/Packet/Consumer.antt =====
-- supabase/functions/whatsapp-packet-ai-consumer/index.ts: the scheduled consumer, which has the worker
-- take jobs until there is none. `Number.isInteger` of a number is a parameter.
pub mod Counted
pub mod Http
pub mod Authorized
use oasis_supabase_core.Prelude.{
  ℕ, zero, suc, ◌+◌, min, max, Bool, true, false, ◌&&◌, ◌||◌, Option, none, some, List, [], ◌∷◌,
  ◌++◌, Text, codes, text_eq, starts_with, take, ◌==◌, if◌then◌else◌,
}
use oasis_supabase_core.Prelude.Int.{ℤ, pos, negsuc}
use oasis_supabase_core.Prelude.Json.{Json, boolean, number, object, end, field}
use oasis_supabase_core.Packet.Queue.{before_colon}
use oasis_supabase_core.Packet.Run.{
  WorkerDeps, WorkerOutcome, idle, deferred, continued, cached, interpreted, Answer, returned,
  request_error, failed,
}
use oasis_supabase_core.Packet.Request.{process_worker_request}

abbrev pub default_max_jobs : ℕ
default_max_jobs = 3

abbrev pub max_jobs_per_tick : ℕ
max_jobs_per_tick = 5

clamped : Option ℤ → ℕ
clamped none = default_max_jobs
clamped (some (pos n)) = min max_jobs_per_tick (max 1 n)
clamped (some (negsuc n)) = 1

-- `integer_of` reads the text of a number, where it is an integer.
unfoldable pub bounded_max_jobs : (Text → Option ℤ) → Json → ℕ
unfolding clamped
bounded_max_jobs integer_of (number n) = clamped (integer_of n)
bounded_max_jobs integer_of v = default_max_jobs

pub record Tally : Type 0 where
  pub processed : ℕ
  pub failures : ℕ
  pub errors : List Text

pub record Report : Type 0 where
  pub success : Bool
  pub is_idle : Bool
  pub tally : Tally

unfoldable pub no_jobs : Tally
no_jobs = record { processed = 0; failures = 0; errors = [] }

unfoldable pub report : Bool → Tally → Report
report is_idle t = record { success = t.failures == 0; is_idle = is_idle; tally = t }

-- `error.body.error ?? error.message`; only the answer with status 409 has no error in its body
error_message : Text → ℕ → Text
error_message code status = if status == 409 then codes "WORKER_REQUEST_FAILED" else code

unfoldable pub is_fatal : Text → Bool
is_fatal code =
    text_eq code (codes "WORKER_NOT_CONFIGURED")
    || text_eq code (codes "KNOWLEDGE_SNAPSHOT_NOT_ACTIVELY_GOVERNED")
    || starts_with code (codes "KNOWLEDGE_SNAPSHOT_LOAD_FAILED")

unfoldable pub count_failure : Tally → Text → Tally
count_failure t code = record t { failures = t.failures + 1; errors = t.errors ++ code ∷ [] }

unfoldable pub count_job : Tally → Tally
count_job t = record t { processed = t.processed + 1 }

unfoldable pub claim_next : Json
claim_next = object (field (codes "claim_next") (boolean true) end)

module _ {Db : Type 0} where
  unfoldable pub after_failure : Text → (Tally → Db → Report × Db) → Tally → Db → Report × Db
  after_failure message next t s =
      let counted = count_failure t (take 120 (before_colon message)) in
      let rest = next counted s in
      if is_fatal (take 120 (before_colon message)) then (report false counted, s) else rest

  -- what follows a job, where `next` is the rest of the loop
  unfoldable pub after_job : Answer → (Tally → Db → Report × Db) → Tally → Db → Report × Db
  unfolding error_message
  after_job (returned idle) next t s = (report (t.processed == 0 && t.failures == 0) t, s)
  after_job (returned (deferred reason id)) next t s = next (count_job t) s
  after_job (returned (continued p i c)) next t s = next (count_job t) s
  after_job (returned (cached p f i c)) next t s = next (count_job t) s
  after_job (returned (interpreted p f i c)) next t s = next (count_job t) s
  after_job (request_error code status) next t s =
      after_failure (error_message code status) next t s
  after_job (failed message) next t s = after_failure message next t s

  unfoldable pub consume_from : WorkerDeps Db → ℕ → Tally → Db → Report × Db
  consume_from deps zero t s = (report false t, s)
  consume_from deps (suc left) t s =
      let job = process_worker_request deps claim_next s in
      after_job job.0 (λ t' s'. consume_from deps left t' s') t job.1

  unfoldable pub consume_available_jobs : WorkerDeps Db → ℕ → Db → Report × Db
  consume_available_jobs deps max_jobs s = consume_from deps max_jobs no_jobs s
