-- ===== src/Packet/Consumer/Counted.antt =====
-- What the consumer reports.
use oasis_supabase_core.Prelude.{
  ℕ, zero, suc, ◌+◌, ◌≤◌, ◌≡◌, refl, Bool, false, ◌&&◌, List, [], ◌∷◌, ◌++◌, Text, length,
  length-append, take, All, All-append, ◌⊎◌, inl, inr, Bool-cases, arith, ◌==◌,
}
use oasis_supabase_core.Packet.Queue.{before_colon}
use oasis_supabase_core.Packet.Run.{
  WorkerDeps, idle, deferred, continued, cached, interpreted, Answer, returned, request_error,
  failed,
}
use oasis_supabase_core.Packet.Request.{process_worker_request}
use oasis_supabase_core.Packet.Consumer.{
  Tally, Report, report, no_jobs, is_fatal, count_failure, count_job, claim_next, error_message,
  after_failure, after_job, consume_from, consume_available_jobs,
}

-- The errors after which the loop goes on, and at most one more, which ends it.
abbrev pub Stops : List Text → Type 0
Stops errors =
    (es : List Text) × All (λ code. is_fatal code ≡ false) es
    × ((errors ≡ es) ⊎ ((code : Text) × (errors ≡ es ++ code ∷ [])))

-- A report of at most so many jobs.
pub record IsReport (jobs : ℕ) (r : Report) : Type 0 where
  pub counted : r.tally.processed + r.tally.failures ≤ jobs
  pub listed : length r.tally.errors ≡ r.tally.failures
  pub succeeded : r.success ≡ (r.tally.failures == 0)
  pub was_idle : (r.is_idle ≡ false) ⊎ ((r.tally.processed ≡ 0) × (r.tally.failures ≡ 0))
  pub stops : Stops r.tally.errors

-- what holds while the loop goes on
record Going (jobs : ℕ) (t : Tally) : Type 0 where
  counted : t.processed + t.failures ≤ jobs
  listed : length t.errors ≡ t.failures
  mild : All (λ code. is_fatal code ≡ false) t.errors

idle-cases : (p f : ℕ) → ((p == 0 && f == 0) ≡ false) ⊎ ((p ≡ 0) × (f ≡ 0))
idle-cases p f = elim (Bool-cases (p == 0 && f == 0)) [
  | inl e ↦ inr (ground arith, ground arith)
  | inr e ↦ inl e
]

report-IsReport :
    (jobs : ℕ) (b : Bool) (t : Tally)
    → Going jobs t
    → (b ≡ false) ⊎ ((t.processed ≡ 0) × (t.failures ≡ 0))
    → IsReport jobs (report b t)
unfolding report
report-IsReport jobs b t g i = record {
  counted = g.counted;
  listed = g.listed;
  succeeded = refl;
  was_idle = i;
  stops = (t.errors, g.mild, inl refl);
}

fatal-IsReport :
    (jobs : ℕ) (t : Tally) (code : Text)
    → Going jobs t
    → IsReport (suc jobs) (report false (count_failure t code))
unfolding report count_failure
fatal-IsReport jobs t code g = record {
  counted = omega (arith, g.counted);
  listed = omega (arith, g.listed, length-append t.errors (code ∷ []));
  succeeded = refl;
  was_idle = inl refl;
  stops = (t.errors, g.mild, inr (code, refl));
}

pub IsReport-le : (jobs more : ℕ) (r : Report) → jobs ≤ more → IsReport jobs r → IsReport more r
IsReport-le jobs more r le h = record {
  counted = omega (arith, h.counted, le);
  listed = h.listed;
  succeeded = h.succeeded;
  was_idle = h.was_idle;
  stops = h.stops;
}

module _ {Db : Type 0} (jobs left : ℕ) (next : Tally → Db → Report × Db)
    (goes : (t : Tally) (s : Db) → Going (suc jobs) t → IsReport (suc jobs + left) (next t s).0)
    (t : Tally) (g : Going jobs t) where
  job-IsReport : (s : Db) → IsReport (suc jobs + left) (next (count_job t) s).0
  unfolding count_job
  job-IsReport s =
      goes (count_job t) s
        (record { counted = omega (arith, g.counted); listed = g.listed; mild = g.mild })

  counted-Going : (code : Text) → is_fatal code ≡ false → Going (suc jobs) (count_failure t code)
  unfolding count_failure
  counted-Going code mild = record {
    counted = omega (arith, g.counted);
    listed = omega (arith, g.listed, length-append t.errors (code ∷ []));
    mild = All-append (λ c. is_fatal c ≡ false) t.errors (code ∷ []) g.mild (mild, tt);
  }

  failure-IsReport :
      (message : Text) (s : Db) → IsReport (suc jobs + left) (after_failure message next t s).0
  unfolding after_failure
  failure-IsReport message s =
      let code = take 120 (before_colon message) in
      elim (Bool-cases (is_fatal code)) [
        | inl fatal ↦ rw fatal (
            IsReport-le (suc jobs) (suc jobs + left) (report false (count_failure t code))
              (omega arith) (fatal-IsReport jobs t code g))
        | inr mild ↦ rw mild (goes (count_failure t code) s (counted-Going code mild))
      ]

  after_job-IsReport :
      (answer : Answer) (s : Db) → IsReport (suc jobs + left) (after_job answer next t s).0
  unfolding after_job
  after_job-IsReport (returned idle) s =
      IsReport-le jobs (suc jobs + left) (report (t.processed == 0 && t.failures == 0) t)
        (omega arith) (report-IsReport jobs _ t g (idle-cases t.processed t.failures))
  after_job-IsReport (returned (deferred reason id)) s = job-IsReport s
  after_job-IsReport (returned (continued p i c)) s = job-IsReport s
  after_job-IsReport (returned (cached p f i c)) s = job-IsReport s
  after_job-IsReport (returned (interpreted p f i c)) s = job-IsReport s
  after_job-IsReport (request_error code status) s = failure-IsReport (error_message code status) s
  after_job-IsReport (failed message) s = failure-IsReport message s

consume_from-IsReport :
    {Db : Type 0} (deps : WorkerDeps Db) (left jobs : ℕ) (t : Tally) (s : Db)
    → Going jobs t
    → IsReport (jobs + left) (consume_from deps left t s).0
unfolding consume_from
consume_from-IsReport deps zero jobs t s g =
    IsReport-le jobs (jobs + 0) (report false t) (omega arith)
      (report-IsReport jobs false t g (inl refl))
consume_from-IsReport deps (suc left) jobs t s g =
    let job = process_worker_request deps claim_next s in
    IsReport-le (suc jobs + left) (jobs + suc left) _ (omega arith) (
      after_job-IsReport jobs left (λ t' s'. consume_from deps left t' s')
        (λ t' s' g'. consume_from-IsReport deps left (suc jobs) t' s' g') t g job.0 job.1)

pub consume_available_jobs-IsReport :
    {Db : Type 0} (deps : WorkerDeps Db) (max_jobs : ℕ) (s : Db)
    → IsReport max_jobs (consume_available_jobs deps max_jobs s).0
unfolding consume_available_jobs no_jobs
consume_available_jobs-IsReport deps max_jobs s =
    IsReport-le (0 + max_jobs) max_jobs _ (omega arith) (
      consume_from-IsReport deps max_jobs 0 no_jobs s
        (record { counted = omega arith; listed = refl; mild = tt }))
