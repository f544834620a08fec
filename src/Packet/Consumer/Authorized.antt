-- ===== src/Packet/Consumer/Authorized.antt =====
-- Who has the consumer take jobs, and how many.
use oasis_supabase_core.Prelude.{take}
use oasis_supabase_core.Prelude.{
  ℕ, ◌≤◌, ◌≡◌, ◌≢◌, ◌&&◌, refl, true, false, ◌||◌, not, Option, none, some, Text, codes, text_eq,
  nonempty, ◌⊎◌, inl, inr, Bool-cases, arith,
}
use oasis_supabase_core.Prelude.Int.{ℤ, pos, negsuc}
use oasis_supabase_core.Prelude.Json.{Json, boolean, number, get, is_true}
use oasis_supabase_core.Prelude.Exec.{Result, ok, thrown, continue, pure}
use oasis_supabase_core.Packet.Queue.{is_null}
use oasis_supabase_core.Packet.Consumer.{Report, bounded_max_jobs, consume_available_jobs, clamped}
use oasis_supabase_core.Packet.Consumer.Counted.{
  IsReport, IsReport-le, consume_available_jobs-IsReport,
}
use oasis_supabase_core.Packet.Consumer.Http.{
  Verification, verified, unavailable, denied, ConsumerRequest, ConsumerAnswer, reported, rejected,
  ConsumerDeps, candidate_of, authority_of, request_body, report_status, require_consumer_authority,
  serve_jobs, after_authority, handle_consumer_request,
}

clamped-le : (n : Option ℤ) → (1 ≤ clamped n) × (clamped n ≤ 5)
unfolding clamped
clamped-le none = (omega arith, omega arith)
clamped-le (some (pos n)) = (omega arith, omega arith)
clamped-le (some (negsuc n)) = (omega arith, omega arith)

bounded_max_jobs-le :
    (integer_of : Text → Option ℤ) (v : Json)
    → (1 ≤ bounded_max_jobs integer_of v) × (bounded_max_jobs integer_of v ≤ 5)
unfolding bounded_max_jobs
bounded_max_jobs-le integer_of (number n) = clamped-le (integer_of n)
bounded_max_jobs-le integer_of _ = (omega arith, omega arith)

-- Why a request may be refused: it is no POST, the consumer is not configured, there is no secret, the
-- secret was not verified, or the body is `null`.
abbrev pub MayRefuse : {Db : Type 0} → ConsumerDeps Db → ConsumerRequest → Db → Type 0
MayRefuse deps request s =
    (text_eq request.method (codes "POST") ≡ false)
    ⊎ ((nonempty request.supabase_url && nonempty request.service_role_key) ≡ false)
    ⊎ (nonempty (candidate_of request.worker_secret) ≡ false)
    ⊎ ((deps.verify_secret (candidate_of request.worker_secret) s).0 ≢ ok (verified (boolean true)))
    ⊎ (is_null (request_body request.body) ≡ true)

-- no job was taken: only the secret may have been verified
pub record IsRefused {Db : Type 0} (deps : ConsumerDeps Db) (request : ConsumerRequest) (s : Db)
    (out : ConsumerAnswer × Db) : Type 0 where
  pub cause : MayRefuse deps request s
  pub error : Text
  pub status : ℕ
  pub answer : out.0 ≡ rejected error status
  pub state : (out.1 ≡ s) ⊎ (out.1 ≡ (deps.verify_secret (candidate_of request.worker_secret) s).1)

-- the secret was verified before the first job, and the answer is a report of at most five jobs
pub record IsServed {Db : Type 0} (deps : ConsumerDeps Db) (request : ConsumerRequest) (s : Db)
    (out : ConsumerAnswer × Db) : Type 0 where
  pub posted : text_eq request.method (codes "POST") ≡ true
  pub candidate : nonempty (candidate_of request.worker_secret) ≡ true
  pub verified :
      (deps.verify_secret (candidate_of request.worker_secret) s).0 ≡ ok (verified (boolean true))
  pub done : Report
  pub status : ℕ
  pub answer : out.0 ≡ reported done status
  pub healthy : ((status ≡ 200) × (done.success ≡ true)) ⊎ ((status ≡ 502) × (done.success ≡ false))
  pub ran :
      (jobs : ℕ) × (1 ≤ jobs)
      × (jobs ≤ 5)
      × (consume_available_jobs deps.worker jobs
            (deps.verify_secret (candidate_of request.worker_secret) s).1
          ≡ (done, out.1))
  pub counted : IsReport 5 done

-- A request is answered in one of the two ways.
abbrev pub IsGuarded :
    {Db : Type 0} → ConsumerDeps Db → ConsumerRequest → Db → ConsumerAnswer × Db → Type 0
IsGuarded deps request s out = IsRefused deps request s out ⊎ IsServed deps request s out

status-cases :
    (r : Report)
    → ((report_status r ≡ 200) × (r.success ≡ true))
      ⊎ ((report_status r ≡ 502) × (r.success ≡ false))
unfolding report_status
status-cases r = elim (Bool-cases r.success) [
  | inl e ↦ inl (rw e refl, e)
  | inr e ↦ inr (rw e refl, e)
]

authority-cases :
    (r : Result Verification)
    → (r ≡ ok (verified (boolean true)))
      ⊎ ((r ≢ ok (verified (boolean true)))
          × (status : ℕ) × (error : Text) × ((r ≡ thrown error)
              ⊎ ((v : Verification) × (r ≡ ok v) × (authority_of v ≡ denied status error))))
unfolding authority_of is_true
authority-cases (ok (verified (boolean true))) = inl refl
authority-cases (ok (verified _)) = inr ((λ h. cc), 403, codes "forbidden", inr (_, refl, refl))
authority-cases (ok (unavailable message)) =
    inr ((λ h. cc), 500, codes "authority_unavailable", inr (_, refl, refl))
authority-cases (thrown message) = inr ((λ h. cc), 502, message, inl refl)

module _ {Db : Type 0} (deps : ConsumerDeps Db) (request : ConsumerRequest) (s : Db) where
  open deps use {worker, verify_secret, integer_of}

  abbrev candidate : Text
  candidate = candidate_of request.worker_secret

  abbrev answered : Result Verification × Db
  answered = verify_secret candidate s

  abbrev body : Json
  body = request_body request.body

  refused-IsGuarded :
      MayRefuse deps request s
      → (error : Text) (status : ℕ) → IsGuarded deps request s (rejected error status, s)
  refused-IsGuarded why error status =
      inl (record { cause = why; error = error; status = status; answer = refl; state = inl refl })

  serve_jobs-IsGuarded :
      text_eq request.method (codes "POST") ≡ true
      → nonempty candidate ≡ true
      → answered.0 ≡ ok (verified (boolean true))
      → IsGuarded deps request s (serve_jobs deps body answered.1)
  unfolding serve_jobs
  serve_jobs-IsGuarded posted given granted_it =
      let jobs = bounded_max_jobs integer_of (get (codes "max_jobs") body) in
      let done = (consume_available_jobs worker jobs answered.1).0 in
      elim (Bool-cases (is_null body)) [
        | inl e ↦ rw e (
            inl (record {
              cause = inr (inr (inr (inr e)));
              error = _;
              status = 502;
              answer = refl;
              state = inr refl;
            }))
        | inr e ↦ rw e (
            inr (record {
              posted = posted;
              candidate = given;
              verified = granted_it;
              done = done;
              status = _;
              answer = refl;
              healthy = status-cases done;
              ran = (
                jobs,
                (bounded_max_jobs-le integer_of _).0,
                (bounded_max_jobs-le integer_of _).1,
                refl,
              );
              counted =
                  IsReport-le jobs 5 done (bounded_max_jobs-le integer_of _).1
                    (consume_available_jobs-IsReport worker jobs answered.1);
            }))
      ]

  refused_after-IsGuarded :
      answered.0 ≢ ok (verified (boolean true))
      → (error : Text) (status : ℕ) → IsGuarded deps request s (rejected error status, answered.1)
  refused_after-IsGuarded denied_it error status = inl (record {
    cause = inr (inr (inr (inl denied_it)));
    error = error;
    status = status;
    answer = refl;
    state = inr refl;
  })

  authority-IsGuarded :
      text_eq request.method (codes "POST") ≡ true
      → nonempty candidate ≡ true
      → (let authority = continue answered.0 (λ v. pure (authority_of v)) answered.1 in
          IsGuarded deps request s (after_authority deps body authority.0 authority.1))
  unfolding after_authority authority_of is_true
  authority-IsGuarded posted given = elim (authority-cases answered.0) [
    | inl e ↦ rw e (serve_jobs-IsGuarded posted given e)
    | inr (denied_it, status, error, inl e) ↦
        rw e (refused_after-IsGuarded denied_it (take 240 error) 502)
    | inr (denied_it, status, error, inr (v, e, d)) ↦
        rw e (rw d (refused_after-IsGuarded denied_it error status))
  ]

  candidate-IsGuarded :
      text_eq request.method (codes "POST") ≡ true
      → IsGuarded deps request s (
          after_authority deps body
            (require_consumer_authority deps request.worker_secret s).0
            (require_consumer_authority deps request.worker_secret s).1)
  unfolding require_consumer_authority after_authority
  candidate-IsGuarded posted = elim (Bool-cases (nonempty candidate)) [
    | inl e ↦ rw e (authority-IsGuarded posted e)
    | inr e ↦ rw e (refused-IsGuarded (inr (inr (inl e))) (codes "unauthorized") 401)
  ]

  -- A request either is refused, with nothing done but the verification of its secret, and only if it is
  -- no POST, the consumer is not configured, its secret is absent or not verified, or its body is `null`; or
  -- it is a POST whose secret was verified before the first job: then the worker takes jobs up to a bound
  -- between one and five, and the answer is their report, with status 200 when no job failed and 502 when
  -- one did.
  pub handle_consumer_request-IsGuarded :
      IsGuarded deps request s (handle_consumer_request deps request s)
  unfolding handle_consumer_request
  handle_consumer_request-IsGuarded = elim (Bool-cases (text_eq request.method (codes "POST"))) [
    | inr e ↦ rw e (refused-IsGuarded (inl e) (codes "METHOD_NOT_ALLOWED") 405)
    | inl posted ↦
        rw posted
          (elim (Bool-cases
            (not (nonempty request.supabase_url) || not (nonempty request.service_role_key))) [
              | inl e ↦ rw e (
                  refused-IsGuarded (inr (inl (ground arith))) (codes "CONSUMER_NOT_CONFIGURED")
                    503)
              | inr e ↦ rw e (candidate-IsGuarded posted)
            ])
  ]
