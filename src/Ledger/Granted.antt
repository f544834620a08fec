-- ===== src/Ledger/Granted.antt =====
-- What a grant rests on.
use oasis_supabase_core.Prelude.{
  ◌≡◌, refl, Bool, true, false, Option, none, some, [], ◌∷◌, Text, nonempty, Bool-cases, inl, inr,
}
use oasis_supabase_core.Ledger.{
  Caller, cron, user, LedgerAuthority, granted, denied, threw, Lookup, found, failed, rejected,
  UserLookup, user_of, user_rejected, AuthorityDeps, AuthorityRequest, cron_candidate, bearer_token,
  grant_if_true, authority_of_user, authority_of_token, resolve_financial_ledger_authority,
}

-- The cron job's secret was verified. A user's request has no secret, and its token is that of a user
-- whose role was looked up and is true.
abbrev pub IsEntitled : AuthorityDeps → AuthorityRequest → Caller → Type 0
IsEntitled deps request cron =
    (nonempty (cron_candidate request) ≡ true)
    × (deps.verify_cron_secret (cron_candidate request) ≡ found (some true))
IsEntitled deps request (user id) =
    (nonempty (cron_candidate request) ≡ false)
    × ((token : Text) × (bearer_token request.authorization ≡ some token)
        × (deps.get_user_id_from_token token ≡ user_of (some id) false)
        × (deps.is_financial_operator id ≡ found (some true)))

abbrev Rests : (Caller → Type 0) → LedgerAuthority → Type 0
Rests P (granted caller) = P caller
Rests P (denied status error) = Unit
Rests P (threw message) = Unit

grant-Rests :
    (P : Caller → Type 0) (caller : Caller) (l : Lookup)
    → (l ≡ found (some true) → P caller)
    → Rests P (grant_if_true caller l)
unfolding grant_if_true
grant-Rests P caller (failed message) h = tt
grant-Rests P caller (rejected message) h = tt
grant-Rests P caller (found (some true)) h = h refl
grant-Rests P caller (found (some false)) h = tt
grant-Rests P caller (found none) h = tt

module _ (deps : AuthorityDeps) (P : Caller → Type 0) where
  user-Rests :
      (l : UserLookup)
      → ((u : Text)
          → l ≡ user_of (some u) false
          → deps.is_financial_operator u ≡ found (some true)
          → P (user u))
      → Rests P (authority_of_user deps l)
  unfolding authority_of_user
  user-Rests (user_rejected message) h = tt
  user-Rests (user_of none invalid) h = tt
  user-Rests (user_of (some []) invalid) h = tt
  user-Rests (user_of (some (c ∷ id)) true) h = tt
  user-Rests (user_of (some (c ∷ id)) false) h =
      grant-Rests P (user (c ∷ id)) (deps.is_financial_operator (c ∷ id)) (λ e. h (c ∷ id) refl e)

  token-Rests :
      (key : Bool) (token : Option Text)
      → ((t u : Text)
          → token ≡ some t
          → deps.get_user_id_from_token t ≡ user_of (some u) false
          → deps.is_financial_operator u ≡ found (some true)
          → P (user u))
      → Rests P (authority_of_token deps key token)
  unfolding authority_of_token
  token-Rests key none h = tt
  token-Rests false (some token) h = tt
  token-Rests true (some token) h =
      user-Rests (deps.get_user_id_from_token token) (λ u known role. h token u refl known role)

resolve-Rests :
    (deps : AuthorityDeps) (request : AuthorityRequest) (key : Bool)
    → Rests (IsEntitled deps request) (resolve_financial_ledger_authority deps request key)
unfolding resolve_financial_ledger_authority
resolve-Rests deps request key = elim (Bool-cases (nonempty (cron_candidate request))) [
  | inl secret ↦ rw secret (
      grant-Rests (IsEntitled deps request) cron (deps.verify_cron_secret (cron_candidate request))
        (λ e. (secret, e)))
  | inr plain ↦ rw plain (
      token-Rests deps (IsEntitled deps request) key (bearer_token request.authorization)
        (λ t u token known role. (plain, (t, token, known, role))))
]

-- A ledger is granted to the cron job only when the secret of the request was verified, and to a user
-- only when the request has no secret, its bearer token is valid for that user and the user's finance
-- role was looked up and is true: a failed lookup, an absent answer and a false one grant nothing.
pub resolve_financial_ledger_authority-IsEntitled :
    (deps : AuthorityDeps) (request : AuthorityRequest) (public_key_available : Bool)
    (caller : Caller)
    → resolve_financial_ledger_authority deps request public_key_available ≡ granted caller
    → IsEntitled deps request caller
resolve_financial_ledger_authority-IsEntitled deps request key caller e =
    rw e at (resolve-Rests deps request key)
