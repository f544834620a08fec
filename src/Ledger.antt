-- ===== src/Ledger.antt =====
-- supabase/functions/_shared/financialLedgerAuthority.ts: who may generate a financial ledger. The
-- lookups of the secret, the user and the role are parameters.
pub mod Granted
mod Tests
use oasis_supabase_core.Prelude.{
  ℕ, Bool, true, false, ◌||◌, not, Option, none, some, List, [], ◌∷◌, Text, codes, nonempty, trim,
  starts_with, drop, if◌then◌else◌,
}

pub data Caller : Type 0 where
  cron : Caller
  user : Text → Caller

-- the answer, or the rejection of a lookup, which is not caught
pub data LedgerAuthority : Type 0 where
  granted : Caller → LedgerAuthority
  denied : ℕ → Text → LedgerAuthority
  threw : Text → LedgerAuthority

-- a lookup's `{ data, error }`
pub data Lookup : Type 0 where
  found : Option Bool → Lookup
  failed : Text → Lookup
  rejected : Text → Lookup

-- a user's id and whether the token is invalid
pub data UserLookup : Type 0 where
  user_of : Option Text → Bool → UserLookup
  user_rejected : Text → UserLookup

pub record AuthorityDeps : Type 0 where
  pub verify_cron_secret : Text → Lookup
  pub get_user_id_from_token : Text → UserLookup
  pub is_financial_operator : Text → Lookup

-- the two headers that are read
pub record AuthorityRequest : Type 0 where
  pub authorization : Option Text
  pub cron_secret : Option Text

text_or_empty : Option Text → Text
text_or_empty none = []
text_or_empty (some s) = s

some_nonempty : Text → Option Text
some_nonempty [] = none
some_nonempty (c ∷ s) = some (c ∷ s)

-- `headers.get("x-oasis-cron-secret")?.trim() ?? ""`
unfoldable pub cron_candidate : AuthorityRequest → Text
unfolding text_or_empty
cron_candidate request = trim (text_or_empty request.cron_secret)

unfoldable pub bearer_token : Option Text → Option Text
unfolding text_or_empty some_nonempty
bearer_token authorization =
    let value = text_or_empty authorization in
    if starts_with value (codes "Bearer ") then some_nonempty (trim (drop 7 value)) else none

abbrev pub unavailable : LedgerAuthority
unavailable = denied 500 (codes "authority_unavailable")

abbrev pub forbidden : LedgerAuthority
forbidden = denied 403 (codes "forbidden")

abbrev pub unauthorized : LedgerAuthority
unauthorized = denied 401 (codes "unauthorized")

-- granted on true alone
unfoldable pub grant_if_true : Caller → Lookup → LedgerAuthority
grant_if_true caller (failed message) = unavailable
grant_if_true caller (rejected message) = threw message
grant_if_true caller (found (some true)) = granted caller
grant_if_true caller (found (some false)) = forbidden
grant_if_true caller (found none) = forbidden

module _ (deps : AuthorityDeps) where
  -- the user of a valid token, with the role
  unfoldable pub authority_of_user : UserLookup → LedgerAuthority
  authority_of_user (user_rejected message) = threw message
  authority_of_user (user_of none invalid) = unauthorized
  authority_of_user (user_of (some []) invalid) = unauthorized
  authority_of_user (user_of (some (c ∷ id)) true) = unauthorized
  authority_of_user (user_of (some (c ∷ id)) false) =
      grant_if_true (user (c ∷ id)) (deps.is_financial_operator (c ∷ id))

  unfoldable pub authority_of_token : Bool → Option Text → LedgerAuthority
  authority_of_token public_key_available none = unauthorized
  authority_of_token false (some token) = unavailable
  authority_of_token true (some token) = authority_of_user (deps.get_user_id_from_token token)

  unfoldable pub resolve_financial_ledger_authority : AuthorityRequest → Bool → LedgerAuthority
  resolve_financial_ledger_authority request public_key_available =
      let candidate = cron_candidate request in
      if nonempty candidate
      then grant_if_true cron (deps.verify_cron_secret candidate)
      else authority_of_token public_key_available (bearer_token request.authorization)
