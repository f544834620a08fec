-- ===== src/Ledger/Tests.antt =====
-- A finance operator, another user and a cron job.
use oasis_supabase_core.Ledger.{cron_candidate}
use oasis_supabase_core.Ledger.{grant_if_true}
use oasis_supabase_core.Ledger.{authority_of_user}
use oasis_supabase_core.Prelude.{starts_with}
use oasis_supabase_core.Ledger.{bearer_token}
use oasis_supabase_core.Ledger.{authority_of_token}
use oasis_supabase_core.Prelude.{trim}
use oasis_supabase_core.Prelude.{
  ◌≡◌, refl, true, false, none, some, Text, codes, text_eq, if◌then◌else◌,
}
use oasis_supabase_core.Ledger.{
  user, cron, granted, forbidden, found, user_of, AuthorityDeps, AuthorityRequest,
  resolve_financial_ledger_authority,
}
use oasis_supabase_core.Ledger.Granted.{IsEntitled, resolve_financial_ledger_authority-IsEntitled}

abbrev deps : AuthorityDeps
deps = record {
  verify_cron_secret = λ s. found (some (text_eq s (codes "s")));
  get_user_id_from_token = λ t. user_of (some t) false;
  is_financial_operator = λ u. found (if text_eq u (codes "op") then some true else none);
}

abbrev by_token : Text → AuthorityRequest
by_token header = record { authorization = some header; cron_secret = some (codes " ") }

operator_test :
    resolve_financial_ledger_authority deps (by_token (codes "Bearer op")) true
    ≡ granted (user (codes "op"))
unfolding resolve_financial_ledger_authority trim codes authority_of_token bearer_token starts_with
    authority_of_user grant_if_true text_eq cron_candidate
operator_test = refl

other_test : resolve_financial_ledger_authority deps (by_token (codes "Bearer u")) true ≡ forbidden
unfolding resolve_financial_ledger_authority trim codes authority_of_token bearer_token starts_with
    authority_of_user grant_if_true text_eq cron_candidate
other_test = refl

cron_test :
    resolve_financial_ledger_authority deps
      (record { authorization = none; cron_secret = some (codes "s ") })
      false
    ≡ granted cron
unfolding resolve_financial_ledger_authority trim codes grant_if_true text_eq cron_candidate
cron_test = refl

resolve_financial_ledger_authority-IsEntitled_example :
    IsEntitled deps (by_token (codes "Bearer op")) (user (codes "op"))
resolve_financial_ledger_authority-IsEntitled_example =
    resolve_financial_ledger_authority-IsEntitled deps (by_token (codes "Bearer op")) true
      (user (codes "op")) operator_test
