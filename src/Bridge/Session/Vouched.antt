-- ===== src/Bridge/Session/Vouched.antt =====
-- What a session that the bridge grants rests on.
use oasis_supabase_core.Prelude.{◌≡◌, true, Option, some, Text, codes, ◌⊎◌, false}
use oasis_supabase_core.Prelude.Json.{Json, get, as_text, is_true}
use oasis_supabase_core.Prelude.Exec.{Exec, ok}
use oasis_supabase_core.Bridge.{LegacyVerifyTransport, BridgeDeps}
use oasis_supabase_core.Bridge.Session.{payload_if_ok, is_missing_identity}

-- A payload that says that it verified this user and phone.
pub record IsVouched (v : Json) (user_id phone : Text) : Type 0 where
  pub is_ok : is_true (get (codes "ok") v) ≡ true
  pub is_success : as_text (get (codes "type") v) ≡ some (codes "success")
  pub user : as_text (get (codes "user_id") v) ≡ some user_id
  pub number : as_text (get (codes "phone") v) ≡ some phone

module _ {S : Type 0} (deps : BridgeDeps S) where
  -- Where the payload of a grant comes from, after the answer of the legacy function in this store: it is
  -- what the recovery answers, when the identity is missing, and else the body of a 2xx answer.
  abbrev pub IsSource : Text → Option LegacyVerifyTransport → S → Json → Type 0
  IsSource token upstream s v =
      ((is_missing_identity upstream ≡ true)
        × ((recovery : Text → Exec S Json) × (deps.recover_legacy_placeholder ≡ some recovery)
            × ((recovery token s).0 ≡ ok v)))
      ⊎ ((is_missing_identity upstream ≡ false) × (v ≡ payload_if_ok upstream))
