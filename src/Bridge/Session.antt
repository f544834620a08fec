-- ===== src/Bridge/Session.antt =====
-- supabase/functions/_shared/msg91SessionBridge.ts: the call of the legacy function and the session that
-- is resolved from its answer.
pub mod Vouched
use oasis_supabase_core.Prelude.{
  Bool, true, false, ◌&&◌, ◌||◌, not, Option, none, some, Text, codes, text_eq, nonempty, ◌++◌,
  if◌then◌else◌, [], ◌∷◌,
}
use oasis_supabase_core.Prelude.Json.{Json, null, get, as_text, is_true}
use oasis_supabase_core.Prelude.Exec.{Exec, Result, ok, thrown, ◌>>=◌, pure}
use oasis_supabase_core.Bridge.{
  BridgeResult, success, failure, Classified, refused, identified, classify_verified_payload,
  HttpResponse, LegacyVerifyTransport, FetchRequest, BridgeDeps, build_upstream_verify_payload,
  text_or_empty, is_text, upstream_verify_payload,
}

-- `response.json().catch(() => null)`
json_or_null : Option Json → Json
json_or_null none = null
json_or_null (some v) = v

transport_of : Result HttpResponse → Option LegacyVerifyTransport
unfolding json_or_null
transport_of (thrown e) = none
transport_of (ok r) =
    some (record { status = r.status; is_ok = r.is_ok; payload = json_or_null r.json })

unfoldable pub payload_if_ok : Option LegacyVerifyTransport → Json
payload_if_ok none = null
payload_if_ok (some t) = if t.is_ok then t.payload else null

-- the one answer that recovery is allowed for
unfoldable pub is_missing_identity : Option LegacyVerifyTransport → Bool
unfolding is_text
is_missing_identity none = false
is_missing_identity (some t) =
    not t.is_ok
    && is_text (as_text (get (codes "error") t.payload))
        (codes "phone_linked_to_missing_auth_identity")

-- `!verified`: null, undefined, and the falsy scalars
unfoldable pub is_falsy : Json → Bool
is_falsy Json.undefined = true
is_falsy null = true
is_falsy (Json.boolean b) = not b
is_falsy (Json.string s) = not (nonempty s)
is_falsy (Json.number n) = text_eq n (codes "0") || text_eq n (codes "NaN")
is_falsy _ = false

pub data Reconciled : Type 0 where
  denied : Reconciled
  proceed : Json → Reconciled

unfoldable pub after_recovery : Json → Reconciled
unfolding is_falsy
after_recovery verified = if is_falsy verified then denied else proceed verified

unfoldable pub sanitize_bridge_success : Text → Text → Json → Text → BridgeResult
sanitize_bridge_success user_id phone verified token_hash =
    success user_id phone (is_true (get (codes "is_new") verified)) token_hash

unfoldable pub after_mint : Text → Text → Json → Option Text → BridgeResult
unfolding sanitize_bridge_success
after_mint user_id phone verified none = failure (codes "session_token_mint_failed")
after_mint user_id phone verified (some []) = failure (codes "session_token_mint_failed")
after_mint user_id phone verified (some (c ∷ cs)) =
    sanitize_bridge_success user_id phone verified (c ∷ cs)

module _ {S : Type 0} (deps : BridgeDeps S) where
  unfoldable pub verify_through_legacy_msg91_detailed : Text → Exec S (Option LegacyVerifyTransport)
  unfolding transport_of
  verify_through_legacy_msg91_detailed token s =
      if not (nonempty deps.supabase_url) || not (nonempty deps.service_role_key)
      then (ok none, s)
      else let (r, s') =
          deps.fetch
            (record {
              url = deps.supabase_url ++ codes "/functions/v1/msg91-otp";
              authorization = codes "Bearer " ++ deps.service_role_key;
              apikey = deps.service_role_key;
              body = deps.stringify (upstream_verify_payload token);
            })
            s in
        (ok (transport_of r), s')

  unfoldable pub verify_through_legacy_msg91 : Text → Exec S Json
  unfolding verify_through_legacy_msg91_detailed payload_if_ok
  verify_through_legacy_msg91 token =
      verify_through_legacy_msg91_detailed token >>= λ t. pure (payload_if_ok t)

  unfoldable pub recover : Option (Text → Exec S Json) → Text → Exec S Reconciled
  unfolding after_recovery
  recover none token = pure denied
  recover (some f) token = f token >>= λ v. pure (after_recovery v)

  unfoldable pub reconcile : Text → Option LegacyVerifyTransport → Exec S Reconciled
  unfolding is_missing_identity payload_if_ok recover
  reconcile token upstream =
      if is_missing_identity upstream
      then recover deps.recover_legacy_placeholder token
      else pure (proceed (payload_if_ok upstream))

  -- the token of the payload, or one minted for its email
  unfoldable pub token_or_mint : Text → Text → Text → Json → Text → Exec S BridgeResult
  unfolding after_mint sanitize_bridge_success
  token_or_mint user_id email phone verified (c ∷ cs) =
      pure (sanitize_bridge_success user_id phone verified (c ∷ cs))
  token_or_mint user_id email phone verified [] =
      deps.mint_token_hash email >>= λ t. pure (after_mint user_id phone verified t)

  unfoldable pub mint_session : Json → Classified → Exec S BridgeResult
  unfolding token_or_mint text_or_empty
  mint_session verified (refused code) = pure (failure code)
  mint_session verified (identified user_id email phone) =
      token_or_mint user_id email phone verified
        (text_or_empty (as_text (get (codes "token_hash") verified)))

  unfoldable pub finish : Reconciled → Exec S BridgeResult
  unfolding mint_session
  finish denied = pure (failure (codes "identity_reconciliation_failed"))
  finish (proceed verified) = mint_session verified (classify_verified_payload verified)

  unfoldable pub resolve_bridge_session : Text → Exec S BridgeResult
  unfolding verify_through_legacy_msg91_detailed reconcile finish
  resolve_bridge_session token = verify_through_legacy_msg91_detailed token >>= λ upstream.
      reconcile token upstream >>= λ r. finish r
