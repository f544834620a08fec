-- ===== src/Bridge.antt =====
-- supabase/functions/_shared/msg91SessionBridge.ts: the session bridge for verified phones. `fetch`,
-- `JSON.stringify`, `JSON.parse`, `decodeURIComponent`, minting and recovery are parameters.
pub mod Identity
pub mod Session
mod Tests
use oasis_supabase_core.Prelude.{
  ℕ, ◌-◌, Bool, true, false, ◌&&◌, ◌||◌, not, Option, none, some, List, [], ◌∷◌, ◌++◌, Text, codes,
  text_eq, nonempty, trim, starts_with, keep_units, is_digit, list_contains, length, drop, leb,
  ◌==◌, if◌then◌else◌,
}
use oasis_supabase_core.Prelude.Json.{
  Json, undefined, null, string, object, Fields, end, field, field_of, get, as_text, is_true,
}
use oasis_supabase_core.Prelude.Exec.{Exec, Result, ok, thrown, ◌>>=◌, pure}

pub data ValidatedRequest : Type 0 where
  invalid : Text → ValidatedRequest
  access_token : Text → ValidatedRequest

pub data BridgeResult : Type 0 where
  success : (user_id phone : Text) → (is_new : Bool) → (token_hash : Text) → BridgeResult
  failure : Text → BridgeResult

-- a body that is no object is read as `{}`
unfoldable pub parse_request_body : Json → Json
parse_request_body (object fs) = object fs
parse_request_body _ = object end

unfoldable pub text_or_empty : Option Text → Text
text_or_empty none = []
text_or_empty (some s) = s

unfoldable pub is_text : Option Text → Text → Bool
is_text none t = false
is_text (some s) t = text_eq s t

unfoldable pub validate_bridge_request : Json → ValidatedRequest
unfolding text_or_empty is_text
validate_bridge_request body =
    if not (is_text (as_text (get (codes "mode") body)) (codes "verify_widget"))
    then invalid (codes "unsupported_mode")
    else let token = trim (text_or_empty (as_text (get (codes "accessToken") body))) in
      if not (nonempty token) then invalid (codes "access_token_required") else access_token token

unfoldable pub upstream_verify_payload : Text → Json
upstream_verify_payload token = object (
    field (codes "mode") (string (codes "verify_widget"))
      (field (codes "accessToken") (string token) end))

has_field : Text → Fields → Bool
has_field key end = false
has_field key (field k v fs) = text_eq k key || has_field key fs

has_member : Text → Json → Bool
has_member key (object fs) = has_field key fs
has_member key _ = false

module _ (stringify : Json → Text) (parse : Text → Json) where
  unfoldable pub build_upstream_verify_payload : Text → Text
  build_upstream_verify_payload token = stringify (upstream_verify_payload token)

  unfoldable pub upstream_verify_payload_excludes_client_phone : Text → Bool
  unfolding has_member has_field
  upstream_verify_payload_excludes_client_phone payload =
      not (has_member (codes "phone") (parse payload))

unfoldable pub as_record : Json → Json
as_record (object fs) = object fs
as_record _ = undefined

first_string : List Json → Option Text
first_string [] = none
first_string (v ∷ vs) =
    let rest = first_string vs in
    let text = trim (text_or_empty (as_text v)) in if nonempty text then some text else rest

unfoldable pub extract_provider_verified_phone : Json → Option Text
unfolding first_string text_or_empty
extract_provider_verified_phone raw =
    let root = as_record raw in
    let message = as_record (get (codes "message") root) in
    let body = as_record (get (codes "data") root) in
    let user = as_record (get (codes "user") body) in
    first_string (
      get (codes "message") root
      ∷ get (codes "data") root
      ∷ get (codes "mobile") message
      ∷ get (codes "phone") message
      ∷ get (codes "identifier") message
      ∷ get (codes "number") message
      ∷ get (codes "mobile") body
      ∷ get (codes "phone") body
      ∷ get (codes "identifier") body
      ∷ get (codes "number") body
      ∷ get (codes "mobile") root
      ∷ get (codes "phone") root
      ∷ get (codes "identifier") root
      ∷ get (codes "number") root
      ∷ get (codes "mobile") user
      ∷ get (codes "phone") user
      ∷ [])

unfoldable pub normalize_indian_verified_phone : Option Text → Option Text
unfolding text_or_empty
normalize_indian_verified_phone raw =
    let digits = keep_units is_digit (text_or_empty raw) in
    if length digits == 10
    then some (codes "+91" ++ digits)
    else if length digits == 12 && starts_with digits (codes "91")
    then some (codes "+" ++ digits)
    else none

alias_of : Option Text → Option Text
alias_of none = none
alias_of (some normalized) = some (drop 1 normalized ++ codes "@phone.oasis.local")

unfoldable pub internal_phone_alias_email : Text → Option Text
unfolding alias_of
internal_phone_alias_email phone = alias_of (normalize_indian_verified_phone (some phone))

stars : ℕ → Text
stars ℕ.zero = []
stars (ℕ.suc n) = b'*' ∷ stars n

unfoldable pub mask_phone_for_logs : Text → Text
unfolding stars
mask_phone_for_logs phone =
    let digits = keep_units is_digit phone in
    if leb (length digits) 4
    then codes "****"
    else stars (length digits - 4) ++ drop (length digits - 4) digits

unfoldable pub allowed_response_keys : List Text
allowed_response_keys =
    codes "ok"
    ∷ codes "type"
    ∷ codes "user_id"
    ∷ codes "phone"
    ∷ codes "is_new"
    ∷ codes "token_hash"
    ∷ codes "error"
    ∷ []

unfoldable pub sanitize_bridge_response_body : Fields → Fields
sanitize_bridge_response_body end = end
sanitize_bridge_response_body (field k v fs) =
    let rest = sanitize_bridge_response_body fs in
    if list_contains allowed_response_keys k then field k v rest else rest

-- The identity in a verified payload, or the error.
pub data Classified : Type 0 where
  refused : Text → Classified
  identified : (user_id email phone : Text) → Classified

unfoldable pub require_identity : Text → Text → Text → Classified
require_identity user_id email phone =
    if nonempty user_id && nonempty email && nonempty phone
    then identified user_id email phone
    else refused (codes "verified_identity_unavailable")

unfoldable pub classify_verified_payload : Json → Classified
unfolding text_or_empty is_text require_identity
classify_verified_payload verified =
    if not (is_true (get (codes "ok") verified))
      || not (is_text (as_text (get (codes "type") verified)) (codes "success"))
    then refused (codes "provider_verification_failed")
    else require_identity (text_or_empty (as_text (get (codes "user_id") verified)))
        (text_or_empty (as_text (get (codes "email") verified)))
        (text_or_empty (as_text (get (codes "phone") verified)))

pub record HttpResponse : Type 0 where
  pub status : ℕ
  pub is_ok : Bool
  -- none when the body is no JSON
  pub json : Option Json

pub record LegacyVerifyTransport : Type 0 where
  pub status : ℕ
  pub is_ok : Bool
  pub payload : Json

-- A POST to the legacy function, with the two headers that carry the service key.
pub record FetchRequest : Type 0 where
  pub url : Text
  pub authorization : Text
  pub apikey : Text
  pub body : Text

pub record BridgeDeps (S : Type 0) : Type 0 where
  pub supabase_url : Text
  pub service_role_key : Text
  pub mint_token_hash : Text → Exec S (Option Text)
  pub recover_legacy_placeholder : Option (Text → Exec S Json)
  pub fetch : FetchRequest → Exec S HttpResponse
  pub stringify : Json → Text
