-- ===== src/Webhook/Security.antt =====
-- supabase/functions/_shared/whatsappWebhookSecurity.ts. The text encoder and HMAC-SHA-256 are the
-- platform's.
pub mod Signature
mod Tests
use Prim.Native.Nat.{bit_or, bit_xor}
use oasis_supabase_core.Prelude.{
  ℕ, zero, suc, ◌+◌, ◌-◌, ◌*◌, Bool, true, false, ◌&&◌, ◌||◌, not, Option, none, some, List, [],
  ◌∷◌, Text, codes, nonempty, starts_with, drop, length, leb, is_digit, all_units, ◌==◌,
  if◌then◌else◌,
}

pub record Platform : Type 0 where
  pub encode : Text → List ℕ
  pub hmac_sha256 : List ℕ → List ℕ → List ℕ

pub data VerificationResult : Type 0 where
  verified : VerificationResult
  refused : ℕ → Text → VerificationResult

-- `diff |= a[i] ^ b[i]`
unfoldable pub difference : ℕ → List ℕ → List ℕ → ℕ
difference diff [] _ = diff
difference diff (a ∷ as') [] = diff
difference diff (a ∷ as') (b ∷ bs) = difference (bit_or diff (bit_xor a b)) as' bs

unfoldable pub timing_safe_equal : List ℕ → List ℕ → Bool
unfolding difference
timing_safe_equal a b = if not (length a == length b) then false else difference 0 a b == 0

is_lower_hex : ℕ → Bool
is_lower_hex c = leb b'a' c && leb c b'f'

is_upper_hex : ℕ → Bool
is_upper_hex c = leb b'A' c && leb c b'F'

unfoldable pub is_hex : ℕ → Bool
unfolding is_lower_hex is_upper_hex
is_hex c = is_digit c || is_lower_hex c || is_upper_hex c

unfoldable pub hex_value : ℕ → ℕ
unfolding is_lower_hex
hex_value c = if is_digit c then c - b'0' else if is_lower_hex c then c - 87 else c - 55

-- `out[i / 2] = …`
unfoldable pub push_byte : ℕ → Option (List ℕ) → Option (List ℕ)
push_byte b none = none
push_byte b (some bs) = some (b ∷ bs)

-- the pairs of digits, or none for an odd number of them
unfoldable pub hex_pairs : Text → Option (List ℕ)
hex_pairs [] = some []
hex_pairs (c ∷ []) = none
hex_pairs (c ∷ d ∷ s) = push_byte (hex_value c * 16 + hex_value d) (hex_pairs s)

unfoldable pub hex_to_bytes : Text → Option (List ℕ)
hex_to_bytes s = if not (nonempty s && all_units is_hex s) then none else hex_pairs s

module _ (platform : Platform) where
  open platform use {encode, hmac_sha256}

  unfoldable pub verify_challenge_token : Option Text → Option Text → VerificationResult
  verify_challenge_token candidate none = refused 500 (codes "verify_token_not_configured")
  verify_challenge_token candidate (some []) = refused 500 (codes "verify_token_not_configured")
  verify_challenge_token none (some (e ∷ es)) = refused 403 (codes "verify_token_missing")
  verify_challenge_token (some []) (some (e ∷ es)) = refused 403 (codes "verify_token_missing")
  verify_challenge_token (some (c ∷ cs)) (some (e ∷ es)) =
      if timing_safe_equal (encode (c ∷ cs)) (encode (e ∷ es))
      then verified
      else refused 403 (codes "verify_token_invalid")

  -- the secret is checked after the header
  unfoldable pub compare_signature : List ℕ → Option Text → List ℕ → VerificationResult
  compare_signature body none supplied = refused 500 (codes "app_secret_not_configured")
  compare_signature body (some []) supplied = refused 500 (codes "app_secret_not_configured")
  compare_signature body (some (c ∷ cs)) supplied =
      if timing_safe_equal supplied (hmac_sha256 (encode (c ∷ cs)) body)
      then verified
      else refused 401 (codes "signature_invalid")

  unfoldable pub check_bytes : List ℕ → Option Text → Option (List ℕ) → VerificationResult
  check_bytes body secret none = refused 401 (codes "signature_malformed")
  check_bytes body secret (some supplied) =
      if not (length supplied == 32)
      then refused 401 (codes "signature_malformed")
      else compare_signature body secret supplied

  unfoldable pub verify_meta_signature : List ℕ → Option Text → Option Text → VerificationResult
  verify_meta_signature body none secret = refused 401 (codes "signature_missing")
  verify_meta_signature body (some header) secret =
      if not (starts_with header (codes "sha256="))
      then refused 401 (codes "signature_missing")
      else check_bytes body secret (hex_to_bytes (drop 7 header))
