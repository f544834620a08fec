-- ===== src/Webhook/Security/Tests.antt =====
-- A forged and a true signature, under a platform whose HMAC is a constant.
use oasis_supabase_core.Webhook.Security.{hex_value}
use oasis_supabase_core.Webhook.Security.{compare_signature}
use oasis_supabase_core.Webhook.Security.{push_byte}
use oasis_supabase_core.Webhook.Security.{hex_pairs}
use oasis_supabase_core.Webhook.Security.{is_hex}
use oasis_supabase_core.Webhook.Security.{check_bytes}
use oasis_supabase_core.Prelude.{
  ◌≡◌, refl, ◌↔◌, ℕ, List, [], ◌∷◌, ◌++◌, some, codes, Text, true, starts_with, drop, All, arith,
}
use oasis_supabase_core.Webhook.Security.{
  Platform, verified, refused, timing_safe_equal, hex_to_bytes, verify_meta_signature,
  verify_challenge_token,
}
use oasis_supabase_core.Webhook.Security.Signature.{verify_meta_signature_iff, IsHmac, IsByte}

abbrev eight_bytes : List ℕ
eight_bytes = 0 ∷ 16 ∷ 171 ∷ 255 ∷ 1 ∷ 2 ∷ 3 ∷ 4 ∷ []

abbrev mac : List ℕ
mac = eight_bytes ++ eight_bytes ++ eight_bytes ++ eight_bytes

abbrev eight_digits : Text
eight_digits = codes "0010ABff01020304"

abbrev header : Text
header = codes "sha256=" ++ eight_digits ++ eight_digits ++ eight_digits ++ eight_digits

abbrev test_platform : Platform
test_platform = record { encode = λ s. s; hmac_sha256 = λ key body. mac }

mac-IsByte : All IsByte mac
mac-IsByte = omega arith

test_platform-IsHmac : IsHmac test_platform
test_platform-IsHmac = record { bytes = λ key body. mac-IsByte; size = λ key body. refl }

accepts_test : verify_meta_signature test_platform [] (some header) (some (codes "s")) ≡ verified
unfolding verify_meta_signature starts_with codes check_bytes hex_to_bytes is_hex hex_pairs
    push_byte compare_signature timing_safe_equal hex_value
accepts_test = refl

malformed_test :
    verify_meta_signature test_platform [] (some (codes "sha256=0g")) (some (codes "s"))
    ≡ refused 401 (codes "signature_malformed")
unfolding verify_meta_signature starts_with codes check_bytes hex_to_bytes is_hex
malformed_test = refl

challenge_test :
    verify_challenge_token test_platform (some (codes "a")) (some (codes "b"))
    ≡ refused 403 (codes "verify_token_invalid")
unfolding verify_challenge_token codes timing_safe_equal
challenge_test = refl

verify_meta_signature_iff_example :
    (verify_meta_signature test_platform [] (some header) (some (115 ∷ [])) ≡ verified)
    ↔ ((starts_with header (codes "sha256=") ≡ true) × (hex_to_bytes (drop 7 header) ≡ some mac))
verify_meta_signature_iff_example =
    verify_meta_signature_iff test_platform test_platform-IsHmac [] header 115 []
