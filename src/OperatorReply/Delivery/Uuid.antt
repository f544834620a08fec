-- ===== src/OperatorReply/Delivery/Uuid.antt =====
-- The shape of the identifier of an unmatched status event.
use oasis_supabase_core.Prelude.{
  ℕ, ◌+◌, ◌%◌, ◌/◌, ◌≤◌, ◌≡◌, refl, ap, ◌⊎◌, some, List, ◌∷◌, get_elem?, length, arith,
}
use oasis_supabase_core.OperatorReply.Delivery.{uuid_of_digest, hex_digit}

abbrev pub IsVariant : ℕ → Type 0
IsVariant c = (c ≡ b'8') ⊎ (c ≡ b'9') ⊎ (c ≡ b'a') ⊎ (c ≡ b'b')

hex_digit-IsVariant : (b : ℕ) → IsVariant (hex_digit ((b % 64 + 128) / 16))
unfolding hex_digit
hex_digit-IsVariant b = ground arith

hex_digit_version : (b : ℕ) → hex_digit ((b % 16 + 128) / 16) ≡ b'8'
unfolding hex_digit
hex_digit_version b = ground arith

-- The identifier of an unmatched event is a UUID of version 8 and of the standard variant, whatever
-- digest of 16 bytes or more it is made from: 36 units, with dashes at 8, 13, 18 and 23, an `8` at 14,
-- and one of `8`, `9`, `a` and `b` at 19.
pub uuid_of_digest_shape :
    (digest : List ℕ)
    → 16 ≤ length digest
    → let id = uuid_of_digest digest in
      (length id ≡ 36)
      × (get_elem? id 8 ≡ some b'-')
      × (get_elem? id 13 ≡ some b'-')
      × (get_elem? id 18 ≡ some b'-')
      × (get_elem? id 23 ≡ some b'-')
      × (get_elem? id 14 ≡ some b'8')
      × ((c : ℕ) × (get_elem? id 19 ≡ some c) × IsVariant c)
unfolding uuid_of_digest
uuid_of_digest_shape
      (b0 ∷ b1 ∷ b2 ∷ b3 ∷ b4 ∷ b5 ∷ b6 ∷ b7 ∷ b8 ∷ b9 ∷ b10 ∷ b11 ∷ b12 ∷ b13 ∷ b14 ∷ b15 ∷ rest)
      h =
    (
      refl,
      refl,
      refl,
      refl,
      refl,
      ap some (hex_digit_version b6),
      (_, refl, hex_digit-IsVariant b8),
    )
uuid_of_digest_shape _ h = absurd (omega arith)
