-- ===== src/Webhook/Security/Signature.antt =====
-- The comparison of signatures, and what an accepted signature means.
use Prim.Native.Nat.{bit_or, bit_xor}
use mathlib.Core.Path.{ap₂}
use oasis_supabase_core.Prelude.{
  ℕ, zero, suc, ◌+◌, ◌<◌, ◌≡◌, ◌↔◌, refl, Bool, true, false, ◌&&◌, Option, none, some, List, [],
  ◌∷◌, Text, codes, starts_with, drop, length, nonempty, all_units, ◌*◌, ltb, ◌==◌, if◌then◌else◌,
  arith, All, Bool-cases, inl, inr,
}
use oasis_supabase_core.Webhook.Security.{
  Platform, verified, difference, timing_safe_equal, hex_to_bytes, check_bytes, compare_signature,
  verify_meta_signature, hex_pairs, is_hex, hex_value, push_byte,
}

-- A test passed by each number under a bound, the largest first.
every_under : (ℕ → Bool) → ℕ → Bool
every_under test zero = true
every_under test (suc top) = let others = every_under test top in if test top then others else false

every_under_at :
    (test : ℕ → Bool) (bound number : ℕ)
    → number < bound
    → every_under test bound ≡ true
    → test number ≡ true
unfolding every_under
every_under_at test zero number under passed = absurd (omega arith)
every_under_at test (suc top) number under passed = ground (arith, every_under_at test top number)

-- what the comparison needs of the bit operations on two bytes
abbrev bits_ok : ℕ → ℕ → Bool
bits_ok a b =
    ltb (bit_or a b) 256
    && ltb (bit_xor a b) 256
    && (if bit_or a b == 0 then a == 0 && b == 0 else true)
    && (if bit_xor a b == 0 then a == b else true)
    && (if a == b then bit_xor a b == 0 else true)

bits_table : every_under (λ a. every_under (bits_ok a) 256) 256 ≡ true
unfolding every_under
bits_table = refl

bits_of_bytes : (a b : ℕ) → a < 256 → b < 256 → bits_ok a b ≡ true
bits_of_bytes a b p q =
    every_under_at (bits_ok a) 256 b q
      (every_under_at (λ a'. every_under (bits_ok a') 256) 256 a p bits_table)

abbrev pub IsByte : ℕ → Type 0
IsByte b = b < 256

bits_facts :
    (a b : ℕ)
    → bits_ok a b ≡ true
    → (bit_or a b < 256)
      × (bit_xor a b < 256)
      × (bit_or a b ≡ 0 → (a ≡ 0) × (b ≡ 0))
      × (bit_xor a b ≡ 0 → a ≡ b)
      × (a ≡ b → bit_xor a b ≡ 0)
bits_facts a b h = (
  ground arith,
  ground arith,
  λ e. (ground arith, ground arith),
  λ e. ground arith,
  λ e. ground arith,
)

module _ (a b : ℕ) (p : a < 256) (q : b < 256) where
  or_small : bit_or a b < 256
  or_small = (bits_facts a b (bits_of_bytes a b p q)).0

  xor_small : bit_xor a b < 256
  xor_small = (bits_facts a b (bits_of_bytes a b p q)).1

  zero_of_or : bit_or a b ≡ 0 → (a ≡ 0) × (b ≡ 0)
  zero_of_or = (bits_facts a b (bits_of_bytes a b p q)).2

  eq_of_xor : bit_xor a b ≡ 0 → a ≡ b
  eq_of_xor = (bits_facts a b (bits_of_bytes a b p q)).3

  xor_of_eq : a ≡ b → bit_xor a b ≡ 0
  xor_of_eq = (bits_facts a b (bits_of_bytes a b p q)).4

difference_sound :
    (d : ℕ) (a b : List ℕ)
    → d < 256
    → All IsByte a
    → All IsByte b
    → length a ≡ length b
    → difference d a b ≡ 0
    → (d ≡ 0) × (a ≡ b)
unfolding difference
difference_sound d [] [] hd ha hb l e = (e, refl)
difference_sound d [] (y ∷ ys) hd ha hb l e = absurd (omega arith)
difference_sound d (x ∷ xs) [] hd ha hb l e = absurd (omega arith)
difference_sound d (x ∷ xs) (y ∷ ys) hd (hx, ha) (hy, hb) l e =
    let small = xor_small x y hx hy in
    let (zero_or, same) =
      difference_sound (bit_or d (bit_xor x y)) xs ys (or_small d (bit_xor x y) hd small) ha hb
        (omega arith) e in
    let (d_zero, zero_xor) = zero_of_or d (bit_xor x y) hd small zero_or in
    (d_zero, ap₂ ◌∷◌ (eq_of_xor x y hx hy zero_xor) same)

difference_self : (a : List ℕ) → All IsByte a → difference 0 a a ≡ 0
unfolding difference
difference_self [] h = refl
difference_self (x ∷ xs) (hx, h) = rw (xor_of_eq x x hx hx refl) (difference_self xs h)

-- On bytes the comparison that takes the same time everywhere is equality.
pub timing_safe_equal_iff :
    (a b : List ℕ) → All IsByte a → All IsByte b → (timing_safe_equal a b ≡ true) ↔ (a ≡ b)
unfolding timing_safe_equal
timing_safe_equal_iff a b ha hb = (
  λ h. (difference_sound 0 a b (omega arith) ha hb (ground arith) (ground arith)).1,
  λ e. rw e (ground (arith, difference_self b hb)),
)

-- HMAC-SHA-256 gives 32 bytes.
pub record IsHmac (p : Platform) : Type 0 where
  pub bytes : (key body : List ℕ) → All IsByte (p.hmac_sha256 key body)
  pub size : (key body : List ℕ) → length (p.hmac_sha256 key body) ≡ 32

hex_value-lt : (c : ℕ) → is_hex c ≡ true → hex_value c < 16
unfolding hex_value is_hex
hex_value-lt c h = ground arith

abbrev AreBytes : Option (List ℕ) → Type 0
AreBytes none = Unit
AreBytes (some bs) = All IsByte bs

push-AreBytes : (b : ℕ) (o : Option (List ℕ)) → b < 256 → AreBytes o → AreBytes (push_byte b o)
unfolding push_byte
push-AreBytes b none lt h = tt
push-AreBytes b (some bs) lt h = (lt, h)

hex_pairs-AreBytes : (s : Text) → all_units is_hex s ≡ true → AreBytes (hex_pairs s)
unfolding hex_pairs
hex_pairs-AreBytes [] d = tt
hex_pairs-AreBytes (c ∷ []) d = tt
hex_pairs-AreBytes (c ∷ e ∷ s) d =
    push-AreBytes (hex_value c * 16 + hex_value e) (hex_pairs s)
      (ground (arith, hex_value-lt c, hex_value-lt e)) (hex_pairs-AreBytes s (ground arith))

hex_to_bytes-AreBytes : (s : Text) → AreBytes (hex_to_bytes s)
unfolding hex_to_bytes
hex_to_bytes-AreBytes s = elim (Bool-cases (all_units is_hex s)) [
  | inl d ↦ elim (Bool-cases (nonempty s)) [
    | inl n ↦ rw (d, n) (hex_pairs-AreBytes s d)
    | inr n ↦ rw (d, n) tt
  ]
  | inr d ↦ elim (Bool-cases (nonempty s)) [ inl n ↦ rw (d, n) tt | inr n ↦ rw (d, n) tt ]
]

module _ (platform : Platform) (law : IsHmac platform) where
  check_bytes_iff :
      (body : List ℕ) (c : ℕ) (cs : Text) (o : Option (List ℕ))
      → AreBytes o
      → (check_bytes platform body (some (c ∷ cs)) o ≡ verified)
        ↔ (o ≡ some (platform.hmac_sha256 (platform.encode (c ∷ cs)) body))
  unfolding check_bytes compare_signature
  check_bytes_iff body c cs none h = (λ e. cc, λ e. cc)
  check_bytes_iff body c cs (some bs) h =
      let mac = platform.hmac_sha256 (platform.encode (c ∷ cs)) body in
      let (to, from) = timing_safe_equal_iff bs mac h (law.bytes (platform.encode (c ∷ cs)) body) in
      let size = law.size (platform.encode (c ∷ cs)) body in (λ e. ground arith, λ e. ground arith)

  -- With a configured secret a request is accepted exactly when its header is `sha256=` and then the
  -- hexadecimal digits, in either case, of the HMAC of its body under the secret, given that the
  -- platform's HMAC is 32 bytes.
  pub verify_meta_signature_iff :
      (body : List ℕ) (header : Text) (c : ℕ) (cs : Text)
      → (verify_meta_signature platform body (some header) (some (c ∷ cs)) ≡ verified) ↔ (
          (starts_with header (codes "sha256=") ≡ true)
          × (hex_to_bytes (drop 7 header)
              ≡ some (platform.hmac_sha256 (platform.encode (c ∷ cs)) body)))
  unfolding verify_meta_signature
  verify_meta_signature_iff body header c cs =
      let (to, from) =
        check_bytes_iff body c cs (hex_to_bytes (drop 7 header))
          (hex_to_bytes-AreBytes (drop 7 header)) in
      (λ e. (ground arith, to (ground arith)), λ e. ground (arith, from e.1))
