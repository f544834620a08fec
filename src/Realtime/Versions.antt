-- ===== src/Realtime/Versions.antt =====
-- The order of row versions, of realtimeChannelContract.ts. `Date.parse` and `Number` are the
-- platform's: a date is in milliseconds, a number in multiples of the least positive double.
use oasis_supabase_core.Prelude.{
  ℕ, ◌+◌, ◌-◌, ◌*◌, ◌≡◌, refl, Bool, true, false, ◌&&◌, ◌||◌, Option, none, some, [], ◌∷◌, Text,
  text_eq, text_eq_iff, nonempty, all_units, is_digit, ltb, ◌==◌, if◌then◌else◌, arith,
}
use oasis_supabase_core.Prelude.Int.{ℤ, ltb_ℤ}

pub record Platform : Type 0 where
  pub date_parse : Text → Option ℤ
  pub number : Text → Option ℤ

-- The results -1, 0 and 1.
pub data Comparison : Type 0 where
  older same newer : Comparison

compare_ℕ : ℕ → ℕ → Comparison
compare_ℕ a b = if a == b then same else if ltb b a then newer else older

compare_ℤ : ℤ → ℤ → Comparison
compare_ℤ a b = if ltb_ℤ a b then older else if ltb_ℤ b a then newer else same

-- `>` on strings, by code units
text_gt : Text → Text → Bool
text_gt [] _ = false
text_gt (c ∷ s) [] = true
text_gt (c ∷ s) (d ∷ t) = ltb d c || (c == d && text_gt s t)

-- `BigInt` of a text of digits
decimal_value : ℕ → Text → ℕ
decimal_value acc [] = acc
decimal_value acc (c ∷ s) = decimal_value (acc * 10 + (c - b'0')) s

-- `/^\d+$/`
all_digits : Text → Bool
all_digits s = nonempty s && all_units is_digit s

-- `/^v(\d+)$/i`
version_digits : Text → Option Text
unfolding all_digits
version_digits [] = none
version_digits (c ∷ s) = if (c == b'v' || c == b'V') && all_digits s then some s else none

-- `Number` of digits, where `none` is `Infinity`
compare_numbers : Option ℤ → Option ℤ → Comparison
unfolding compare_ℤ
compare_numbers none none = same
compare_numbers none (some b) = newer
compare_numbers (some a) none = older
compare_numbers (some a) (some b) = compare_ℤ a b

-- `f` of both values where both are there, and else `later`
both_or {ℓ} : {A : Type ℓ} → Option A → Option A → (A → A → Comparison) → Comparison → Comparison
both_or (some a) (some b) f later = f a b
both_or (some a) none f later = later
both_or none _ f later = later

module _ (platform : Platform) where
  open platform use {date_parse, number}

  compare_texts : Text → Text → Comparison
  unfolding text_gt
  compare_texts left right =
      if text_eq left right then same else if text_gt left right then newer else older

  -- the formats after the digits
  compare_formats : Text → Text → Comparison
  unfolding compare_ℤ compare_texts version_digits compare_numbers both_or
  compare_formats left right = both_or (date_parse left) (date_parse right) compare_ℤ (
      both_or (number left) (number right) compare_ℤ (
        both_or (version_digits left) (version_digits right)
          (λ l r. compare_numbers (number l) (number r)) (compare_texts left right)))

  unfoldable pub compare_monotonic_versions : Text → Text → Comparison
  unfolding compare_ℕ decimal_value all_digits compare_formats
  compare_monotonic_versions left right =
      if all_digits left && all_digits right
      then compare_ℕ (decimal_value 0 left) (decimal_value 0 right)
      else compare_formats left right

abbrev pub opposite : Comparison → Comparison
opposite older = newer
opposite same = same
opposite newer = older

opposite-compare_ℕ : (a b : ℕ) → compare_ℕ a b ≡ opposite (compare_ℕ b a)
unfolding compare_ℕ
opposite-compare_ℕ a b = ground arith

opposite-compare_ℤ : (a b : ℤ) → compare_ℤ a b ≡ opposite (compare_ℤ b a)
unfolding compare_ℤ
opposite-compare_ℤ a b = ground arith

opposite-compare_numbers : (a b : Option ℤ) → compare_numbers a b ≡ opposite (compare_numbers b a)
unfolding compare_numbers
opposite-compare_numbers none none = refl
opposite-compare_numbers none (some b) = refl
opposite-compare_numbers (some a) none = refl
opposite-compare_numbers (some a) (some b) = opposite-compare_ℤ a b

text_gt_antisym :
    (s t : Text) → text_eq s t ≡ false → text_gt s t ≡ (if text_gt t s then false else true)
unfolding text_gt text_eq
text_gt_antisym [] [] h = cc
text_gt_antisym [] (d ∷ t) h = refl
text_gt_antisym (c ∷ s) [] h = refl
text_gt_antisym (c ∷ s) (d ∷ t) h = ground (arith, text_gt_antisym s t)

text_eq_comm : (s t : Text) → text_eq s t ≡ text_eq t s
text_eq_comm s t = ground (arith, text_eq_iff s t, text_eq_iff t s)

opposite-both_or {ℓ} :
    {A : Type ℓ} (a b : Option A) (f : A → A → Comparison) (x y : Comparison)
    → ((u v : A) → f u v ≡ opposite (f v u))
    → x ≡ opposite y
    → both_or a b f x ≡ opposite (both_or b a f y)
unfolding both_or
opposite-both_or (some a) (some b) f x y h e = h a b
opposite-both_or (some a) none f x y h e = e
opposite-both_or none (some b) f x y h e = e
opposite-both_or none none f x y h e = e

module _ (platform : Platform) where
  opposite-compare_texts :
      (l r : Text) → compare_texts platform l r ≡ opposite (compare_texts platform r l)
  unfolding compare_texts
  opposite-compare_texts l r =
      ground (arith, text_eq_comm l r, text_gt_antisym l r, text_gt_antisym r l)

  opposite-compare_formats :
      (l r : Text) → compare_formats platform l r ≡ opposite (compare_formats platform r l)
  unfolding compare_formats
  opposite-compare_formats l r =
      opposite-both_or (platform.date_parse l) (platform.date_parse r) compare_ℤ _ _
        opposite-compare_ℤ
        (opposite-both_or (platform.number l) (platform.number r) compare_ℤ _ _ opposite-compare_ℤ (
          opposite-both_or (version_digits l) (version_digits r)
            (λ u v. compare_numbers (platform.number u) (platform.number v)) _ _
            (λ u v. opposite-compare_numbers (platform.number u) (platform.number v))
            (opposite-compare_texts l r)))

  -- Swapping the versions turns the comparison round, whatever their formats and whatever the
  -- platform reads them as: older against newer, and the same stays the same.
  pub compare_monotonic_versions_antisym :
      (l r : Text)
      → compare_monotonic_versions platform l r ≡ opposite (compare_monotonic_versions platform r l)
  unfolding compare_monotonic_versions
  compare_monotonic_versions_antisym l r = ground (
    arith,
    opposite-compare_ℕ (decimal_value 0 l) (decimal_value 0 r),
    opposite-compare_formats l r,
  )
