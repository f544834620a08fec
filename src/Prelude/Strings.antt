-- ===== src/Prelude/Strings.antt =====
-- JavaScript strings as lists of UTF-16 code units, with the library methods that the source calls.
-- A literal is written `codes "…"`; the source's literals are ASCII, so its characters are its units.
use Prim.Native.Char.{code}
use Prim.Native.String.{String}
use Prim.Native.Nat.{ℕ, zero, suc, ◌+◌, ◌-◌, ◌/◌, ◌%◌}
use mathlib.Core.Path.{◌≡◌, refl}
use mathlib.Core.Logic.{◌↔◌}
use mathlib.Core.Bool.{Bool, true, false, ◌&&◌, ◌||◌}
use mathlib.Core.List.{List, [], ◌∷◌, ◌++◌, map, reverse}
use native.Mathlib.Omega.{arith}
use oasis_supabase_core.Prelude.Tests.{ltb, leb, ◌==◌, if◌then◌else◌}

abbrev pub Text : Type 0
Text = List ℕ

unfoldable pub codes : String → Text
codes String.[] = []
codes (String.◌∷◌ c s) = code c ∷ codes s

-- `===` on strings.
unfoldable pub text_eq : Text → Text → Bool
text_eq [] [] = true
text_eq [] (d ∷ t) = false
text_eq (c ∷ s) [] = false
text_eq (c ∷ s) (d ∷ t) = c == d && text_eq s t

pub text_eq_refl : (s : Text) → text_eq s s ≡ true
unfolding text_eq
text_eq_refl [] = refl
text_eq_refl (c ∷ s) = ground (arith, text_eq_refl s)

text_eq_sound : (s t : Text) → text_eq s t ≡ true → s ≡ t
unfolding text_eq
text_eq_sound [] [] h = refl
text_eq_sound [] (d ∷ t) h = cc
text_eq_sound (c ∷ s) [] h = cc
text_eq_sound (c ∷ s) (d ∷ t) h = ground (arith, text_eq_sound s t)

pub text_eq_iff : (s t : Text) → (text_eq s t ≡ true) ↔ (s ≡ t)
text_eq_iff s t = (text_eq_sound s t, λ e. rw e (text_eq_refl t))

-- Truthiness of a string: it is not empty.
abbrev pub nonempty : Text → Bool
nonempty [] = false
nonempty (c ∷ s) = true

abbrev pub list_contains : List Text → Text → Bool
list_contains [] s = false
list_contains (t ∷ ts) s = text_eq t s || list_contains ts s

-- the distinct values, in the order of their first appearance
unfoldable pub distinct : List Text → List Text → List Text
distinct seen [] = []
distinct seen (x ∷ xs) =
    let skipped = distinct seen xs in
    let kept = x ∷ distinct (x ∷ seen) xs in if list_contains seen x then skipped else kept

-- White space and line terminators, as `String.prototype.trim` strips them.
unfoldable pub is_space : ℕ → Bool
is_space c =
    (leb 9 c && leb c 13)
    || c == 32
    || c == 0xa0
    || c == 0x1680
    || (leb 0x2000 c && leb c 0x200a)
    || c == 0x2028
    || c == 0x2029
    || c == 0x202f
    || c == 0x205f
    || c == 0x3000
    || c == 0xfeff

unfoldable pub trim_start : Text → Text
unfolding is_space
trim_start [] = []
trim_start (c ∷ s) = let rest = trim_start s in if is_space c then rest else c ∷ s

unfoldable pub trim : Text → Text
unfolding trim_start
trim s = reverse (trim_start (reverse (trim_start s)))

-- `toLowerCase` on a unit: ASCII letters, and the one further unit (the Kelvin sign) whose lower case
-- is ASCII. Every other unit is kept, so the result equals an ASCII word exactly when the source's does.
unfoldable pub lower_unit : ℕ → ℕ
lower_unit c = if leb b'A' c && leb c b'Z' then c + 32 else if c == 0x212a then b'k' else c

unfoldable pub to_lower : Text → Text
unfolding lower_unit
to_lower = map lower_unit

-- `toUpperCase` on a unit: ASCII letters, and the ten further units whose upper case is all ASCII.
-- Every other unit is kept, so the result equals an ASCII word exactly when the source's does.
unfoldable pub upper_unit : ℕ → Text
upper_unit c =
    if leb b'a' c && leb c b'z'
    then (c - 32) ∷ []
    else if c == 0xdf
    then b'S' ∷ b'S' ∷ []
    else if c == 0x131
    then b'I' ∷ []
    else if c == 0x17f
    then b'S' ∷ []
    else if c == 0xfb00
    then b'F' ∷ b'F' ∷ []
    else if c == 0xfb01
    then b'F' ∷ b'I' ∷ []
    else if c == 0xfb02
    then b'F' ∷ b'L' ∷ []
    else if c == 0xfb03
    then b'F' ∷ b'F' ∷ b'I' ∷ []
    else if c == 0xfb04
    then b'F' ∷ b'F' ∷ b'L' ∷ []
    else if c == 0xfb05 || c == 0xfb06
    then b'S' ∷ b'T' ∷ []
    else c ∷ []

unfoldable pub to_upper : Text → Text
unfolding upper_unit
to_upper [] = []
to_upper (c ∷ s) = upper_unit c ++ to_upper s

unfoldable pub starts_with : Text → Text → Bool
starts_with s [] = true
starts_with [] (d ∷ p) = false
starts_with (c ∷ s) (d ∷ p) = c == d && starts_with s p

abbrev pub all_units : (ℕ → Bool) → Text → Bool
all_units p [] = true
all_units p (c ∷ s) = p c && all_units p s

abbrev pub keep_units : (ℕ → Bool) → Text → Text
keep_units p [] = []
keep_units p (c ∷ s) = if p c then c ∷ keep_units p s else keep_units p s

abbrev pub is_digit : ℕ → Bool
is_digit c = leb b'0' c && leb c b'9'

pub all_units-keep_units : (p : ℕ → Bool) (s : Text) → all_units p (keep_units p s) ≡ true
all_units-keep_units p [] = refl
all_units-keep_units p (c ∷ s) = ground (arith, all_units-keep_units p s)

-- The decimal text of a number, by fuel that exceeds it.
decimal_from : ℕ → ℕ → Text → Text
decimal_from zero n rest = rest
decimal_from (suc fuel) n rest =
    let more = decimal_from fuel (n / 10) ((b'0' + n % 10) ∷ rest) in
    if ltb n 10 then (b'0' + n) ∷ rest else more

unfoldable pub decimal : ℕ → Text
unfolding decimal_from
decimal n = decimal_from (suc n) n []

decimal_test : decimal 9047 ≡ codes "9047"
unfolding decimal codes
decimal_test = refl

trim_test : to_lower (trim (codes "  Read\t")) ≡ codes "read"
unfolding to_lower trim codes
trim_test = refl
