-- ===== src/Common/Text.antt =====
-- Rust's `&str` and `&[u8]` as lists of bytes, and the ASCII operations of the standard library that
-- the code calls.
use Prim.Native.Char.{code}
use Prim.Native.String.{String}
use Prim.Native.Nat.{ℕ, ◌+◌, ◌-◌, ◌/◌, ◌%◌, ◌<◌}
use mathlib.Core.Path.{◌≡◌, refl}
use mathlib.Core.Logic.{◌↔◌, ◌≢◌, inl, inr}
use mathlib.Core.Bool.{Bool, true, false, ◌&&◌, ◌||◌}
use mathlib.Core.Option.{Option, none, some}
use mathlib.Core.List.{List, [], ◌∷◌, map}
use mathlib.Core.HLevel.{hedberg}
use native.Mathlib.Decide.{ℕ_discrete}
use native.Mathlib.Omega.{arith}
use pccs_rs.Common.Tests.{ltb, leb, ◌==◌, if◌then◌else◌, Option-cases}

abbrev pub Text : Type 0
Text = List ℕ

-- The bytes of an ASCII literal.
abbrev pub codes : String → Text
codes String.[] = []
codes (String.◌∷◌ c s) = code c ∷ codes s

abbrev pub text_eq : Text → Text → Bool
text_eq [] [] = true
text_eq [] (_ ∷ _) = false
text_eq (_ ∷ _) [] = false
text_eq (a ∷ s) (b ∷ t) = (a == b) && text_eq s t

pub text_eq_iff : (s t : Text) → (text_eq s t ≡ true) ↔ (s ≡ t)
text_eq_iff [] [] = ((λ _. refl), (λ _. refl))
text_eq_iff [] (b ∷ t) = ground arith
text_eq_iff (a ∷ s) [] = ground arith
text_eq_iff (a ∷ s) (b ∷ t) = ground (arith, text_eq_iff s t)

unfoldable pub is_ascii_digit : ℕ → Bool
is_ascii_digit b = leb b'0' b && leb b b'9'

unfoldable pub is_ascii_hexdigit : ℕ → Bool
is_ascii_hexdigit b =
    leb b'0' b && leb b b'9' || (leb b'a' b && leb b b'f' || leb b'A' b && leb b b'F')

unfoldable pub to_upper : ℕ → ℕ
to_upper b = if leb b'a' b && leb b b'z' then b - 32 else b

unfoldable pub to_lower : ℕ → ℕ
to_lower b = if leb b'A' b && leb b b'Z' then b + 32 else b

abbrev pub to_ascii_uppercase : Text → Text
to_ascii_uppercase = map to_upper

abbrev pub to_ascii_lowercase : Text → Text
to_ascii_lowercase = map to_lower

abbrev pub eq_ignore_ascii_case : Text → Text → Bool
eq_ignore_ascii_case s t = text_eq (to_ascii_lowercase s) (to_ascii_lowercase t)

pub eq_ignore_ascii_case_iff :
    (s t : Text) → (eq_ignore_ascii_case s t ≡ true) ↔ (to_ascii_lowercase s ≡ to_ascii_lowercase t)
eq_ignore_ascii_case_iff s t = text_eq_iff (to_ascii_lowercase s) (to_ascii_lowercase t)

-- `char::to_digit(16)`.
unfoldable pub hex_digit : ℕ → Option ℕ
hex_digit b =
    if leb b'0' b && leb b b'9'
    then some (b - b'0')
    else if leb b'a' b && leb b b'f'
    then some (b - b'a' + 10)
    else if leb b'A' b && leb b b'F'
    then some (b - b'A' + 10)
    else none

pub hex_digit_lt : (b d : ℕ) → hex_digit b ≡ some d → d < 16
unfolding hex_digit
hex_digit_lt b d h = ground arith

hex_digit-ne-none : (b : ℕ) → is_ascii_hexdigit b ≡ true → hex_digit b ≢ none
unfolding hex_digit is_ascii_hexdigit
hex_digit-ne-none b h = ground arith

pub hex_digit_of_is_ascii_hexdigit :
    (b : ℕ) → is_ascii_hexdigit b ≡ true → (d : ℕ) × (hex_digit b ≡ some d)
hex_digit_of_is_ascii_hexdigit b h = elim (Option-cases (hex_digit b)) [
  | inl e ↦ absurd (hex_digit-ne-none b h e)
  | inr found ↦ found
]

pub to_upper_idem : (b : ℕ) → to_upper (to_upper b) ≡ to_upper b
unfolding to_upper
to_upper_idem b = ground arith

pub to_ascii_uppercase_idem :
    (s : Text) → to_ascii_uppercase (to_ascii_uppercase s) ≡ to_ascii_uppercase s
to_ascii_uppercase_idem [] = refl
to_ascii_uppercase_idem (b ∷ s) = rw (to_upper_idem b, to_ascii_uppercase_idem s) refl

pub hex_digit-to_upper : (b : ℕ) → hex_digit (to_upper b) ≡ hex_digit b
unfolding hex_digit to_upper
hex_digit-to_upper b = ground arith

pub is_ascii_hexdigit-to_upper : (b : ℕ) → is_ascii_hexdigit (to_upper b) ≡ is_ascii_hexdigit b
unfolding is_ascii_hexdigit to_upper
is_ascii_hexdigit-to_upper b = ground arith

-- `{:02X}` of a byte, and `hex::encode_upper` of bytes.
unfoldable pub upper_digit : ℕ → ℕ
upper_digit d = if ltb d 10 then d + b'0' else d - 10 + b'A'

abbrev pub encode_upper : List ℕ → Text
encode_upper [] = []
encode_upper (b ∷ bs) = upper_digit (b / 16) ∷ upper_digit (b % 16) ∷ encode_upper bs

ℕs-discrete : Discrete (List ℕ)
ℕs-discrete = hlevel ℕ_discrete

pub Texts-set : IsSet (List ℕ)
Texts-set = hedberg ℕs-discrete
