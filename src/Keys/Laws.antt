-- ===== src/Keys/Laws.antt =====
-- src/keys.rs: the form of keys, and their parts in upper and lower case.
use pccs_rs.Common.{
  ℕ, zero, suc, ◌+◌, ◌/◌, ◌%◌, ◌≡◌, ◌∙◌, refl, List, [], ◌∷◌, ◌++◌, map, some, arith, length,
  Option-cases, inl, inr,
}
use pccs_rs.Common.Text.{Text, to_upper, to_lower, to_ascii_lowercase, to_ascii_uppercase}
use pccs_rs.Hash.{hash128_hex, hex_digits, lower_digit, city_hash_128}
use pccs_rs.Hash.Bounds.{city_hash_128-ne-none}
use pccs_rs.Keys.{make, join_lower}

to_lower-to_upper : (b : ℕ) → to_lower (to_upper b) ≡ to_lower b
unfolding to_lower to_upper
to_lower-to_upper b = ground arith

lower-upper : (s : Text) → to_ascii_lowercase (to_ascii_uppercase s) ≡ to_ascii_lowercase s
lower-upper [] = refl
lower-upper (b ∷ s) = rw (to_lower-to_upper b, lower-upper s) refl

lowers-uppers :
    (parts : List Text)
    → map to_ascii_lowercase (map to_ascii_uppercase parts) ≡ map to_ascii_lowercase parts
lowers-uppers [] = refl
lowers-uppers (p ∷ parts) = rw (lower-upper p, lowers-uppers parts) refl

-- Upper-case parts give the same key.
pub make-to_ascii_uppercase :
    (prefix : Text) (parts : List Text)
    → make prefix (map to_ascii_uppercase parts) ≡ make prefix parts
unfolding make join_lower
make-to_ascii_uppercase prefix parts = rw (lowers-uppers parts) refl

length-hex_digits : (n value : ℕ) (s : Text) → length (hex_digits n value s) ≡ n + length s
unfolding hex_digits
length-hex_digits zero value s = omega arith
length-hex_digits (suc n) value s =
    omega (arith, length-hex_digits n (value / 16) (lower_digit (value % 16) ∷ s))

-- Every key is made: it is the prefix of its kind with 32 bytes behind it.
pub make-total :
    (prefix : Text) (parts : List Text)
    → (digest : Text) × (make prefix parts ≡ some (prefix ++ digest)) × (length digest ≡ 32)
unfolding make hash128_hex
make-total prefix parts = elim (Option-cases (city_hash_128 (join_lower parts))) [
  | inl out ↦ absurd (city_hash_128-ne-none (join_lower parts) out)
  | inr (h, found) ↦ (hex_digits 32 h [], rw found refl, length-hex_digits 32 h [] ∙ (omega arith))
]
