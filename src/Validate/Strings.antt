-- ===== src/Validate/Strings.antt =====
-- The operations of the standard library on `str` that src/validate.rs calls, over bytes.
use pccs_rs.Common.{
  ℕ, zero, suc, ◌+◌, ◌*◌, ◌-◌, ◌^◌, Bool, ◌&&◌, ◌||◌, List, [], ◌∷◌, reverse, Option, none, some,
  ltb, leb, ◌==◌, if◌then◌else◌, length, drop,
}
use pccs_rs.Common.Text.{Text}

abbrev pub text_of : Option Text → Text
text_of none = []
text_of (some s) = s

-- `filter(|s| !s.is_empty())`.
abbrev pub nonempty : Option Text → Option Text
nonempty none = none
nonempty (some []) = none
nonempty (some (c ∷ s)) = some (c ∷ s)

-- `split_once(c)`.
unfoldable pub split_char : ℕ → Text → Option (Text × Text)
split_char c [] = none
split_char c (b ∷ s) =
    if b == c
    then some ([], s)
    else (elim (split_char c s) [ none ↦ none | some (k, v) ↦ some (b ∷ k, v) ])

-- `split(c)`: always at least one piece.
abbrev cons_piece : ℕ → List Text → List Text
cons_piece b [] = (b ∷ []) ∷ []
cons_piece b (p ∷ ps) = (b ∷ p) ∷ ps

unfoldable pub split : ℕ → Text → List Text
split c [] = [] ∷ []
split c (b ∷ s) = if b == c then [] ∷ split c s else cons_piece b (split c s)

unfoldable pub strip_prefix : Text → Text → Option Text
strip_prefix [] s = some s
strip_prefix (p ∷ ps) [] = none
strip_prefix (p ∷ ps) (b ∷ s) = if b == p then strip_prefix ps s else none

unfoldable pub strip_suffix : Text → Text → Option Text
unfolding strip_prefix
strip_suffix p s = elim (strip_prefix (reverse p) (reverse s)) [
  | none ↦ none
  | some r ↦ some (reverse r)
]

-- `trim_end_matches` of one byte.
abbrev skip : ℕ → Text → Text
skip c [] = []
skip c (b ∷ s) = if b == c then skip c s else b ∷ s

unfoldable pub trim_end_matches : ℕ → Text → Text
trim_end_matches c s = reverse (skip c (reverse s))

-- `replace`, of one byte by another.
unfoldable pub replace : ℕ → ℕ → Text → Text
replace from to [] = []
replace from to (b ∷ s) = (if b == from then to else b) ∷ replace from to s

-- `parse::<u32>()` on decimal digits, `acc` read so far.
unfoldable pub parse_u32 : ℕ → Text → Option ℕ
parse_u32 acc [] = some acc
parse_u32 acc (b ∷ s) =
    let next = acc * 10 + (b - b'0') in
    let rest = parse_u32 next s in
    if leb b'0' b && leb b b'9' && ltb next (2 ^ 32) then rest else none

-- The characters of White_Space that take three bytes.
unfoldable pub wide_space : ℕ → ℕ → ℕ → Bool
wide_space a b c =
    a == 0xE1 && b == 0x9A && c == 0x80
    || (a == 0xE2
          && b == 0x80
          && (leb 0x80 c && leb c 0x8A || (c == 0xA8 || (c == 0xA9 || c == 0xAF)))
        || (a == 0xE2 && b == 0x81 && c == 0x9F || a == 0xE3 && b == 0x80 && c == 0x80))

-- How many bytes of White_Space a text begins with: 0 if its first character is another.
unfoldable pub space_at_start : Text → ℕ
space_at_start [] = 0
space_at_start (a ∷ []) = if a == 32 || leb 9 a && leb a 13 then 1 else 0
space_at_start (a ∷ b ∷ []) =
    if a == 32 || leb 9 a && leb a 13
    then 1
    else if a == 0xC2 && (b == 0x85 || b == 0xA0)
    then 2
    else 0
space_at_start (a ∷ b ∷ c ∷ s) =
    if a == 32 || leb 9 a && leb a 13
    then 1
    else if a == 0xC2 && (b == 0x85 || b == 0xA0)
    then 2
    else if wide_space a b c
    then 3
    else 0

-- The same at the end, on the reversed bytes of a text.
unfoldable pub space_at_end : Text → ℕ
space_at_end [] = 0
space_at_end (a ∷ []) = if a == 32 || leb 9 a && leb a 13 then 1 else 0
space_at_end (b ∷ a ∷ []) =
    if b == 32 || leb 9 b && leb b 13
    then 1
    else if a == 0xC2 && (b == 0x85 || b == 0xA0)
    then 2
    else 0
space_at_end (c ∷ b ∷ a ∷ s) =
    if c == 32 || leb 9 c && leb c 13
    then 1
    else if b == 0xC2 && (c == 0x85 || c == 0xA0)
    then 2
    else if wide_space a b c
    then 3
    else 0

unfoldable pub strip_while : ℕ → (Text → ℕ) → Text → Text
strip_while zero count s = s
strip_while (suc fuel) count s =
    let rest = strip_while fuel count (drop (count s) s) in if count s == 0 then s else rest

-- `trim`.
unfoldable pub trim : Text → Text
unfolding strip_while space_at_start space_at_end wide_space
trim s =
    let front = strip_while (length s) space_at_start s in
    reverse (strip_while (length front) space_at_end (reverse front))
