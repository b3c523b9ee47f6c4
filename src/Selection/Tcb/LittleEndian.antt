-- ===== src/Selection/Tcb/LittleEndian.antt =====
-- The raw PCESVN of a request: little-endian hexadecimal text.
use mathlib.Core.List.{reverse-cons}
use pccs_rs.Common.{
  ℕ, ◌+◌, ◌*◌, ◌/◌, ◌%◌, ◌^◌, ◌≤◌, ◌<◌, ◌≡◌, ◌∙◌, ap, subst, inl, inr, Option-cases, All-append,
  refl, sym, true, List, [], ◌∷◌, ◌++◌, reverse, some, arith, length, all, All,
}
use pccs_rs.Common.Text.{Text, is_ascii_hexdigit, hex_digit, encode_upper, upper_digit}
use pccs_rs.Selection.Tcb.{reverse_pairs, radix_16, little_endian_hex_to_int}

-- The number that a byte string stands for, least significant byte first.
abbrev pub le_value : List ℕ → ℕ
le_value [] = 0
le_value (b ∷ bs) = b + 256 * le_value bs

abbrev be_value : ℕ → List ℕ → ℕ
be_value acc [] = acc
be_value acc (b ∷ bs) = be_value (acc * 256 + b) bs

hex_digit-upper_digit : (d : ℕ) → d < 16 → hex_digit (upper_digit d) ≡ some d
unfolding hex_digit upper_digit
hex_digit-upper_digit d h = ground arith

is_ascii_hexdigit-upper_digit : (d : ℕ) → d < 16 → is_ascii_hexdigit (upper_digit d) ≡ true
unfolding is_ascii_hexdigit upper_digit
is_ascii_hexdigit-upper_digit d h = ground arith

be_value-le : (acc : ℕ) (bs : List ℕ) → acc ≤ be_value acc bs
be_value-le acc [] = omega arith
be_value-le acc (b ∷ bs) = omega (arith, be_value-le (acc * 256 + b) bs)

be_value-append :
    (acc : ℕ) (bs : List ℕ) (b : ℕ) → be_value acc (bs ++ b ∷ []) ≡ be_value acc bs * 256 + b
be_value-append acc [] b = refl
be_value-append acc (c ∷ bs) b = be_value-append (acc * 256 + c) bs b

be_value-reverse : (bs : List ℕ) → be_value 0 (reverse bs) ≡ le_value bs
be_value-reverse [] = refl
be_value-reverse (b ∷ bs) =
    ap (be_value 0) (reverse-cons b bs)
    ∙ omega (arith, be_value-append 0 (reverse bs) b, be_value-reverse bs)

encode_upper-append :
    (xs ys : List ℕ) → encode_upper (xs ++ ys) ≡ encode_upper xs ++ encode_upper ys
encode_upper-append [] ys = refl
encode_upper-append (x ∷ xs) ys = rw (encode_upper-append xs ys)

reverse_pairs-encode_upper :
    (bs : List ℕ) → reverse_pairs (encode_upper bs) ≡ encode_upper (reverse bs)
unfolding reverse_pairs
reverse_pairs-encode_upper [] = refl
reverse_pairs-encode_upper (b ∷ bs) =
    rw (reverse_pairs-encode_upper bs, reverse-cons b bs, encode_upper-append)

joined : (acc b : ℕ) → (acc * 16 + b / 16) * 16 + b % 16 ≡ acc * 256 + b
joined acc b = omega arith

radix_16-encode_upper :
    (acc : ℕ) (bs : List ℕ)
    → All (λ b. b < 256) bs
    → be_value acc bs < 2 ^ 32
    → radix_16 acc (encode_upper bs) ≡ some (be_value acc bs)
unfolding radix_16
radix_16-encode_upper acc [] small h = refl
radix_16-encode_upper acc (b ∷ bs) small h =
    let low = be_value-le (acc * 256 + b) bs in
    ground (
      arith,
      joined acc b,
      hex_digit-upper_digit (b / 16) (omega arith),
      hex_digit-upper_digit (b % 16) (omega arith),
      radix_16-encode_upper (acc * 256 + b) bs small.1 h,
    )

length-encode_upper : (bs : List ℕ) → length (encode_upper bs) ≡ length bs + length bs
length-encode_upper [] = refl
length-encode_upper (b ∷ bs) = omega (arith, length-encode_upper bs)

all_hex-encode_upper :
    (bs : List ℕ) → All (λ b. b < 256) bs → all is_ascii_hexdigit (encode_upper bs) ≡ true
all_hex-encode_upper [] h = refl
all_hex-encode_upper (b ∷ bs) h = ground (
  arith,
  is_ascii_hexdigit-upper_digit (b / 16) (omega arith),
  is_ascii_hexdigit-upper_digit (b % 16) (omega arith),
  all_hex-encode_upper bs h.1,
)

le_value-lt : (bs : List ℕ) → length bs ≤ 4 → All (λ b. b < 256) bs → le_value bs < 2 ^ 32
le_value-lt [] l h = omega arith
le_value-lt (a ∷ []) l h = omega arith
le_value-lt (a ∷ b ∷ []) l h = omega arith
le_value-lt (a ∷ b ∷ c ∷ []) l h = omega arith
le_value-lt (a ∷ b ∷ c ∷ d ∷ []) l h = omega arith
le_value-lt (a ∷ b ∷ c ∷ d ∷ e ∷ bs) l h = absurd (omega arith)

All-reverse : (bs : List ℕ) → All (λ b. b < 256) bs → All (λ b. b < 256) (reverse bs)
All-reverse [] h = tt
All-reverse (b ∷ bs) h =
    subst (All (λ x. x < 256)) (sym (reverse-cons b bs))
      (All-append (λ x. x < 256) (reverse bs) (b ∷ []) (All-reverse bs h.1) (h.0, tt))

-- One to four bytes, written in hexadecimal, are read back as the little-endian number they encode.
pub little_endian_hex_to_int-encode_upper :
    (bs : List ℕ)
    → 0 < length bs
    → length bs ≤ 4
    → All (λ b. b < 256) bs
    → little_endian_hex_to_int (encode_upper bs) ≡ some (le_value bs)
unfolding little_endian_hex_to_int
little_endian_hex_to_int-encode_upper bs pos short small =
    let value = be_value-reverse bs in
    let bound = le_value-lt bs short small in
    let read = radix_16-encode_upper 0 (reverse bs) (All-reverse bs small) (omega arith) in
    ground (
      arith,
      length-encode_upper bs,
      all_hex-encode_upper bs small,
      reverse_pairs-encode_upper bs,
      read,
      value,
    )

radix_16-lt : (acc : ℕ) (s : Text) (n : ℕ) → acc < 2 ^ 32 → radix_16 acc s ≡ some n → n < 2 ^ 32
unfolding radix_16
radix_16-lt acc [] n h e = ground arith
radix_16-lt acc (c ∷ s) n h e = elim (Option-cases (hex_digit c)) [
  | inl out ↦ absurd (ground arith)
  | inr (d, digit) ↦ ground (arith, radix_16-lt (acc * 16 + d) s n, digit)
]

-- Every raw PCESVN that is read is a 32-bit number.
pub little_endian_hex_to_int-lt :
    (s : Text) (n : ℕ) → little_endian_hex_to_int s ≡ some n → n < 2 ^ 32
unfolding little_endian_hex_to_int
little_endian_hex_to_int-lt s n e = ground (arith, radix_16-lt 0 (reverse_pairs s) n)
