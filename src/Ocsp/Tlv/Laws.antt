-- ===== src/Ocsp/Tlv/Laws.antt =====
-- Theorems on `take_tlv` of src/ocsp.rs.
use mathlib.Core.Path.{subst₂}
use mathlib.Core.List.{append_assoc}
use pccs_rs.Common.{
  ℕ, suc, ◌+◌, ◌*◌, ◌^◌, ◌≤◌, ◌<◌, ◌≡◌, ◌≢◌, ◌∙◌, refl, sym, ap, inl, inr, true, false, not, ◌&&◌,
  [], ◌∷◌, ◌++◌, some, arith, ◌==◌, length, take, drop, take_eq, drop_eq, bit_and, take-append-drop,
  length-append, length-take, length-drop,
}
use pccs_rs.Common.Result.{ok, panic, Result-cases}
use pccs_rs.Common.BigEndian.{be_value, power_pos, le_mul, next_place, holds_to, holds_to_lem}
use pccs_rs.Ocsp.Tlv.{Bytes, Tlv, length_value, header, take_tlv, take_expected, parse_single}

header-ge : (first_len : ℕ) (body : Bytes) (h n : ℕ) → header first_len body ≡ ok (h, n) → 2 ≤ h
unfolding header
header-ge first_len [] h n e = ground arith
header-ge first_len (b ∷ body) h n e = ground arith

-- The bytes of a length that are read stand in the input.
header-ne-panic : (first_len : ℕ) (body : Bytes) → header first_len body ≢ panic
unfolding header
header-ne-panic first_len [] = ground arith
header-ne-panic first_len (b ∷ body) = ground arith

-- What a successful read returns: the item's bytes are a nonempty prefix of the input, its value is
-- the end of its bytes, and the rest is what follows.
pub record IsRead (input : Bytes) (tlv : Tlv) (rest : Bytes) : Type 0 where
  pub split : input ≡ tlv.raw ++ rest
  pub prefix : (hdr : Bytes) × (tlv.raw ≡ hdr ++ tlv.value) × (2 ≤ length hdr)
  pub shorter : length rest < length input
  pub inside : length tlv.value < length input

cut-IsRead :
    (tag : ℕ) (input : Bytes) (h n : ℕ)
    → 2 ≤ h
    → h + n ≤ length input
    → IsRead input
        (record { tag = tag; value = drop h (take (h + n) input); raw = take (h + n) input })
        (drop (h + n) input)
cut-IsRead tag input h n low fit =
    let raw = take (h + n) input in
    record {
      split = sym (take-append-drop (h + n) input);
      prefix = (
        take h raw,
        sym (take-append-drop h raw),
        omega (arith, length-take h raw, length-take (h + n) input),
      );
      shorter = omega (arith, length-drop (h + n) input);
      inside = omega (arith, length-drop h raw, length-take (h + n) input);
    }

-- The three tests that a successful read has passed, and its result.
take_tlv_inv :
    (tag first_len : ℕ) (body : Bytes) (tlv : Tlv) (rest : Bytes)
    → take_tlv (tag ∷ first_len ∷ body) ≡ ok (tlv, rest)
    → let input : Bytes = tag ∷ first_len ∷ body in
      (h : ℕ) × (n : ℕ) × (header first_len body ≡ ok (h, n))
      × (h + n ≤ length input)
      × (tlv ≡ record { tag = tag; value = drop h (take (h + n) input); raw = take (h + n) input })
      × (rest ≡ drop (h + n) input)
      × ((bit_and tag 0x1F == 0x1F) ≡ false)
unfolding take_tlv
take_tlv_inv tag first_len body tlv rest e = elim (Result-cases (header first_len body)) [
  | inr (inl (x, bad)) ↦ absurd (ground arith)
  | inr (inr broken) ↦ absurd (header-ne-panic first_len body broken)
  | inl ((h, n), found) ↦ (h, n, found, ground arith, ground arith, ground arith, ground arith)
]

-- A successful read splits its input into the item's bytes and the rest: its value is the end of
-- its bytes, behind a header of at least two bytes, and the rest is shorter than the input.
pub take_tlv-IsRead :
    (input : Bytes) (tlv : Tlv) (rest : Bytes)
    → take_tlv input ≡ ok (tlv, rest)
    → IsRead input tlv rest
unfolding take_tlv
take_tlv-IsRead [] tlv rest e = cc
take_tlv-IsRead (tag ∷ []) tlv rest e = cc
take_tlv-IsRead (tag ∷ first_len ∷ body) tlv rest e =
    let (h, n, found, fit, same, behind, _) = take_tlv_inv tag first_len body tlv rest e in
    subst₂ (IsRead (tag ∷ first_len ∷ body)) (sym same) (sym behind)
      (cut-IsRead tag (tag ∷ first_len ∷ body) h n (header-ge first_len body h n found) fit)

take_expected_inv :
    (tag : ℕ) (input : Bytes) (tlv : Tlv) (rest : Bytes)
    → take_expected tag input ≡ ok (tlv, rest)
    → (take_tlv input ≡ ok (tlv, rest)) × (tlv.tag ≡ tag)
unfolding take_expected
take_expected_inv tag input tlv rest e = elim (Result-cases (take_tlv input)) [
  | inl ((t, r), read) ↦ (ground arith, ground arith)
  | inr (inl (x, bad)) ↦ absurd (ground arith)
  | inr (inr broken) ↦ absurd (ground arith)
]

pub take_expected-IsRead :
    (tag : ℕ) (input : Bytes) (tlv : Tlv) (rest : Bytes)
    → take_expected tag input ≡ ok (tlv, rest)
    → IsRead input tlv rest × (tlv.tag ≡ tag)
take_expected-IsRead tag input tlv rest e =
    let (read, same) = take_expected_inv tag input tlv rest e in
    (take_tlv-IsRead input tlv rest read, same)

pub take_tlv-ne-panic : (input : Bytes) → take_tlv input ≢ panic
unfolding take_tlv
take_tlv-ne-panic [] = λ p. cc
take_tlv-ne-panic (tag ∷ []) = λ p. cc
take_tlv-ne-panic (tag ∷ first_len ∷ body) = elim (Result-cases (header first_len body)) [
  | inr (inl (x, bad)) ↦ ground arith
  | inr (inr broken) ↦ absurd (header-ne-panic first_len body broken)
  | inl ((h, n), found) ↦ ground (arith, found, length-take (h + n) (tag ∷ first_len ∷ body))
]

pub take_expected-ne-panic : (tag : ℕ) (input : Bytes) → take_expected tag input ≢ panic
unfolding take_expected
take_expected-ne-panic tag input = ground (arith, take_tlv-ne-panic input)

pub parse_single-ne-panic : (tag : ℕ) (input : Bytes) → parse_single tag input ≢ panic
unfolding parse_single
parse_single-ne-panic tag input = ground (arith, take_expected-ne-panic tag input)

-- The loop over the bytes of a length computes their number, where it fits.
length_value-be_value :
    (v : ℕ) (bs : Bytes)
    → v * 256 ^ length bs + be_value bs < 2 ^ 64
    → length_value v bs ≡ some (v * 256 ^ length bs + be_value bs)
unfolding length_value be_value
length_value-be_value v [] room = ground arith
length_value-be_value v (b ∷ bs) room =
    let k = 256 ^ length bs in
    let same : (v * 256 + b) * k + be_value bs ≡ v * 256 ^ suc (length bs) + (b * k + be_value bs) =
      next_place v b (length bs) (be_value bs) in
    let small = le_mul (v * 256 + b) k (power_pos (length bs)) in
    ground (arith, length_value-be_value (v * 256 + b) bs (omega (arith, same)), same, small)

-- The bytes of a length, in the one form that the reader accepts: one byte below 128, or a count and
-- that many bytes with no leading zero, for a length of at least 128.
pub data IsHeader (n : ℕ) : Bytes → Type 0 where
  short : n < 128 → IsHeader n (n ∷ [])
  long :
      (lead : ℕ) (more : Bytes)
      → lead ≢ 0
      → length more < 8
      → n ≡ be_value (lead ∷ more)
      → 128 ≤ n
      → IsHeader n ((129 + length more) ∷ lead ∷ more)

short_table : holds_to (λ n. bit_and n 0x80 == 0) 128 ≡ true
unfolding holds_to
short_table = refl

long_table :
    holds_to (λ m. not (bit_and (129 + m) 0x80 == 0) && bit_and (129 + m) 0x7F == m + 1) 8 ≡ true
unfolding holds_to
long_table = refl

header-short : (n : ℕ) (body : Bytes) → n < 128 → header n body ≡ ok (2, n)
unfolding header
header-short n [] h = ground (arith, holds_to_lem _ 128 n h short_table)
header-short n (b ∷ body) h = ground (arith, holds_to_lem _ 128 n h short_table)

header-long :
    (n lead : ℕ) (more body : Bytes)
    → lead ≢ 0
    → length more < 8
    → n ≡ be_value (lead ∷ more)
    → 128 ≤ n
    → n < 2 ^ 64
    → header (129 + length more) (lead ∷ (more ++ body)) ≡ ok (3 + length more, n)
unfolding header
header-long n lead more body nz few value big room =
    let read : length_value 0 (lead ∷ more) ≡ some n =
      ground (arith, value, room, length_value-be_value 0 (lead ∷ more)) in
    let bits = holds_to_lem _ 8 (length more) few long_table in
    let count : bit_and (129 + length more) 0x7F ≡ suc (length more) = ground arith in
    let whole : take (suc (length more)) (lead ∷ (more ++ body)) ≡ lead ∷ more =
      take_eq (suc (length more)) (lead ∷ more) body refl in
    ground (arith, bits, count, whole, read, length-append more body)

take_tlv_step :
    (tag first_len h n : ℕ) (body : Bytes)
    → (bit_and tag 0x1F == 0x1F) ≡ false
    → header first_len body ≡ ok (h, n)
    → h + n < 2 ^ 64
    → h + n ≤ 2 + length body
    → take_tlv (tag ∷ first_len ∷ body)
      ≡ ok (
        record {
          tag = tag;
          value = drop h (take (h + n) (tag ∷ first_len ∷ body));
          raw = take (h + n) (tag ∷ first_len ∷ body);
        },
        drop (h + n) (tag ∷ first_len ∷ body),
      )
unfolding take_tlv
take_tlv_step tag first_len h n body low found room fit =
    ground (arith, found, length-take (h + n) (tag ∷ first_len ∷ body))

-- Behind a header in the accepted form the reader finds the value, whatever follows: an encoded item
-- is read back, with exactly its bytes taken from the input.
pub take_tlv-encoded :
    (tag : ℕ) (hdr value rest : Bytes)
    → (bit_and tag 0x1F == 0x1F) ≡ false
    → IsHeader (length value) hdr
    → length value + 10 < 2 ^ 64
    → take_tlv (tag ∷ (hdr ++ (value ++ rest)))
      ≡ ok (record { tag = tag; value = value; raw = tag ∷ (hdr ++ value) }, rest)
unfolding take_tlv
take_tlv-encoded tag hdr value rest low (short few) room =
    let n = length value in
    let input = tag ∷ n ∷ (value ++ rest) in
    let taken : take (2 + n) input ≡ tag ∷ n ∷ value =
      take_eq (2 + n) (tag ∷ n ∷ value) rest (omega arith) in
    let behind : drop (2 + n) input ≡ rest = drop_eq (2 + n) (tag ∷ n ∷ value) rest (omega arith) in
    ground (arith, header-short n (value ++ rest) few, taken, behind, length-append value rest)
take_tlv-encoded tag hdr value rest low (long lead more nz few read big) room =
    let n = length value in
    let hdr : Bytes = (129 + length more) ∷ lead ∷ more in
    let input = tag ∷ (hdr ++ (value ++ rest)) in
    let split : input ≡ (tag ∷ (hdr ++ value)) ++ rest =
      ap (λ t. tag ∷ (129 + length more) ∷ lead ∷ t) (sym (append_assoc more value rest)) in
    let taken : take (3 + length more + n) input ≡ tag ∷ (hdr ++ value) = rw split (
      take_eq (3 + length more + n) (tag ∷ (hdr ++ value)) rest
        (omega (arith, length-append more value))) in
    let behind : drop (3 + length more + n) input ≡ rest = rw split (
      drop_eq (3 + length more + n) (tag ∷ (hdr ++ value)) rest
        (omega (arith, length-append more value))) in
    let cut : drop (3 + length more) (tag ∷ (hdr ++ value)) ≡ value =
      drop_eq (3 + length more) (tag ∷ hdr) value (omega arith) in
    take_tlv_step tag (129 + length more) (3 + length more) n (lead ∷ (more ++ (value ++ rest))) low
      (header-long n lead more (value ++ rest) nz few read big (omega arith)) (omega arith)
      (omega (arith, length-append more (value ++ rest), length-append value rest))
    ∙ rw (taken, behind, cut) refl
