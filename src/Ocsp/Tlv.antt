-- ===== src/Ocsp/Tlv.antt =====
-- src/ocsp.rs: the strict DER reader, `take_tlv` and what is built on it. A reader returns its result
-- and the input that is left.
pub mod Laws
use pccs_rs.Common.{
  ℕ, zero, suc, ◌+◌, ◌*◌, ◌^◌, Bool, true, false, not, ◌&&◌, ◌||◌, List, [], ◌∷◌, Option, none,
  some, ltb, leb, ◌==◌, if◌then◌else◌, length, bit_and, is_empty, get_elem?,
}
use pccs_rs.Common.Slice.{slice_to, slice_from}
use pccs_rs.Common.Result.{Result, ok, err, panic, ◌>>=◌, ◌>>◌, guard, or_panic, ok_or}
use pccs_rs.Errors.{PccsError, invalid_req}

abbrev pub Bytes : Type 0
Bytes = List ℕ

pub record Tlv : Type 0 where
  pub tag : ℕ
  pub value : Bytes
  pub raw : Bytes

-- The loop over the length's bytes, with its checks against overflow of a 64-bit `usize`.
unfoldable pub length_value : ℕ → Bytes → Option ℕ
length_value v [] = some v
length_value v (b ∷ bs) =
    let rest = length_value (v * 256 + b) bs in if ltb (v * 256 + b) (2 ^ 64) then rest else none

-- A length of one byte, or of the `count` bytes behind it: the header's size and the value's length.
-- `body` is what stands behind the first two bytes.
unfoldable pub header : ℕ → Bytes → Result PccsError (ℕ × ℕ)
unfolding length_value
header first_len body =
    if bit_and first_len 0x80 == 0
    then ok (2, first_len)
    else (let count = bit_and first_len 0x7F in
        if count == 0 || ltb 8 count || ltb (2 + length body) (2 + count)
        then err invalid_req
        else (do
          lead ← or_panic (get_elem? body 0)
          guard (not (lead == 0)) invalid_req
          digits ← slice_to count body
          value_len ← ok_or (length_value 0 digits) invalid_req
          guard (not (ltb value_len 128)) invalid_req
          ok (2 + count, value_len)))

unfoldable pub take_tlv : Bytes → Result PccsError (Tlv × Bytes)
unfolding header
take_tlv [] = err invalid_req
take_tlv (tag ∷ []) = err invalid_req
take_tlv (tag ∷ first_len ∷ body) = if bit_and tag 0x1F == 0x1F then err invalid_req else (do
  (header_len, value_len) ← header first_len body
  let total_len = header_len + value_len
  guard (ltb total_len (2 ^ 64)) invalid_req
  guard (not (ltb (2 + length body) total_len)) invalid_req
  raw ← slice_to total_len (tag ∷ first_len ∷ body)
  value ← slice_from header_len raw
  rest ← slice_from total_len (tag ∷ first_len ∷ body)
  ok (record { tag = tag; value = value; raw = raw }, rest))

unfoldable pub take_expected : ℕ → Bytes → Result PccsError (Tlv × Bytes)
unfolding take_tlv
take_expected expected_tag input = do
  (tlv, rest) ← take_tlv input
  if tlv.tag == expected_tag then ok (tlv, rest) else err invalid_req

unfoldable pub parse_single : ℕ → Bytes → Result PccsError Tlv
unfolding take_expected
parse_single expected_tag input = do
  (tlv, rest) ← take_expected expected_tag input
  if is_empty rest then ok tlv else err invalid_req

unfoldable pub has_tag : ℕ → Bytes → Bool
has_tag tag [] = false
has_tag tag (b ∷ bs) = b == tag
