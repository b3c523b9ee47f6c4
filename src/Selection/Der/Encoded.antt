-- ===== src/Selection/Der/Encoded.antt =====
-- src/selection.rs: `tlvs` on encoded items.
use mathlib.Core.List.{append_assoc}
use pccs_rs.Common.{
  ℕ, zero, suc, ◌+◌, ◌*◌, ◌^◌, ◌≤◌, ◌<◌, ◌≡◌, ◌∙◌, refl, sym, ap, true, false, not, ◌&&◌, List, [],
  ◌∷◌, ◌++◌, some, arith, ◌==◌, ltb, length, take, drop, take_eq, drop_eq, bit_and, length-append,
  length-take,
}
use pccs_rs.Common.BigEndian.{be_value, next_place, holds_to, holds_to_lem}
use pccs_rs.Common.Result.{ok}
use pccs_rs.Selection.Der.{Bytes, big_endian, tlv_length, next_item, tlvs_loop, tlvs}

-- The bytes of a length: one byte below 128, or a count of one to four and as many bytes with the
-- length as their number.
pub data IsLength (n : ℕ) : Bytes → Type 0 where
  one : n < 128 → IsLength n (n ∷ [])
  counted :
      (b : ℕ) (bs : Bytes)
      → length bs < 4
      → n ≡ be_value (b ∷ bs)
      → IsLength n ((129 + length bs) ∷ b ∷ bs)

-- Items one behind the other, each a tag of one byte, its length and its contents.
pub data Encodes : List (ℕ × Bytes) → Bytes → Type 0 where
  nothing : Encodes [] []
  item :
      (tag : ℕ) (size content : Bytes) (items : List (ℕ × Bytes)) (rest : Bytes)
      → (bit_and tag 0x1F == 0x1F) ≡ false
      → IsLength (length content) size
      → Encodes items rest
      → Encodes ((tag, content) ∷ items) (tag ∷ (size ++ (content ++ rest)))

big_endian-be_value : (v : ℕ) (bs : Bytes) → big_endian v bs ≡ v * 256 ^ length bs + be_value bs
unfolding big_endian be_value
big_endian-be_value v [] = omega arith
big_endian-be_value v (b ∷ bs) =
    big_endian-be_value (v * 256 + b) bs ∙ next_place v b (length bs) (be_value bs)

count_table : holds_to (λ m. not (ltb (129 + m) 0x80) && bit_and (129 + m) 0x7F == m + 1) 4 ≡ true
unfolding holds_to
count_table = refl

tlv_length-counted :
    (n b : ℕ) (bs behind : Bytes)
    → length bs < 4
    → n ≡ be_value (b ∷ bs)
    → tlv_length (129 + length bs) (b ∷ (bs ++ behind)) ≡ ok (some (n, 2 + length (b ∷ bs)))
unfolding tlv_length
tlv_length-counted n b bs behind few value =
    let bits = holds_to_lem _ 4 (length bs) few count_table in
    let count : bit_and (129 + length bs) 0x7F ≡ suc (length bs) = ground arith in
    let whole : take (suc (length bs)) (b ∷ (bs ++ behind)) ≡ b ∷ bs =
      take_eq (suc (length bs)) (b ∷ bs) behind refl in
    let number : big_endian 0 (b ∷ bs) ≡ n = omega (arith, big_endian-be_value 0 (b ∷ bs), value) in
    ground (arith, bits, count, whole, number, length-append bs behind)

next_item-step :
    (tag first len hdr : ℕ) (body : Bytes)
    → (bit_and tag 0x1F == 0x1F) ≡ false
    → tlv_length first body ≡ ok (some (len, hdr))
    → hdr + len ≤ 2 + length body
    → next_item (tag ∷ first ∷ body)
      ≡ ok (
          some (
            (tag, drop hdr (take (hdr + len) (tag ∷ first ∷ body))),
            drop (hdr + len) (tag ∷ first ∷ body),
          ))
unfolding next_item
next_item-step tag first len hdr body low read fit =
    ground (arith, read, length-take (hdr + len) (tag ∷ first ∷ body))

tlv_length-one : (n : ℕ) (body : Bytes) → n < 128 → tlv_length n body ≡ ok (some (n, 2))
unfolding tlv_length
tlv_length-one n body few = ground arith

next_item-cut :
    (tag first : ℕ) (front content rest : Bytes)
    → (bit_and tag 0x1F == 0x1F) ≡ false
    → tlv_length first (front ++ (content ++ rest)) ≡ ok (some (length content, 2 + length front))
    → next_item (tag ∷ first ∷ (front ++ (content ++ rest))) ≡ ok (some ((tag, content), rest))
next_item-cut tag first front content rest low read =
    let end = 2 + length front + length content in
    let buf = tag ∷ first ∷ (front ++ (content ++ rest)) in
    let split : buf ≡ (tag ∷ first ∷ (front ++ content)) ++ rest =
      ap (λ t. tag ∷ first ∷ t) (sym (append_assoc front content rest)) in
    let fits : end ≡ length (tag ∷ first ∷ (front ++ content)) =
      omega (arith, length-append front content) in
    let taken : take end buf ≡ tag ∷ first ∷ (front ++ content) =
      rw split (take_eq end (tag ∷ first ∷ (front ++ content)) rest fits) in
    let behind : drop end buf ≡ rest =
      rw split (drop_eq end (tag ∷ first ∷ (front ++ content)) rest fits) in
    let cut : drop (2 + length front) (tag ∷ first ∷ (front ++ content)) ≡ content =
      drop_eq (2 + length front) (tag ∷ first ∷ front) content (omega arith) in
    next_item-step tag first (length content) (2 + length front) (front ++ (content ++ rest)) low
      read (omega (arith, length-append front (content ++ rest), length-append content rest))
    ∙ rw (taken, behind, cut) refl

-- The item that a buffer begins with, whatever stands behind it.
next_item-encoded :
    (tag : ℕ) (size content rest : Bytes)
    → (bit_and tag 0x1F == 0x1F) ≡ false
    → IsLength (length content) size
    → next_item (tag ∷ (size ++ (content ++ rest))) ≡ ok (some ((tag, content), rest))
next_item-encoded tag size content rest low (one few) =
    next_item-cut tag (length content) [] content rest low
      (tlv_length-one (length content) (content ++ rest) few)
next_item-encoded tag size content rest low (counted b bs few value) =
    next_item-cut tag (129 + length bs) (b ∷ bs) content rest low
      (tlv_length-counted (length content) b bs (content ++ rest) few value)

tlvs_loop-encoded :
    (fuel : ℕ) (items : List (ℕ × Bytes)) (buf : Bytes)
    → length buf ≤ fuel
    → Encodes items buf
    → tlvs_loop fuel buf ≡ ok items
unfolding tlvs_loop next_item
tlvs_loop-encoded zero _ _ h nothing = refl
tlvs_loop-encoded (suc fuel) _ _ h nothing = refl
tlvs_loop-encoded zero _ _ h (item tag size content items rest low sized more) =
    absurd (omega arith)
tlvs_loop-encoded (suc fuel) _ _ h (item tag size content items rest low sized more) =
    let small : length rest ≤ fuel =
      omega (arith, length-append size (content ++ rest), length-append content rest) in
    rw
      (
        next_item-encoded tag size content rest low sized,
        tlvs_loop-encoded fuel items rest small more,
      )
      refl

-- Items that are written one behind the other, with tags of one byte and lengths of at most four
-- bytes, are read back, each with its tag and its contents.
pub tlvs-encoded :
    (items : List (ℕ × Bytes)) (buf : Bytes) → Encodes items buf → tlvs buf ≡ ok items
unfolding tlvs
tlvs-encoded items buf h = tlvs_loop-encoded (length buf) items buf (omega arith) h
