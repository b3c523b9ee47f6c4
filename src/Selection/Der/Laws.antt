-- ===== src/Selection/Der/Laws.antt =====
-- src/selection.rs: the outcomes of `tlvs` and `find_extension`: their slices and the bounds on their
-- loops.
use pccs_rs.Common.{
  ℕ, zero, suc, ◌+◌, ◌≤◌, ◌<◌, ◌≡◌, ◌≢◌, List, [], ◌∷◌, Option, none, some, arith, length, take,
  All, All-map, length-take, length-drop, inl, inr, subst,
}
use pccs_rs.Common.Result.{Result, ok, panic, ◌>>=◌, >>=-eq-ok, Result-cases}
use pccs_rs.Common.Result.Laws.{>>=-ne-panic, ok-injective}
use pccs_rs.Selection.Error.{SelectionError}
use pccs_rs.Selection.Der.{
  Bytes, tlv_length, next_item, tlvs_loop, tlvs, extension_value, find_in, find_extension_within,
  find_extension,
}

tlv_length-ne-panic : (first : ℕ) (body : Bytes) → tlv_length first body ≢ panic
unfolding tlv_length
tlv_length-ne-panic first body = ground arith

tlv_length-ge :
    (first : ℕ) (body : Bytes) (len hdr : ℕ)
    → tlv_length first body ≡ ok (some (len, hdr))
    → 2 ≤ hdr
unfolding tlv_length
tlv_length-ge first body len hdr e = ground arith

-- The contents of an item stand in the buffer.
next_item-ne-panic : (buf : Bytes) → next_item buf ≢ panic
unfolding next_item
next_item-ne-panic [] = λ p. cc
next_item-ne-panic (tag ∷ []) = λ p. cc
next_item-ne-panic (tag ∷ first ∷ body) = elim (Result-cases (tlv_length first body)) [
  | inl (none, read) ↦ ground (arith, read)
  | inl (some (len, hdr), read) ↦ ground (arith, read, length-take (hdr + len) (tag ∷ first ∷ body))
  | inr (inl (e, bad)) ↦ ground (arith, bad)
  | inr (inr broken) ↦ absurd (tlv_length-ne-panic first body broken)
]

-- A round reads an item shorter than its input, and leaves less than its input.
next_item-lt :
    (buf : Bytes) (item : ℕ × Bytes) (rest : Bytes)
    → next_item buf ≡ ok (some (item, rest))
    → (length item.1 < length buf) × (length rest < length buf)
unfolding next_item
next_item-lt [] item rest e = cc
next_item-lt (tag ∷ []) item rest e = cc
next_item-lt (tag ∷ first ∷ body) item rest e = elim (Result-cases (tlv_length first body)) [
  | inl (none, read) ↦ absurd (ground (arith, read))
  | inl (some (len, hdr), read) ↦
      let low = tlv_length-ge first body len hdr read in
      let buf = tag ∷ first ∷ body in
      ground (
        arith,
        low,
        read,
        length-take (hdr + len) buf,
        length-drop hdr (take (hdr + len) buf),
        length-drop (hdr + len) buf,
      )
  | inr (inl (x, bad)) ↦ absurd (ground (arith, bad))
  | inr (inr broken) ↦ absurd (ground (arith, broken))
]

-- As many rounds as there are bytes are enough.
tlvs_loop-ne-panic : (fuel : ℕ) (buf : Bytes) → length buf ≤ fuel → tlvs_loop fuel buf ≢ panic
unfolding tlvs_loop
tlvs_loop-ne-panic zero [] h = λ p. cc
tlvs_loop-ne-panic zero (b ∷ buf) h = absurd (omega arith)
tlvs_loop-ne-panic (suc fuel) buf h = elim (Result-cases (next_item buf)) [
  | inl (none, read) ↦ rw read (λ p. cc)
  | inl (some (item, rest), read) ↦
      let (_, less) = next_item-lt buf item rest read in
      rw read (
        >>=-ne-panic (tlvs_loop fuel rest) _ (tlvs_loop-ne-panic fuel rest (omega arith))
          (λ items _ p. cc))
  | inr (inl (e, bad)) ↦ rw bad (λ p. cc)
  | inr (inr broken) ↦ absurd (next_item-ne-panic buf broken)
]

-- Every item is shorter than the bytes it was read from.
tlvs_loop-shorter :
    (fuel : ℕ) (buf : Bytes) (n : ℕ) (items : List (ℕ × Bytes))
    → length buf ≤ n
    → tlvs_loop fuel buf ≡ ok items
    → All (λ item. length item.1 < n) items
unfolding tlvs_loop
tlvs_loop-shorter zero [] n items h e = subst (All (λ item. length item.1 < n)) (ok-injective e) tt
tlvs_loop-shorter zero (b ∷ buf) n items h e = cc
tlvs_loop-shorter (suc fuel) buf n items h e = elim (Result-cases (next_item buf)) [
  | inl (none, read) ↦
      let same : ◌≡◌ {A = Result SelectionError (List (ℕ × Bytes))} (ok []) (ok items) =
        ground arith in
      subst (All (λ item. length item.1 < n)) (ok-injective same) tt
  | inl (some (item, rest), read) ↦
      let (small, less) = next_item-lt buf item rest read in
      let step : (tlvs_loop fuel rest >>= λ items. ok (item ∷ items)) ≡ ok items = ground arith in
      let (more, found, e') = >>=-eq-ok (tlvs_loop fuel rest) (λ items. ok (item ∷ items)) step in
      subst (All (λ item. length item.1 < n)) (ok-injective e')
        (omega arith, tlvs_loop-shorter fuel rest n more (omega arith) found)
  | inr (inl (x, bad)) ↦ absurd (ground arith)
  | inr (inr broken) ↦ absurd (next_item-ne-panic buf broken)
]

pub tlvs-ne-panic : (buf : Bytes) → tlvs buf ≢ panic
unfolding tlvs
tlvs-ne-panic buf = tlvs_loop-ne-panic (length buf) buf (omega arith)

tlvs-shorter :
    (buf : Bytes) (items : List (ℕ × Bytes))
    → tlvs buf ≡ ok items
    → All (λ item. length item.1 < length buf) items
unfolding tlvs
tlvs-shorter buf items e = tlvs_loop-shorter (length buf) buf (length buf) items (omega arith) e

extension_value-ne-panic :
    (oid : Bytes) (tag : ℕ) (content : Bytes) → extension_value oid tag content ≢ panic
unfolding extension_value
extension_value-ne-panic oid tag content = ground (arith, tlvs-ne-panic content)

find_in-ne-panic :
    (nested : Bytes → Result SelectionError (Option Bytes)) (oid : Bytes) (items : List (ℕ × Bytes))
    → All (λ item. nested item.1 ≢ panic) items
    → find_in nested oid items ≢ panic
unfolding find_in
find_in-ne-panic nested oid [] safe = λ p. cc
find_in-ne-panic nested oid ((tag, content) ∷ items) safe = ground (
  arith,
  extension_value-ne-panic oid tag content,
  safe.0,
  find_in-ne-panic nested oid items safe.1,
)

-- A depth above the length of the bytes is enough.
find_extension_within-ne-panic :
    (depth : ℕ) (oid buf : Bytes) → length buf < depth → find_extension_within depth oid buf ≢ panic
unfolding find_extension_within
find_extension_within-ne-panic zero oid buf h = absurd (omega arith)
find_extension_within-ne-panic (suc depth) oid buf h =
    >>=-ne-panic (tlvs buf) _ (tlvs-ne-panic buf) (λ items read.
      find_in-ne-panic (find_extension_within depth oid) oid items (
        All-map (λ (item : ℕ × Bytes). length item.1 < length buf)
          (λ item. find_extension_within depth oid item.1 ≢ panic)
          (λ item small. find_extension_within-ne-panic depth oid item.1 (omega arith)) items
          (tlvs-shorter buf items read)))

pub find_extension-ne-panic : (oid buf : Bytes) → find_extension oid buf ≢ panic
unfolding find_extension
find_extension-ne-panic oid buf =
    find_extension_within-ne-panic (suc (length buf)) oid buf (omega arith)
