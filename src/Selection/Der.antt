-- ===== src/Selection/Der.antt =====
-- src/selection.rs: the reader of DER type-length-value items.
pub mod Laws
pub mod Encoded
pub mod Found
pub mod Total
use pccs_rs.Common.{
  ℕ, zero, suc, ◌+◌, ◌*◌, Bool, true, false, not, ◌&&◌, ◌||◌, List, [], ◌∷◌, Option, none, some,
  ltb, leb, ◌==◌, if◌then◌else◌, length, take, drop, bit_and,
}
use pccs_rs.Common.Result.{Result, ok, panic, ◌>>=◌}
use pccs_rs.Common.Slice.{slice_to, slice_from}
use pccs_rs.Common.Text.{text_eq}
use pccs_rs.Selection.Error.{SelectionError}

abbrev pub Bytes : Type 0
Bytes = List ℕ

-- `v = (v << 8) | b` over the bytes; at most five of them, so nothing is shifted out of a `u64`.
unfoldable pub big_endian : ℕ → Bytes → ℕ
big_endian v [] = v
big_endian v (b ∷ bs) = big_endian (v * 256 + b) bs

-- The length and the header's size of the item that `buf` begins with; `none` where the loop breaks.
-- `body` is what stands behind the first two bytes.
unfoldable pub tlv_length : ℕ → Bytes → Result SelectionError (Option (ℕ × ℕ))
unfolding big_endian
tlv_length first body =
    if ltb first 0x80
    then ok (some (first, 2))
    else (let n = bit_and first 0x7F in
        if n == 0 || ltb 4 n || ltb (2 + length body) (2 + n)
        then ok none
        else (do digits ← slice_to n body; ok (some (big_endian 0 digits, 2 + n))))

-- One round of the loop of `tlvs`, where `buf` is what stands at the index `i` and behind it: the
-- item pushed and the bytes behind it, or `none` where the loop ends.
unfoldable pub next_item : Bytes → Result SelectionError (Option ((ℕ × Bytes) × Bytes))
unfolding tlv_length
next_item [] = ok none
next_item (tag ∷ []) = ok none
next_item (tag ∷ first ∷ body) = if bit_and tag 0x1F == 0x1F then ok none else (do
  sizes ← tlv_length first body
  elim sizes [
    | none ↦ ok none
    | some (len, hdr) ↦ if ltb (2 + length body) (hdr + len) then ok none else (do
      item ← slice_to (hdr + len) (tag ∷ first ∷ body)
      content ← slice_from hdr item
      ok (some ((tag, content), drop (hdr + len) (tag ∷ first ∷ body))))
  ])

-- The loop, with a bound on its rounds.
unfoldable pub tlvs_loop : ℕ → Bytes → Result SelectionError (List (ℕ × Bytes))
tlvs_loop zero [] = ok []
tlvs_loop zero (b ∷ buf) = panic
tlvs_loop (suc fuel) buf = do
  next ← next_item buf
  elim next [ none ↦ ok [] | some (item, rest) ↦ do items ← tlvs_loop fuel rest; ok (item ∷ items) ]

unfoldable pub tlvs : Bytes → Result SelectionError (List (ℕ × Bytes))
unfolding tlvs_loop next_item
tlvs buf = tlvs_loop (length buf) buf

unfoldable pub is_constructed : ℕ → Bool
is_constructed tag = not (bit_and tag 0x20 == 0)

abbrev pub last : List (ℕ × Bytes) → Option (ℕ × Bytes)
last [] = none
last (x ∷ []) = some x
last (x ∷ y ∷ xs) = last (y ∷ xs)

-- `Some(&(0x04, value))`.
abbrev pub octet_string : Option (ℕ × Bytes) → Option Bytes
octet_string none = none
octet_string (some (tag, value)) = if tag == 0x04 then some value else none

abbrev pub starts_with_oid : Bytes → List (ℕ × Bytes) → Bool
starts_with_oid oid [] = false
starts_with_oid oid (x ∷ []) = false
starts_with_oid oid ((tag, content) ∷ y ∷ kids) = tag == 0x06 && text_eq content oid

-- The value of an item that is itself the extension `oid`.
unfoldable pub extension_value : Bytes → ℕ → Bytes → Result SelectionError (Option Bytes)
unfolding tlvs
extension_value oid tag content =
    if tag == 0x30
    then (do
      kids ← tlvs content
      ok (if starts_with_oid oid kids then octet_string (last kids) else none))
    else ok none

-- The loop of `find_extension` over the items, with its recursive call as `nested`.
unfoldable pub find_in :
    (Bytes → Result SelectionError (Option Bytes))
    → Bytes
    → List (ℕ × Bytes)
    → Result SelectionError (Option Bytes)
find_in nested oid [] = ok none
find_in nested oid ((tag, content) ∷ items) = do
  here ← extension_value oid tag content
  elim here [
    | some value ↦ ok (some value)
    | none ↦ elim (is_constructed tag) [
      | false ↦ find_in nested oid items
      | true ↦ do
        inside ← nested content
        elim inside [ some found ↦ ok (some found) | none ↦ find_in nested oid items ]
    ]
  ]

-- The recursion on nested items, with a bound on its depth.
unfoldable pub find_extension_within : ℕ → Bytes → Bytes → Result SelectionError (Option Bytes)
unfolding find_in tlvs extension_value is_constructed
find_extension_within zero oid buf = panic
find_extension_within (suc depth) oid buf = do
  items ← tlvs buf
  find_in (find_extension_within depth oid) oid items

unfoldable pub find_extension : Bytes → Bytes → Result SelectionError (Option Bytes)
unfolding find_extension_within
find_extension oid buf = find_extension_within (suc (length buf)) oid buf

-- `der_int`: no sign, at most five bytes, and a value of 32 bits.
unfoldable pub der_int : Bytes → Option ℕ
unfolding big_endian
der_int [] = none
der_int (b ∷ bs) =
    if ltb 5 (suc (length bs)) || not (bit_and b 0x80 == 0)
    then none
    else (let v = big_endian 0 (b ∷ bs) in if ltb v 4294967296 then some v else none)
