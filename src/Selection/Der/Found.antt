-- ===== src/Selection/Der/Found.antt =====
-- src/selection.rs: what `find_extension` finds.
use pccs_rs.Common.{
  ℕ, zero, suc, ◌≡◌, ◌⊎◌, refl, List, [], ◌∷◌, Option, none, some, true, arith, In, if◌then◌else◌,
  ◌==◌, ◌∙◌, Option-cases, Bool-cases, inl, inr,
}
use pccs_rs.Common.Result.{Result, ok, >>=-eq-ok, Result-cases}
use pccs_rs.Common.Text.{text_eq_iff}
use pccs_rs.Selection.Error.{SelectionError}
use pccs_rs.Selection.Der.{
  Bytes, tlvs, is_constructed, extension_value, find_in, find_extension_within, last, octet_string,
  starts_with_oid,
}

-- An item that is the extension: a SEQUENCE with the OID as its first part and an OCTET STRING as its
-- last.
pub data IsExtension (oid : Bytes) : ℕ × Bytes → Bytes → Type 0 where
  sequence :
      (content value : Bytes) (x : ℕ × Bytes) (kids : List (ℕ × Bytes))
      → tlvs content ≡ ok ((0x06, oid) ∷ x ∷ kids)
      → last (x ∷ kids) ≡ some (0x04, value)
      → IsExtension oid (0x30, content) value

-- The value of an extension somewhere in the bytes, through constructed items.
pub data Holds (oid : Bytes) : Bytes → Bytes → Type 0 where
  here :
      (buf : Bytes) (items : List (ℕ × Bytes)) (item : ℕ × Bytes) (value : Bytes)
      → tlvs buf ≡ ok items
      → In item items
      → IsExtension oid item value
      → Holds oid buf value
  inside :
      (buf : Bytes) (items : List (ℕ × Bytes)) (item : ℕ × Bytes) (value : Bytes)
      → tlvs buf ≡ ok items
      → In item items
      → is_constructed item.0 ≡ true
      → Holds oid item.1 value
      → Holds oid buf value

-- The parts of an extension: its tests have passed.
parts-IsExtension :
    (oid content value : Bytes) (kids : List (ℕ × Bytes))
    → tlvs content ≡ ok kids
    → (if starts_with_oid oid kids then octet_string (last kids) else none) ≡ some value
    → IsExtension oid (0x30, content) value
parts-IsExtension oid content value [] read e = cc
parts-IsExtension oid content value (x ∷ []) read e = cc
parts-IsExtension oid content value ((t, c) ∷ y ∷ kids) read e =
    elim (Option-cases (last (y ∷ kids))) [
      | inl out ↦ absurd (ground arith)
      | inr ((u, v), end) ↦
          let tag : t ≡ 0x06 = ground arith in
          let same : c ≡ oid = (text_eq_iff c oid).0 (ground arith) in
          let octets : u ≡ 0x04 = ground arith in
          let found : v ≡ value = ground arith in
          sequence content value y kids (read ∙ rw (tag, same) refl) (end ∙ rw (octets, found) refl)
    ]

extension_value_sound :
    (oid : Bytes) (tag : ℕ) (content value : Bytes)
    → extension_value oid tag content ≡ ok (some value)
    → IsExtension oid (tag, content) value
unfolding extension_value
extension_value_sound oid tag content value e = elim (Bool-cases (tag == 0x30)) [
  | inr other ↦ absurd (ground arith)
  | inl same ↦ elim (Result-cases (tlvs content)) [
    | inr (inl (x, bad)) ↦ absurd (ground arith)
    | inr (inr broken) ↦ absurd (ground arith)
    | inl (kids, read) ↦
        let tag_is : tag ≡ 0x30 = ground arith in
        rw tag_is (parts-IsExtension oid content value kids read (ground arith))
  ]
]

extension_value_complete :
    (oid : Bytes) (item : ℕ × Bytes) (value : Bytes)
    → extension_value oid item.0 item.1 ≡ ok none
    → ¬ IsExtension oid item value
unfolding extension_value
extension_value_complete oid _ _ e (sequence content value x kids read end) =
    let same = (text_eq_iff oid oid).1 refl in ground (arith, read, end, same)

-- Where the loop finds a value among the items.
Found : Bytes → List (ℕ × Bytes) → Bytes → Type 0
Found oid items value =
    (item : ℕ × Bytes) × In item items
    × (IsExtension oid item value ⊎ ((is_constructed item.0 ≡ true) × Holds oid item.1 value))

module _ (nested : Bytes → Result SelectionError (Option Bytes)) (oid : Bytes) where
  find_in_sound :
      ((content value : Bytes) → nested content ≡ ok (some value) → Holds oid content value)
      → (items : List (ℕ × Bytes)) (value : Bytes) → find_in nested oid items ≡ ok (some value)
      → Found oid items value
  unfolding find_in Found
  find_in_sound deep [] value e = cc
  find_in_sound deep ((tag, content) ∷ items) value e =
      let later = find_in_sound deep items value in
      elim (Result-cases (extension_value oid tag content)) [
        | inr (inl (x, bad)) ↦ absurd (ground arith)
        | inr (inr broken) ↦ absurd (ground arith)
        | inl (some v, read) ↦
            let same : v ≡ value = ground arith in
            (
              (tag, content),
              inl refl,
              inl (extension_value_sound oid tag content value (read ∙ rw same refl)),
            )
        | inl (none, read) ↦ elim (Bool-cases (is_constructed tag)) [
          | inr plain ↦ let (item, m, found) = later (ground arith) in (item, inr m, found)
          | inl constructed ↦ elim (Result-cases (nested content)) [
            | inr (inl (x, bad)) ↦ absurd (ground arith)
            | inr (inr broken) ↦ absurd (ground arith)
            | inl (none, went) ↦ let (item, m, found) = later (ground arith) in (item, inr m, found)
            | inl (some v, went) ↦
                let same : v ≡ value = ground arith in
                (
                  (tag, content),
                  inl refl,
                  inr (constructed, deep content value (went ∙ rw same refl)),
                )
          ]
        ]
      ]

  find_in_complete :
      (items : List (ℕ × Bytes)) (item : ℕ × Bytes)
      → find_in nested oid items ≡ ok none
      → In item items
      → (extension_value oid item.0 item.1 ≡ ok none)
        × (is_constructed item.0 ≡ true → nested item.1 ≡ ok none)
  unfolding find_in
  find_in_complete [] item e m = absurd m
  find_in_complete ((tag, content) ∷ items) item e (inl same) = rw same (ground arith, ground arith)
  find_in_complete ((tag, content) ∷ items) item e (inr m) =
      find_in_complete items item (ground arith) m

pub find_extension_within_sound :
    (depth : ℕ) (oid buf value : Bytes)
    → find_extension_within depth oid buf ≡ ok (some value)
    → Holds oid buf value
unfolding find_extension_within Found
find_extension_within_sound zero oid buf value e = cc
find_extension_within_sound (suc depth) oid buf value e =
    let (items, read, e') =
      >>=-eq-ok (tlvs buf) (find_in (find_extension_within depth oid) oid) e in
    let (item, m, found) =
      find_in_sound (find_extension_within depth oid) oid (find_extension_within_sound depth oid)
        items value e' in
    elim found [
      | inl ext ↦ here buf items item value read m ext
      | inr (constructed, deep) ↦ inside buf items item value read m constructed deep
    ]

pub find_extension_within_complete :
    (depth : ℕ) (oid buf value : Bytes)
    → find_extension_within depth oid buf ≡ ok none
    → ¬ Holds oid buf value
unfolding find_extension_within
find_extension_within_complete zero oid buf value e h = cc
find_extension_within_complete (suc depth) oid buf value e (here _ items item _ read m ext) =
    let search : find_in (find_extension_within depth oid) oid items ≡ ok none =
      ground (arith, read, e) in
    extension_value_complete oid item value
      (find_in_complete (find_extension_within depth oid) oid items item search m).0 ext
find_extension_within_complete (suc depth) oid buf value e
      (inside _ items item _ read m constructed deep) =
    let search : find_in (find_extension_within depth oid) oid items ≡ ok none =
      ground (arith, read, e) in
    let (_, went) = find_in_complete (find_extension_within depth oid) oid items item search m in
    find_extension_within_complete depth oid item.1 value (went constructed) deep
