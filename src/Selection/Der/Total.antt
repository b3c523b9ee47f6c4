-- ===== src/Selection/Der/Total.antt =====
-- src/selection.rs: `tlvs` and `find_extension` report no error; malformed bytes end their loops.
use pccs_rs.Common.{
  ℕ, zero, suc, ◌≡◌, ◌≢◌, ◌⊎◌, List, [], ◌∷◌, Option, none, some, arith, inl, inr, length,
}
use pccs_rs.Common.Result.{Result, ok, err, panic, ◌>>=◌, Result-cases}
use pccs_rs.Selection.Error.{SelectionError}
use pccs_rs.Selection.Der.{
  Bytes, tlv_length, next_item, tlvs_loop, tlvs, extension_value, find_in, find_extension_within,
  find_extension,
}
use pccs_rs.Selection.Der.Laws.{find_extension-ne-panic}
use pccs_rs.Selection.Der.Found.{Holds, find_extension_within_sound, find_extension_within_complete}

module _ (e : SelectionError) where
  >>=-ne-err :
      {A B : Type 0} (m : Result SelectionError A) (f : A → Result SelectionError B)
      → m ≢ err e
      → ((a : A) → f a ≢ err e)
      → (m >>= f) ≢ err e
  >>=-ne-err (ok a) f h k = k a
  >>=-ne-err (err x) f h k = λ p. h (ground arith)
  >>=-ne-err panic f h k = λ p. cc

  tlv_length-ne-err : (first : ℕ) (body : Bytes) → tlv_length first body ≢ err e
  unfolding tlv_length
  tlv_length-ne-err first body = ground arith

  next_item-ne-err : (buf : Bytes) → next_item buf ≢ err e
  unfolding next_item
  next_item-ne-err [] = λ p. cc
  next_item-ne-err (tag ∷ []) = λ p. cc
  next_item-ne-err (tag ∷ first ∷ body) = ground (arith, tlv_length-ne-err first body)

  tlvs_loop-ne-err : (fuel : ℕ) (buf : Bytes) → tlvs_loop fuel buf ≢ err e
  unfolding tlvs_loop
  tlvs_loop-ne-err zero [] = λ p. cc
  tlvs_loop-ne-err zero (b ∷ buf) = λ p. cc
  tlvs_loop-ne-err (suc fuel) buf = grind (arith, next_item-ne-err, tlvs_loop-ne-err fuel)

  tlvs-ne-err : (buf : Bytes) → tlvs buf ≢ err e
  unfolding tlvs
  tlvs-ne-err buf = tlvs_loop-ne-err (length buf) buf

  extension_value-ne-err :
      (oid : Bytes) (tag : ℕ) (content : Bytes) → extension_value oid tag content ≢ err e
  unfolding extension_value
  extension_value-ne-err oid tag content = ground (arith, tlvs-ne-err content)

  find_in-ne-err :
      (nested : Bytes → Result SelectionError (Option Bytes)) (oid : Bytes)
      (items : List (ℕ × Bytes))
      → ((content : Bytes) → nested content ≢ err e)
      → find_in nested oid items ≢ err e
  unfolding find_in
  find_in-ne-err nested oid [] safe = λ p. cc
  find_in-ne-err nested oid ((tag, content) ∷ items) safe = ground (
    arith,
    extension_value-ne-err oid tag content,
    safe content,
    find_in-ne-err nested oid items safe,
  )

  find_extension_within-ne-err :
      (depth : ℕ) (oid buf : Bytes) → find_extension_within depth oid buf ≢ err e
  unfolding find_extension_within
  find_extension_within-ne-err zero oid buf = λ p. cc
  find_extension_within-ne-err (suc depth) oid buf =
      >>=-ne-err (tlvs buf) _ (tlvs-ne-err buf) (λ items.
        find_in-ne-err (find_extension_within depth oid) oid items
          (find_extension_within-ne-err depth oid))

-- The search always ends, with no error: it returns the value of an extension with the OID that stands
-- somewhere in the bytes, through constructed items, or it finds none and then there is none.
pub find_extension_cases :
    (oid buf : Bytes)
    → ((value : Bytes) × (find_extension oid buf ≡ ok (some value)) × Holds oid buf value)
      ⊎ ((find_extension oid buf ≡ ok none) × ((value : Bytes) → ¬ Holds oid buf value))
unfolding find_extension
find_extension_cases oid buf = elim (Result-cases (find_extension oid buf)) [
  | inl (some value, found) ↦
      inl (value, found, find_extension_within_sound (suc (length buf)) oid buf value found)
  | inl (none, out) ↦
      inr (out, λ value. find_extension_within_complete (suc (length buf)) oid buf value out)
  | inr (inl (e, bad)) ↦ absurd (find_extension_within-ne-err e (suc (length buf)) oid buf bad)
  | inr (inr broken) ↦ absurd (find_extension-ne-panic oid buf broken)
]
