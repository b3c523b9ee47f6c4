-- ===== src/Ocsp/Request/Total.antt =====
-- src/ocsp.rs: the outcomes of the readers of requests, and the key of a request.
use pccs_rs.Common.{ℕ, zero, suc, ◌≤◌, ◌≡◌, ◌≢◌, ◌⊎◌, inl, inr, [], ◌∷◌, arith, length}
use pccs_rs.Common.Result.{Result, ok, panic, Result-cases}
use pccs_rs.Common.Text.{Text}
use pccs_rs.Errors.{PccsError}
use pccs_rs.Ocsp.Tlv.{Bytes, Tlv, take_tlv, take_expected}
use pccs_rs.Ocsp.Tlv.Laws.{
  take_tlv-ne-panic, take_expected-ne-panic, parse_single-ne-panic, take_tlv-IsRead,
  take_expected-IsRead,
}
use pccs_rs.Ocsp.Request.{
  take_optional, check_extension, each_sequence, validate_extensions, check_request,
  validate_request_list, check_tail, find_request_list, parse_request,
}

each_sequence-ne-panic :
    (check : Bytes → Result PccsError (Unit {0}))
    → ((fields : Bytes) → check fields ≢ panic)
    → (fuel : ℕ) (items : Bytes) → length items ≤ fuel
    → each_sequence check fuel items ≢ panic
unfolding each_sequence
each_sequence-ne-panic check safe fuel [] h = λ p. cc
each_sequence-ne-panic check safe zero (b ∷ items) h = absurd (omega arith)
each_sequence-ne-panic check safe (suc fuel) (b ∷ items) h = λ p.
    elim (Result-cases (take_expected 0x30 (b ∷ items))) [
      | inr (inl (e, bad)) ↦ ground arith
      | inr (inr broken) ↦ take_expected-ne-panic 0x30 (b ∷ items) broken
      | inl ((item, rest), read) ↦
          let (is_read, _) = take_expected-IsRead 0x30 (b ∷ items) item rest read in
          ground
            (arith, safe item.value, each_sequence-ne-panic check safe fuel rest, is_read.shorter)
    ]

pub take_optional-ne-panic : (tag : ℕ) (fields : Bytes) → take_optional tag fields ≢ panic
unfolding take_optional
take_optional-ne-panic tag fields = ground (arith, take_expected-ne-panic tag fields)

check_extension-ne-panic : (fields : Bytes) → check_extension fields ≢ panic
unfolding check_extension
check_extension-ne-panic fields = grind (arith, take_expected-ne-panic, take_optional-ne-panic)

validate_extensions-ne-panic : (extensions : Bytes) → validate_extensions extensions ≢ panic
unfolding validate_extensions
validate_extensions-ne-panic extensions =
    each_sequence-ne-panic check_extension check_extension-ne-panic (length extensions) extensions
      (omega arith)

check_request-ne-panic : (fields : Bytes) → check_request fields ≢ panic
unfolding check_request
check_request-ne-panic fields = grind (arith, take_expected-ne-panic)

validate_request_list-ne-panic : (list : Bytes) → validate_request_list list ≢ panic
unfolding validate_request_list
validate_request_list-ne-panic [] = λ p. cc
validate_request_list-ne-panic (b ∷ list) =
    each_sequence-ne-panic check_request check_request-ne-panic (length (b ∷ list)) (b ∷ list)
      (omega arith)

check_tail-ne-panic : (fields : Bytes) → check_tail fields ≢ panic
unfolding check_tail
check_tail-ne-panic [] = λ p. cc
check_tail-ne-panic (b ∷ fields) =
    grind (arith, take_expected-ne-panic, parse_single-ne-panic, validate_extensions-ne-panic)

find_request_list-ne-panic :
    (fuel : ℕ) (fields : Bytes) → length fields ≤ fuel → find_request_list fuel fields ≢ panic
unfolding find_request_list
find_request_list-ne-panic fuel [] h = λ p. cc
find_request_list-ne-panic zero (b ∷ fields) h = absurd (omega arith)
find_request_list-ne-panic (suc fuel) (b ∷ fields) h = λ p.
    elim (Result-cases (take_tlv (b ∷ fields))) [
      | inr (inl (e, bad)) ↦ ground arith
      | inr (inr broken) ↦ take_tlv-ne-panic (b ∷ fields) broken
      | inl ((field, rest), read) ↦
          let is_read = take_tlv-IsRead (b ∷ fields) field rest read in
          ground (
            arith,
            validate_request_list-ne-panic field.value,
            check_tail-ne-panic rest,
            find_request_list-ne-panic fuel rest,
            is_read.shorter,
          )
    ]

-- The fields from the request list on: those before it are items with a version's or a name's tag.
pub data IsBehind : Bytes → Bytes → Type 0 where
  here : (fields : Bytes) → IsBehind fields fields
  behind_item :
      (fields list rest : Bytes) (item : Tlv)
      → take_tlv fields ≡ ok (item, rest)
      → (item.tag ≡ 0xA0) ⊎ (item.tag ≡ 0xA1)
      → IsBehind rest list
      → IsBehind fields list

-- The bytes of the first SEQUENCE among the fields, read behind the version and the requestor's name,
-- whose contents are a well-formed list of requests.
pub record IsRequestList (fields list : Bytes) : Type 0 where
  pub before : Bytes
  pub part : IsBehind fields before
  pub field : Tlv
  pub behind : Bytes
  pub read : take_tlv before ≡ ok (field, behind)
  pub sequence : field.tag ≡ 0x30
  pub checked : validate_request_list field.value ≡ ok tt
  pub tail : check_tail behind ≡ ok tt
  pub bytes : list ≡ field.raw

module _ (sha256_hex : Bytes → Text) where
  -- No request makes the reader panic: every slice it takes is in range and every loop over its fields
  -- ends.
  pub parse_request-ne-panic : (request : Bytes) → parse_request sha256_hex request ≢ panic
  unfolding parse_request
  parse_request-ne-panic request =
      let safe : (fields : Bytes) → find_request_list (length fields) fields ≢ panic =
        λ fields. find_request_list-ne-panic (length fields) fields (omega arith) in
      grind (arith, parse_single-ne-panic, take_expected-ne-panic, safe)
