-- ===== src/Ocsp/Request.antt =====
-- src/ocsp.rs: `parse_request`.
pub mod Total
use pccs_rs.Common.{
  ℕ, zero, suc, ◌+◌, Bool, true, false, not, ◌&&◌, ◌||◌, List, [], ◌∷◌, Option, none, some, ltb,
  ◌==◌, if◌then◌else◌, length, is_empty,
}
use pccs_rs.Common.Result.{Result, ok, err, panic, ◌>>=◌, ◌>>◌, guard}
use pccs_rs.Common.Text.{Text}
use pccs_rs.Errors.{PccsError, invalid_req, internal_error}
use pccs_rs.Ocsp.Tlv.{Bytes, Tlv, take_tlv, take_expected, parse_single, has_tag}

-- `peek_tag(fields) == Some(tag)` and the item taken then.
unfoldable pub take_optional : ℕ → Bytes → Result PccsError Bytes
take_optional tag fields =
    if has_tag tag fields then (do (tlv, rest) ← take_expected tag fields; ok rest) else ok fields

-- One extension: its OID, `critical` if it is there, and its value.
unfoldable pub check_extension : Bytes → Result PccsError (Unit {0})
unfolding take_optional
check_extension fields = do
  (oid, fields1) ← take_expected 0x06 fields
  fields2 ← take_optional 0x01 fields1
  (value, fields3) ← take_expected 0x04 fields2
  guard (is_empty fields3) invalid_req

-- `while !items.is_empty() { … }`: each item is a SEQUENCE whose contents pass the check. The bound on
-- the rounds is the number of bytes.
unfoldable pub each_sequence :
    (Bytes → Result PccsError (Unit {0})) → ℕ → Bytes → Result PccsError (Unit {0})
each_sequence check fuel [] = ok tt
each_sequence check zero (b ∷ items) = panic
each_sequence check (suc fuel) (b ∷ items) = do
  (item, rest) ← take_expected 0x30 (b ∷ items)
  check item.value
  each_sequence check fuel rest

unfoldable pub validate_extensions : Bytes → Result PccsError (Unit {0})
unfolding check_extension each_sequence
validate_extensions extensions = each_sequence check_extension (length extensions) extensions

-- One request of the list: a CertID, and at most one extension field behind it.
unfoldable pub check_request : Bytes → Result PccsError (Unit {0})
check_request fields = do
  (cert_id, fields1) ← take_expected 0x30 fields
  elim (is_empty fields1) [
    | true ↦ ok tt
    | false ↦ do
      (extension, fields2) ← take_expected 0xA0 fields1
      guard (is_empty fields2) invalid_req
  ]

unfoldable pub validate_request_list : Bytes → Result PccsError (Unit {0})
unfolding check_request each_sequence
validate_request_list [] = err invalid_req
validate_request_list (b ∷ request_list) =
    each_sequence check_request (length (b ∷ request_list)) (b ∷ request_list)

-- What may stand behind the request list: `requestExtensions`, or nothing.
unfoldable pub check_tail : Bytes → Result PccsError (Unit {0})
check_tail [] = ok tt
check_tail (b ∷ fields) = do
  (extensions, rest) ← take_expected 0xA2 (b ∷ fields)
  inner ← parse_single 0x30 extensions.value
  validate_extensions inner.value
  guard (is_empty rest) invalid_req

-- The loop over the fields of the TBS request: the request list's bytes, once everything is checked.
unfoldable pub find_request_list : ℕ → Bytes → Result PccsError Bytes
find_request_list fuel [] = err invalid_req
find_request_list zero (b ∷ fields) = panic
find_request_list (suc fuel) (b ∷ fields) = do
  (field, rest) ← take_tlv (b ∷ fields)
  let next = find_request_list fuel rest
  if field.tag == 0xA0 || field.tag == 0xA1
      then next
      else if field.tag == 0x30
      then (do validate_request_list field.value; check_tail rest; ok field.raw)
      else err invalid_req

-- The digest of the `sha2` package, as the hexadecimal text of its value, is the parameter.
module _ (sha256_hex : Bytes → Text) where
  unfoldable pub parse_request : Bytes → Result PccsError Text
  unfolding find_request_list validate_request_list check_tail validate_extensions
  parse_request request = do
    outer ← parse_single 0x30 request
    (tbs, _) ← take_expected 0x30 outer.value
    list ← find_request_list (length tbs.value) tbs.value
    ok (sha256_hex list)
