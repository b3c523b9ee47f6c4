-- ===== src/Ocsp/Response.antt =====
-- src/ocsp.rs: `response_validity` and `response_cache_expiry`.
pub mod Expiry
pub mod Total
pub mod Deadline
use pccs_rs.Common.{
  ℕ, zero, suc, ◌+◌, ◌^◌, Bool, true, false, not, ◌&&◌, ◌||◌, List, [], ◌∷◌, Option, none, some,
  ltb, leb, ◌==◌, if◌then◌else◌, length, is_empty, bit_and,
}
use pccs_rs.Common.Result.{Result, ok, err, panic, ◌>>=◌, ◌>>◌, guard, ok_or}
use pccs_rs.Common.Text.{Text, text_eq}
use pccs_rs.Common.Int.{ℤ, pos, negsuc, checked_add, saturating_add, min_ℤ, ltb_ℤ, leb_ℤ}
use pccs_rs.Errors.{PccsError, invalid_req, internal_error}
use pccs_rs.Ocsp.Tlv.{Bytes, Tlv, take_tlv, take_expected, parse_single, has_tag}
use pccs_rs.Ocsp.Request.{take_optional}

pub record ResponseValidity : Type 0 where
  pub this_update : ℤ
  pub next_update : Option ℤ
  pub unknown : Bool

abbrev cert_status_unknown : ℕ
cert_status_unknown = 0x82

-- 1.3.6.1.5.5.7.48.1.1
abbrev oid_ocsp_basic : Bytes
oid_ocsp_basic = 0x2B ∷ 0x06 ∷ 0x01 ∷ 0x05 ∷ 0x05 ∷ 0x07 ∷ 0x30 ∷ 0x01 ∷ 0x01 ∷ []

-- The time parsers of the `chrono` package on the bytes of a text: the formats without an offset, and
-- those with one, in the order in which they are tried. A text that is no UTF-8 is refused by both.
pub record TimeParser : Type 0 where
  pub naive_seconds : Bytes → Option ℤ
  pub naive_fraction : Bytes → Option ℤ
  pub offset_seconds : Bytes → Option ℤ
  pub offset_fraction : Bytes → Option ℤ

abbrev or_else : Option ℤ → Option ℤ → Option ℤ
or_else (some t) later = some t
or_else none later = later

-- What may stand behind the last field: nothing, or one item with the tag and nothing else.
unfoldable pub at_most_one : ℕ → Bytes → Result PccsError (Unit {0})
at_most_one tag [] = ok tt
at_most_one tag (b ∷ fields) = do
  (_, rest) ← take_expected tag (b ∷ fields)
  guard (is_empty rest) invalid_req

unfoldable pub check_certs : Bytes → Result PccsError (Unit {0})
check_certs [] = ok tt
check_certs (b ∷ fields) = do
  (certs, rest) ← take_expected 0xA0 (b ∷ fields)
  inner ← parse_single 0x30 certs.value
  guard (is_empty rest) invalid_req

-- `tag & 0xc0 != 0x80 || !matches!(tag & 0x1f, 1 | 2)` refuses.
unfoldable pub is_responder_id : ℕ → Bool
is_responder_id tag = bit_and tag 0xC0 == 0x80 && (bit_and tag 0x1F == 1 || bit_and tag 0x1F == 2)

module _ (T : TimeParser) where
  open T use {naive_seconds, naive_fraction, offset_seconds, offset_fraction}

  unfoldable pub parse_generalized_time : Bytes → Result PccsError ℤ
  parse_generalized_time value =
      ok_or
        (or_else (naive_seconds value)
          (or_else (naive_fraction value) (or_else (offset_seconds value) (offset_fraction value))))
        invalid_req

  unfoldable pub read_next_update : Bytes → Result PccsError (Option ℤ × Bytes)
  unfolding parse_generalized_time
  read_next_update fields = elim (has_tag 0xA0 fields) [
    | false ↦ ok (none, fields)
    | true ↦ do
      (explicit, rest) ← take_expected 0xA0 fields
      value ← parse_single 0x18 explicit.value
      t ← parse_generalized_time value.value
      ok (some t, rest)
  ]

  -- One SingleResponse.
  unfoldable pub read_single : Bytes → Result PccsError ResponseValidity
  unfolding read_next_update parse_generalized_time at_most_one
  read_single fields = do
    (_, fields1) ← take_expected 0x30 fields
    (cert_status, fields2) ← take_tlv fields1
    guard (bit_and cert_status.tag 0xC0 == 0x80) invalid_req
    (time, fields3) ← take_expected 0x18 fields2
    this_update ← parse_generalized_time time.value
    (next_update, fields4) ← read_next_update fields3
    at_most_one 0xA1 fields4
    ok (record {
      this_update = this_update;
      next_update = next_update;
      unknown = cert_status.tag == cert_status_unknown;
    })

  -- The loop over the responses, with a bound on its rounds.
  unfoldable pub read_singles : ℕ → Bytes → Result PccsError (List ResponseValidity)
  unfolding read_single
  read_singles fuel [] = ok []
  read_singles zero (b ∷ singles) = panic
  read_singles (suc fuel) (b ∷ singles) = do
    (single, rest) ← take_expected 0x30 (b ∷ singles)
    v ← read_single single.value
    vs ← read_singles fuel rest
    ok (v ∷ vs)

  -- The fields of ResponseData.
  unfoldable pub read_response_data : Bytes → Result PccsError (List ResponseValidity)
  unfolding read_singles is_responder_id take_optional
  read_response_data fields = do
    fields1 ← take_optional 0xA0 fields
    (responder_id, fields2) ← take_tlv fields1
    guard (is_responder_id responder_id.tag) invalid_req
    (_, fields3) ← take_expected 0x18 fields2
    (responses, _) ← take_expected 0x30 fields3
    validity ← read_singles (length responses.value) responses.value
    guard (not (is_empty validity)) invalid_req
    ok validity

  -- The fields of BasicOCSPResponse.
  unfoldable pub read_basic : Bytes → Result PccsError (List ResponseValidity)
  unfolding read_response_data check_certs
  read_basic fields = do
    (response_data, fields1) ← take_expected 0x30 fields
    (_, fields2) ← take_expected 0x30 fields1
    (_, fields3) ← take_expected 0x03 fields2
    check_certs fields3
    read_response_data response_data.value

  -- The fields of ResponseBytes.
  unfoldable pub read_response_bytes : Bytes → Result PccsError (List ResponseValidity)
  unfolding read_basic
  read_response_bytes fields = do
    (response_type, fields1) ← take_expected 0x06 fields
    guard (text_eq response_type.value oid_ocsp_basic) invalid_req
    (basic_der, _) ← take_expected 0x04 fields1
    basic ← parse_single 0x30 basic_der.value
    read_basic basic.value

  unfoldable pub response_validity : Bytes → Result PccsError (List ResponseValidity)
  unfolding read_response_bytes
  response_validity response = do
    outer ← parse_single 0x30 response
    (status, fields) ← take_expected 0x0A outer.value
    guard (text_eq status.value (0 ∷ [])) invalid_req
    (tagged, _) ← take_expected 0xA0 fields
    response_bytes ← parse_single 0x30 tagged.value
    read_response_bytes response_bytes.value

  -- `i64::try_from` of a `u64`.
  abbrev pub to_i64 : ℕ → Option ℤ
  to_i64 n = if ltb n (2 ^ 63) then some (pos n) else none

  abbrev to_u64 : ℤ → Option ℕ
  to_u64 (pos n) = some n
  to_u64 (negsuc n) = none

  abbrev signed_expiry : ℤ → ResponseValidity → ℤ
  signed_expiry default_ttl item = elim item.next_update [
    | some t ↦ t
    | none ↦ saturating_add item.this_update default_ttl
  ]

  -- The loop over the responses; `expires_at` is the least deadline so far.
  unfoldable pub earliest : ℤ → ℤ → ℤ → List ResponseValidity → Result PccsError ℤ
  earliest now default_ttl expires_at [] = ok expires_at
  earliest now default_ttl expires_at (item ∷ validity) = do
    guard (not item.unknown) invalid_req
    guard (not (ltb_ℤ now item.this_update)) invalid_req
    earliest now default_ttl (min_ℤ expires_at (signed_expiry default_ttl item)) validity

  unfoldable pub response_cache_expiry : Bytes → ℤ → ℕ → ℕ → Result PccsError ℕ
  unfolding response_validity earliest checked_add
  response_cache_expiry response now max_ttl_seconds default_ttl_seconds = do
    validity ← response_validity response
    default_ttl ← ok_or (to_i64 default_ttl_seconds) internal_error
    max_ttl ← ok_or (to_i64 max_ttl_seconds) internal_error
    limit ← ok_or (checked_add now max_ttl) internal_error
    expires_at ← earliest now default_ttl limit validity
    guard (not (leb_ℤ expires_at now)) invalid_req
    ok_or (to_u64 expires_at) internal_error
