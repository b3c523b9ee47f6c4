-- ===== src/Tests/OcspExamples.antt =====
-- The theorems of the OCSP readers, of the digest and of the keys at concrete inputs.
use pccs_rs.Common.{
  map, ◌↔◌, false, ◌≡◌, ◌≢◌, refl, List, [], ◌∷◌, ◌++◌, Option, none, some, arith, All, replicate,
}
use pccs_rs.Common.Result.{ok, panic}
use pccs_rs.Common.Text.{encode_upper, codes, to_ascii_lowercase}
use pccs_rs.Common.Int.{ℤ, pos, ◌+ℤ◌, ◌<ℤ◌, ◌≤ℤ◌, checked_add}
use pccs_rs.Ocsp.Tlv.{
  Bytes, Tlv, take_tlv, take_expected, parse_single, header, length_value, has_tag,
}
use pccs_rs.Ocsp.Tlv.Laws.{IsRead, take_tlv-IsRead, take_tlv-encoded, long}
use pccs_rs.Common.BigEndian.{be_value}
use pccs_rs.Ocsp.Request.{
  parse_request, find_request_list, validate_request_list, check_tail, validate_extensions,
  check_request, each_sequence, take_optional, check_extension,
}
use pccs_rs.Ocsp.Request.Total.{parse_request-ne-panic}
use pccs_rs.Ocsp.Response.{
  ResponseValidity, TimeParser, response_validity, response_cache_expiry, read_basic,
  read_response_data, read_singles, read_single, check_certs, at_most_one, is_responder_id,
  parse_generalized_time, read_next_update, earliest,
}
use pccs_rs.Ocsp.Response.Expiry.{response_cache_expiry_sound, Allows}
use pccs_rs.Ocsp.Response.Total.{response_cache_expiry-ne-panic}
use pccs_rs.Ocsp.Response.Deadline.{response_cache_expiry-eq-least}
use pccs_rs.Keys.{join_lower}
use pccs_rs.Keys.Parts.{join_lower_iff}
use pccs_rs.Hash.{city_hash_128}
use pccs_rs.Hash.Bounds.{city_hash_128-ne-none}
use pccs_rs.Tests.Sample.{der}

unfoldable pub readers : Unit {0}
unfolding take_tlv take_expected parse_single header length_value has_tag parse_request
    find_request_list validate_request_list check_tail validate_extensions check_request
    each_sequence take_optional check_extension response_validity response_cache_expiry read_basic
    read_response_data read_singles read_single check_certs at_most_one is_responder_id
    parse_generalized_time read_next_update earliest checked_add
readers = tt

abbrev number_item : Bytes
number_item = 2 ∷ 1 ∷ 7 ∷ 5 ∷ 0 ∷ []

take_tlv-IsRead_example :
    IsRead number_item (record { tag = 2; value = 7 ∷ []; raw = 2 ∷ 1 ∷ 7 ∷ [] }) (5 ∷ 0 ∷ [])
unfolding readers
take_tlv-IsRead_example =
    take_tlv-IsRead number_item (record { tag = 2; value = 7 ∷ []; raw = 2 ∷ 1 ∷ 7 ∷ [] })
      (5 ∷ 0 ∷ []) refl

-- A length of two bytes.
abbrev long_value : Bytes
long_value = replicate 300 7

take_tlv-encoded_example :
    take_tlv (4 ∷ ((130 ∷ 1 ∷ 44 ∷ []) ++ (long_value ++ (5 ∷ 0 ∷ []))))
    ≡ ok (
      record { tag = 4; value = long_value; raw = 4 ∷ ((130 ∷ 1 ∷ 44 ∷ []) ++ long_value) },
      5 ∷ 0 ∷ [],
    )
unfolding be_value
take_tlv-encoded_example =
    take_tlv-encoded 4 (130 ∷ 1 ∷ 44 ∷ []) long_value (5 ∷ 0 ∷ []) refl
      (long 1 (44 ∷ []) (λ p. absurd (omega arith)) (omega arith) refl (omega arith)) (omega arith)

-- One request: its certificate's identifier with no extension.
abbrev one_request : Bytes
one_request = der 0x30 (der 0x30 (der 0x04 (1 ∷ 2 ∷ [])))

abbrev whole_request : Bytes
whole_request = der 0x30 (der 0x30 (der 0x30 one_request))

parse_request-ne-panic_example : parse_request encode_upper whole_request ≢ panic
parse_request-ne-panic_example = parse_request-ne-panic encode_upper whole_request

-- A stand-in for the time parsers: a time is its first byte.
abbrev pub first_byte : Bytes → Option ℤ
first_byte [] = none
first_byte (b ∷ bs) = some (pos b)

abbrev pub times : TimeParser
times = record {
  naive_seconds = first_byte;
  naive_fraction = first_byte;
  offset_seconds = first_byte;
  offset_fraction = first_byte;
}

-- A basic response that is good from 10 until 50.
abbrev pub good_response : Bytes
good_response =
    let single = der 0x30 (
      der 0x30 (1 ∷ [])
      ++ (der 0x80 [] ++ (der 0x18 (10 ∷ []) ++ der 0xA0 (der 0x18 (50 ∷ []))))) in
    let signed = der 0x30 (der 0xA1 [] ++ (der 0x18 (9 ∷ []) ++ der 0x30 single)) in
    let basic = der 0x30 (signed ++ (der 0x30 [] ++ der 0x03 (0 ∷ []))) in
    let oid = 0x2B ∷ 0x06 ∷ 0x01 ∷ 0x05 ∷ 0x05 ∷ 0x07 ∷ 0x30 ∷ 0x01 ∷ 0x01 ∷ [] in
    der 0x30 (der 0x0A (0 ∷ []) ++ der 0xA0 (der 0x30 (der 0x06 oid ++ der 0x04 basic)))

response_cache_expiry_sound_example :
    (validity : List ResponseValidity) × (response_validity times good_response ≡ ok validity)
    × (pos 20 <ℤ pos 50)
    × (pos 50 ≤ℤ pos 20 +ℤ pos 100)
    × All (Allows times (pos 20) (pos 5) (pos 50)) validity
unfolding readers
response_cache_expiry_sound_example =
    response_cache_expiry_sound times good_response (pos 20) 100 5 50 refl

city_hash_128-ne-none_example : city_hash_128 (replicate 300 7) ≢ none
city_hash_128-ne-none_example = city_hash_128-ne-none (replicate 300 7)

response_cache_expiry-ne-panic_example :
    response_cache_expiry times good_response (pos 20) 100 5 ≢ panic
response_cache_expiry-ne-panic_example =
    response_cache_expiry-ne-panic times good_response (pos 20) 100 5

abbrev good_validity : List ResponseValidity
good_validity = record { this_update = pos 10; next_update = some (pos 50); unknown = false } ∷ []

response_cache_expiry-eq-least_example :
    response_cache_expiry times good_response (pos 20) 100 5 ≡ ok 50
unfolding readers
response_cache_expiry-eq-least_example =
    response_cache_expiry-eq-least times good_response (pos 20) 100 5 50 (pos 120) good_validity
      refl ((refl, omega arith), tt) (omega arith) (omega arith) refl refl (omega arith)

-- Parts of keys whose first holds a /.
join_lower_iff_example :
    (join_lower (codes "a/b" ∷ codes "00AB" ∷ []) ≡ join_lower (codes "a/B" ∷ codes "00ab" ∷ []))
    ↔ (map to_ascii_lowercase (codes "a/b" ∷ codes "00AB" ∷ [])
        ≡ map to_ascii_lowercase (codes "a/B" ∷ codes "00ab" ∷ []))
join_lower_iff_example =
    join_lower_iff (codes "a/b") (codes "a/B") (codes "00AB" ∷ []) (codes "00ab" ∷ []) refl
      (
        (
          (λ p. absurd (omega arith)),
          (
            (λ p. absurd (omega arith)),
            ((λ p. absurd (omega arith)), ((λ p. absurd (omega arith)), tt)),
          ),
        ),
        tt,
      )
      (
        (
          (λ p. absurd (omega arith)),
          (
            (λ p. absurd (omega arith)),
            ((λ p. absurd (omega arith)), ((λ p. absurd (omega arith)), tt)),
          ),
        ),
        tt,
      )
