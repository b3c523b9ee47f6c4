-- ===== src/Ocsp/Response/Total.antt =====
-- src/ocsp.rs: the outcomes of the readers of responses.
use pccs_rs.Common.{ℕ, zero, suc, ◌≤◌, ◌≢◌, inl, inr, List, [], ◌∷◌, arith, length}
use pccs_rs.Common.Result.{panic, Result-cases}
use pccs_rs.Common.Result.Laws.{ok_or-ne-panic}
use pccs_rs.Common.Int.{ℤ, min_ℤ}
use pccs_rs.Ocsp.Tlv.{Bytes, take_expected}
use pccs_rs.Ocsp.Tlv.Laws.{
  take_expected-ne-panic, take_tlv-ne-panic, parse_single-ne-panic, take_expected-IsRead,
}
use pccs_rs.Ocsp.Request.Total.{take_optional-ne-panic}
use pccs_rs.Ocsp.Response.{
  TimeParser, ResponseValidity, parse_generalized_time, read_next_update, at_most_one, check_certs,
  read_single, read_singles, read_response_data, read_basic, read_response_bytes, response_validity,
  earliest, response_cache_expiry, signed_expiry,
}

at_most_one-ne-panic : (tag : ℕ) (fields : Bytes) → at_most_one tag fields ≢ panic
unfolding at_most_one
at_most_one-ne-panic tag [] = λ p. cc
at_most_one-ne-panic tag (b ∷ fields) = grind (arith, take_expected-ne-panic)

check_certs-ne-panic : (fields : Bytes) → check_certs fields ≢ panic
unfolding check_certs
check_certs-ne-panic [] = λ p. cc
check_certs-ne-panic (b ∷ fields) = grind (arith, take_expected-ne-panic, parse_single-ne-panic)

module _ (T : TimeParser) where
  parse_generalized_time-ne-panic : (value : Bytes) → parse_generalized_time T value ≢ panic
  unfolding parse_generalized_time
  parse_generalized_time-ne-panic value = ok_or-ne-panic _ _

  read_next_update-ne-panic : (fields : Bytes) → read_next_update T fields ≢ panic
  unfolding read_next_update
  read_next_update-ne-panic fields =
      grind (arith, take_expected-ne-panic, parse_single-ne-panic, parse_generalized_time-ne-panic)

  read_single-ne-panic : (fields : Bytes) → read_single T fields ≢ panic
  unfolding read_single
  read_single-ne-panic fields = grind (
    arith, take_expected-ne-panic, take_tlv-ne-panic, parse_generalized_time-ne-panic,
    read_next_update-ne-panic, at_most_one-ne-panic,
  )

  read_singles-ne-panic :
      (fuel : ℕ) (singles : Bytes) → length singles ≤ fuel → read_singles T fuel singles ≢ panic
  unfolding read_singles
  read_singles-ne-panic fuel [] h = λ p. cc
  read_singles-ne-panic zero (b ∷ singles) h = absurd (omega arith)
  read_singles-ne-panic (suc fuel) (b ∷ singles) h = λ p.
      elim (Result-cases (take_expected 0x30 (b ∷ singles))) [
        | inr (inl (e, bad)) ↦ ground arith
        | inr (inr broken) ↦ take_expected-ne-panic 0x30 (b ∷ singles) broken
        | inl ((single, rest), read) ↦
            let (is_read, _) = take_expected-IsRead 0x30 (b ∷ singles) single rest read in
            ground (
              arith,
              read_single-ne-panic single.value,
              read_singles-ne-panic fuel rest,
              is_read.shorter,
            )
      ]

  read_response_data-ne-panic : (fields : Bytes) → read_response_data T fields ≢ panic
  unfolding read_response_data
  read_response_data-ne-panic fields =
      let safe : (s : Bytes) → read_singles T (length s) s ≢ panic =
        λ s. read_singles-ne-panic (length s) s (omega arith) in
      grind (arith, take_optional-ne-panic, take_expected-ne-panic, take_tlv-ne-panic, safe)

  read_basic-ne-panic : (fields : Bytes) → read_basic T fields ≢ panic
  unfolding read_basic
  read_basic-ne-panic fields =
      grind (arith, take_expected-ne-panic, check_certs-ne-panic, read_response_data-ne-panic)

  read_response_bytes-ne-panic : (fields : Bytes) → read_response_bytes T fields ≢ panic
  unfolding read_response_bytes
  read_response_bytes-ne-panic fields =
      grind (arith, take_expected-ne-panic, parse_single-ne-panic, read_basic-ne-panic)

  response_validity-ne-panic : (response : Bytes) → response_validity T response ≢ panic
  unfolding response_validity
  response_validity-ne-panic response =
      grind (arith, parse_single-ne-panic, take_expected-ne-panic, read_response_bytes-ne-panic)

  earliest-ne-panic :
      (now default_ttl start : ℤ) (validity : List ResponseValidity)
      → earliest T now default_ttl start validity ≢ panic
  unfolding earliest
  earliest-ne-panic now default_ttl start [] = λ p. cc
  earliest-ne-panic now default_ttl start (item ∷ validity) =
      let later = min_ℤ start (signed_expiry T default_ttl item) in
      ground (arith, earliest-ne-panic now default_ttl later validity)

  -- Every response, time and pair of limits gives a deadline or an error: the bound on the loop over
  -- the responses is enough.
  pub response_cache_expiry-ne-panic :
      (response : Bytes) (now : ℤ) (max_ttl default_ttl : ℕ)
      → response_cache_expiry T response now max_ttl default_ttl ≢ panic
  unfolding response_cache_expiry
  response_cache_expiry-ne-panic response now max_ttl default_ttl =
      grind (arith, response_validity-ne-panic, earliest-ne-panic)
