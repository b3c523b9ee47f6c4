-- ===== src/Ocsp/Response/Deadline.antt =====
-- src/ocsp.rs: the value of the cache deadline of an acceptable response.
use pccs_rs.Common.{ℕ, ◌^◌, ◌<◌, ◌≡◌, ◌∙◌, refl, sym, ap, false, List, [], ◌∷◌, some, arith, All}
use pccs_rs.Common.Result.{ok}
use pccs_rs.Common.Int.{ℤ, pos, negsuc, ◌≤ℤ◌, ◌<ℤ◌, checked_add, min_ℤ}
use pccs_rs.Ocsp.Tlv.{Bytes}
use pccs_rs.Ocsp.Response.{
  ResponseValidity, TimeParser, response_validity, earliest, response_cache_expiry, signed_expiry,
}

min_ℤ_comm : (a b : ℤ) → min_ℤ a b ≡ min_ℤ b a
min_ℤ_comm (pos m) (pos n) = ground arith
min_ℤ_comm (pos m) (negsuc n) = ground arith
min_ℤ_comm (negsuc m) (pos n) = ground arith
min_ℤ_comm (negsuc m) (negsuc n) = ground arith

min_ℤ_assoc : (a b c : ℤ) → min_ℤ (min_ℤ a b) c ≡ min_ℤ a (min_ℤ b c)
min_ℤ_assoc (pos m) (pos n) (pos k) = ground arith
min_ℤ_assoc (pos m) (pos n) (negsuc k) = ground arith
min_ℤ_assoc (pos m) (negsuc n) (pos k) = ground arith
min_ℤ_assoc (pos m) (negsuc n) (negsuc k) = ground arith
min_ℤ_assoc (negsuc m) (pos n) (pos k) = ground arith
min_ℤ_assoc (negsuc m) (pos n) (negsuc k) = ground arith
min_ℤ_assoc (negsuc m) (negsuc n) (pos k) = ground arith
min_ℤ_assoc (negsuc m) (negsuc n) (negsuc k) = ground arith

module _ (T : TimeParser) (now default_ttl : ℤ) where
  -- The least of the longest time and the signed deadlines, from the last response on.
  abbrev pub least : ℤ → List ResponseValidity → ℤ
  least limit [] = limit
  least limit (item ∷ validity) = min_ℤ (signed_expiry T default_ttl item) (least limit validity)

  -- A response whose status is known, and which is not from the future.
  abbrev pub Fresh : ResponseValidity → Type 0
  Fresh item = (item.unknown ≡ false) × (item.this_update ≤ℤ now)

  least-min_ℤ :
      (a b : ℤ) (validity : List ResponseValidity)
      → least (min_ℤ a b) validity ≡ min_ℤ b (least a validity)
  least-min_ℤ a b [] = min_ℤ_comm a b
  least-min_ℤ a b (item ∷ validity) =
      let own = signed_expiry T default_ttl item in
      ap (min_ℤ own) (least-min_ℤ a b validity)
      ∙ (sym (min_ℤ_assoc own b (least a validity))
          ∙ (ap (λ m. min_ℤ m (least a validity)) (min_ℤ_comm own b)
              ∙ min_ℤ_assoc b own (least a validity)))

  earliest-least :
      (limit : ℤ) (validity : List ResponseValidity)
      → All Fresh validity
      → earliest T now default_ttl limit validity ≡ ok (least limit validity)
  unfolding earliest
  earliest-least limit [] h = refl
  earliest-least limit (item ∷ validity) h =
      let own = signed_expiry T default_ttl item in
      let rest = earliest-least (min_ℤ limit own) validity h.1 in
      let same = least-min_ℤ limit own validity in ground (arith, rest, same, h.0)

-- A response that can be read, all of whose statuses are known and whose times are not in the future,
-- gets as its deadline the least of the longest time allowed and the signed deadlines, where that lies
-- in the future, and limits and sum fit into 64 bits.
pub response_cache_expiry-eq-least :
    (T : TimeParser) (response : Bytes) (now : ℤ) (max_ttl default_ttl e : ℕ) (limit : ℤ)
    (validity : List ResponseValidity)
    → response_validity T response ≡ ok validity
    → All (Fresh T now (pos default_ttl)) validity
    → max_ttl < 2 ^ 63
    → default_ttl < 2 ^ 63
    → checked_add now (pos max_ttl) ≡ some limit
    → pos e ≡ least T now (pos default_ttl) limit validity
    → now <ℤ pos e
    → response_cache_expiry T response now max_ttl default_ttl ≡ ok e
unfolding response_cache_expiry
response_cache_expiry-eq-least T response now max_ttl default_ttl e limit validity read fresh m d
      sum least_is later =
    let found = earliest-least T now (pos default_ttl) limit validity fresh in
    ground (arith, read, sum, found, least_is)
