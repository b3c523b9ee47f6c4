-- ===== src/Ocsp/Response/Expiry.antt =====
-- src/ocsp.rs: the conditions under which `response_cache_expiry` gives a deadline.
use pccs_rs.Common.{ℕ, ◌≡◌, inl, inr, false, List, [], ◌∷◌, arith, All, Option-cases}
use pccs_rs.Common.Result.{ok, Result-cases}
use pccs_rs.Common.Int.{ℤ, pos, ◌≤ℤ◌, ◌<ℤ◌, ◌+ℤ◌, checked_add, min_ℤ}
use pccs_rs.Ocsp.Response.{
  Bytes, ResponseValidity, TimeParser, response_validity, earliest, response_cache_expiry,
  signed_expiry,
}

module _ (T : TimeParser) (now default_ttl : ℤ) where
  -- One response that allows the deadline: its status is known, it is not from the future, and the
  -- deadline is not behind its own.
  pub record Allows (deadline : ℤ) (item : ResponseValidity) : Type 0 where
    pub known : item.unknown ≡ false
    pub past : item.this_update ≤ℤ now
    pub within : deadline ≤ℤ signed_expiry T default_ttl item

  Allows-mono : (d e : ℤ) (item : ResponseValidity) → d ≤ℤ e → Allows e item → Allows d item
  Allows-mono d e item h a = record { known = a.known; past = a.past; within = omega arith }

  earliest-Allows :
      (start d : ℤ) (validity : List ResponseValidity)
      → earliest T now default_ttl start validity ≡ ok d
      → (d ≤ℤ start) × All (Allows d) validity
  unfolding earliest
  earliest-Allows start d [] e = (ground arith, tt)
  earliest-Allows start d (item ∷ validity) e =
      let mid = min_ℤ start (signed_expiry T default_ttl item) in
      let (low, rest) = earliest-Allows mid d validity (ground arith) in
      (
        ground arith,
        (record { known = ground arith; past = ground arith; within = ground arith }, rest),
      )

-- A deadline is given only for a response that can be read, all of whose statuses are known and whose
-- times are not in the future. It is later than the present, within the longest time allowed, and
-- not later than any signed `nextUpdate` (or `thisUpdate` with the default time, where there is none).
pub response_cache_expiry_sound :
    (T : TimeParser) (response : Bytes) (now : ℤ) (max_ttl default_ttl e : ℕ)
    → response_cache_expiry T response now max_ttl default_ttl ≡ ok e
    → (validity : List ResponseValidity) × (response_validity T response ≡ ok validity)
      × (now <ℤ pos e)
      × (pos e ≤ℤ now +ℤ pos max_ttl)
      × All (Allows T now (pos default_ttl) (pos e)) validity
unfolding response_cache_expiry
response_cache_expiry_sound T response now max_ttl default_ttl e h =
    elim (Result-cases (response_validity T response)) [
      | inr (inl (x, bad)) ↦ absurd (ground arith)
      | inr (inr broken) ↦ absurd (ground arith)
      | inl (validity, read) ↦ elim (Option-cases (checked_add now (pos max_ttl))) [
        | inl over ↦ absurd (ground arith)
        | inr (limit, sum) ↦ elim (Result-cases (earliest T now (pos default_ttl) limit validity)) [
          | inr (inl (x, bad)) ↦ absurd (ground arith)
          | inr (inr broken) ↦ absurd (ground arith)
          | inl (d, found) ↦
              let same : d ≡ pos e = ground arith in
              let (low, all_allow) =
                earliest-Allows T now (pos default_ttl) limit (pos e) validity
                  (rw (← same) found) in
              (validity, read, ground arith, ground arith, all_allow)
        ]
      ]
    ]
