-- ===== src/Selection/Choice/Best.antt =====
-- src/selection.rs: the search of the buckets.
use pccs_rs.Common.{
  ℕ, ◌<◌, ◌≡◌, ◌⊎◌, refl, inl, inr, true, false, List, [], ◌∷◌, ◌++◌, none, some, arith, length,
  get_elem?, All, In, In-get_elem?, Bool-cases, get_elem?_lt, All-append_inv,
}
use pccs_rs.Common.Result.{ok, err}
use pccs_rs.Selection.Error.{no_certificate_found}
use pccs_rs.Selection.Tcb.{Tcb, compare, at_least}
use pccs_rs.Selection.Input.{ParsedCert}
use pccs_rs.Selection.Buckets.{Bucket}
use pccs_rs.Selection.Choice.{select_in, select_from_buckets}
use pccs_rs.Selection.Choice.Placement.{slots}

module _ (raw : Tcb) (parsed : List ParsedCert) where
  -- Every certificate with an index in the list is out of the raw TCB's reach.
  abbrev pub NoneFits : List ℕ → Type 0
  NoneFits =
      All
        (λ j. (c : ParsedCert) → get_elem? parsed j ≡ some c → at_least (compare raw c.tcb) ≡ false)

  abbrev pub IsFit : ParsedCert → Type 0
  IsFit c = In c parsed × (at_least (compare raw c.tcb) ≡ true)

  select_in_cases :
      (certs : List ℕ)
      → All (λ i. i < length parsed) certs
      → ((select_in raw parsed certs ≡ ok none) × NoneFits certs)
        ⊎ ((c : ParsedCert) × (select_in raw parsed certs ≡ ok (some c)) × IsFit c)
  unfolding select_in
  select_in_cases [] h = inl (refl, tt)
  select_in_cases (slot ∷ certs) h =
      let (c, found) = get_elem?_lt parsed slot h.0 in
      elim (Bool-cases (at_least (compare raw c.tcb))) [
        | inl fit ↦ inr (c, rw (found, fit) refl, (In-get_elem? parsed slot c found, fit))
        | inr no_fit ↦ elim (select_in_cases certs h.1) [
          | inl (none_there, rest) ↦ inl (
            rw (found, no_fit, none_there) refl,
            ((λ d e. ground (arith, found, no_fit, e)), rest),
          )
          | inr (best, there, fit) ↦ inr (best, rw (found, no_fit, there) refl, fit)
        ]
      ]

  NoneFits-append : (xs ys : List ℕ) → NoneFits xs → NoneFits ys → NoneFits (xs ++ ys)
  NoneFits-append [] ys h k = k
  NoneFits-append (x ∷ xs) ys h k = (h.0, NoneFits-append xs ys h.1 k)

  -- The search ends with a certificate in the raw TCB's reach, or with the error, and then no
  -- certificate of the buckets is in reach.
  pub select_from_buckets_cases :
      (bs : List Bucket)
      → All (λ i. i < length parsed) (slots bs)
      → ((c : ParsedCert) × (select_from_buckets raw parsed bs ≡ ok c) × IsFit c)
        ⊎ ((select_from_buckets raw parsed bs ≡ err no_certificate_found) × NoneFits (slots bs))
  unfolding select_from_buckets
  select_from_buckets_cases [] h = inr (refl, tt)
  select_from_buckets_cases (b ∷ bs) h =
      let (here, rest) = All-append_inv (λ i. i < length parsed) b.certs (slots bs) h in
      elim (select_in_cases b.certs here) [
        | inr (c, found, fit) ↦ inl (c, rw found refl, fit)
        | inl (nothing, out) ↦ elim (select_from_buckets_cases bs rest) [
          | inl (c, found, fit) ↦ inl (c, rw (nothing, found) refl, fit)
          | inr (failed, none_left) ↦
              inr (rw (nothing, failed) refl, NoneFits-append b.certs (slots bs) out none_left)
        ]
      ]
