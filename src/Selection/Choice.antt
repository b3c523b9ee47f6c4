-- ===== src/Selection/Choice.antt =====
-- src/selection.rs: `validate_pck_cert_pool` and `select_best_pck_cert`.
pub mod Best
pub mod NoPanic
pub mod Placement
pub mod Promise
use pccs_rs.Common.{
  ℕ, zero, suc, ◌+◌, Bool, true, false, not, List, [], ◌∷◌, ◌++◌, Option, none, some, if◌then◌else◌,
  length, take, drop, get_elem?, is_empty, ltb,
}
use pccs_rs.Common.Result.{Result, ok, err, panic, ◌>>=◌, ◌>>◌, guard, or_panic}
use pccs_rs.Common.Text.{Text}
use pccs_rs.Common.Int.{ℤ, is_nonneg}
use pccs_rs.Common.Json.{JsonApi}
use pccs_rs.Selection.Error.{SelectionError, no_certificate_found}
use pccs_rs.Selection.Tcb.{Tcb, TcbNonComparable, compare, at_least, from_hex}
use pccs_rs.Selection.Input.{ParsedCert, parse_pck_certs, validate_input}
use pccs_rs.Selection.Buckets.{Bucket, create_buckets}

-- `find_index_to_insert`: `none` is the source's -1. The index does not advance at a certificate that
-- does not compare.
unfoldable pub find_insert_index :
    ℕ → List ℕ → List ParsedCert → ParsedCert → Result SelectionError (Option ℕ)
find_insert_index index [] parsed cert = ok none
find_insert_index index (slot ∷ slots) parsed cert = do
  other ← or_panic (get_elem? parsed slot)
  let here = find_insert_index index slots parsed cert
  let next = find_insert_index (index + 1) slots parsed cert
  elim (compare cert.tcb other.tcb) [
    | ok n ↦ if is_nonneg n then ok (some index) else next
    | err _ ↦ here
    | panic ↦ panic
  ]

-- `Vec::insert`; an index behind the end is a panic.
unfoldable pub insert_at : ℕ → ℕ → List ℕ → Result SelectionError (List ℕ)
insert_at index i certs =
    if ltb (length certs) index then panic else ok (take index certs ++ i ∷ drop index certs)

-- The insertion of the certificate `i` into one bucket.
unfoldable pub add_to_bucket :
    ℕ → List ParsedCert → ParsedCert → Bucket → Result SelectionError Bucket
unfolding find_insert_index insert_at
add_to_bucket i parsed cert bucket = do
  index ← find_insert_index 0 bucket.certs parsed cert
  elim index [
    | none ↦ ok (record bucket { certs = bucket.certs ++ i ∷ [] })
    | some k ↦ do certs ← insert_at k i bucket.certs; ok (record bucket { certs = certs })
  ]

-- Whether the loop puts the certificate into this bucket.
unfoldable pub fits : ParsedCert → Bucket → Bool
fits cert bucket = elim bucket.tcb [ none ↦ false | some t ↦ at_least (compare cert.tcb t) ]

-- The loop over the buckets: the buckets, and `was_added`.
unfoldable pub place :
    ℕ → List ParsedCert → ParsedCert → List Bucket → Result SelectionError (List Bucket × Bool)
unfolding add_to_bucket fits
place i parsed cert [] = ok ([], false)
place i parsed cert (bucket ∷ buckets) =
    let rest = place i parsed cert buckets in
    if fits cert bucket
    then (do b ← add_to_bucket i parsed cert bucket; ok (b ∷ buckets, true))
    else (do (bs, was_added) ← rest; ok (bucket ∷ bs, was_added))

-- The loop over the certificates from the index `i` on: the buckets and `not_matching`.
unfoldable pub place_all :
    ℕ
    → List ParsedCert
    → List ParsedCert
    → List Bucket
    → List ℕ
    → Result SelectionError (List Bucket × List ℕ)
unfolding place
place_all i parsed [] buckets not_matching = ok (buckets, not_matching)
place_all i parsed (cert ∷ certs) buckets not_matching = do
  (buckets', was_added) ← place i parsed cert buckets
  place_all (i + 1) parsed certs buckets'
      (if was_added then not_matching else not_matching ++ i ∷ [])

-- The search of one bucket: the first certificate that the raw TCB dominates.
unfoldable pub select_in :
    Tcb → List ParsedCert → List ℕ → Result SelectionError (Option ParsedCert)
select_in raw parsed [] = ok none
select_in raw parsed (slot ∷ slots) = do
  cert ← or_panic (get_elem? parsed slot)
  let rest = select_in raw parsed slots
  if at_least (compare raw cert.tcb) then ok (some cert) else rest

unfoldable pub select_from_buckets :
    Tcb → List ParsedCert → List Bucket → Result SelectionError ParsedCert
unfolding select_in
select_from_buckets raw parsed [] = err no_certificate_found
select_from_buckets raw parsed (bucket ∷ buckets) = do
  found ← select_in raw parsed bucket.certs
  let rest = select_from_buckets raw parsed buckets
  elim found [ some cert ↦ ok cert | none ↦ rest ]

module _ (J : JsonApi) (decode : Text → Option (List ℕ)) where
  open J use {Value}

  unfoldable pub validate_pck_cert_pool :
      Text → List (Text × Text) → Value → Result SelectionError (Unit {0})
  unfolding parse_pck_certs validate_input create_buckets
  validate_pck_cert_pool pce_id certs tcb_info = do
    guard (not (is_empty certs)) no_certificate_found
    parsed ← parse_pck_certs decode certs
    validate_input J pce_id parsed tcb_info
    buckets ← create_buckets J tcb_info
    ok tt

  unfoldable pub select_best_pck_cert :
      Text → Text → Text → List (Text × Text) → Value → Result SelectionError (Text × Text)
  unfolding parse_pck_certs validate_input create_buckets place_all select_from_buckets from_hex
  select_best_pck_cert raw_cpusvn raw_pcesvn pce_id certs tcb_info = do
    guard (not (is_empty certs)) no_certificate_found
    parsed ← parse_pck_certs decode certs
    validate_input J pce_id parsed tcb_info
    buckets ← create_buckets J tcb_info
    (placed, not_matching) ← place_all 0 parsed parsed buckets []
    raw ← from_hex raw_cpusvn raw_pcesvn
    best ←
        select_from_buckets raw parsed (placed ++ record { tcb = none; certs = not_matching } ∷ [])
    ok (best.tcbm, best.cert)
