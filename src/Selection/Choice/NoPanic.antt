-- ===== src/Selection/Choice/NoPanic.antt =====
-- src/selection.rs: the outcomes of the steps before the search: parsing, validation and the buckets.
use pccs_rs.Common.{
  ℕ, ◌+◌, ◌<◌, ◌≢◌, List, [], ◌∷◌, Option, none, some, arith, length, get_elem?_lt,
}
use pccs_rs.Common.Result.{Result, panic, ◌>>=◌, ok_or, collect}
use pccs_rs.Common.Result.Laws.{>>=-ne-panic, ok_or-ne-panic, collect-ne-panic}
use pccs_rs.Common.Text.{Text}
use pccs_rs.Common.Json.{JsonApi}
use pccs_rs.Selection.Error.{
  SelectionError, parsing_failed, sgx_extension_not_found, invalid_sgx_tcb_extension,
}
use pccs_rs.Selection.Tcb.{from_hex}
use pccs_rs.Selection.Tcb.Parse.{new-ne-panic}
use pccs_rs.Selection.Der.{Bytes, tlvs, find_extension}
use pccs_rs.Selection.Der.Laws.{tlvs-ne-panic, find_extension-ne-panic}
use pccs_rs.Selection.Cert.{
  SgxFields, pem_to_der, find_tag, read_version, read_tcb, tcb_field, read_pair, read_kids,
  read_item, read_items, sgx_items, parse_pck_cert,
}
use pccs_rs.Selection.Input.{
  ParsedCert, parse_pck_certs, parse_one, validate_input, validate_platform_metadata, check_levels,
  check_certs,
}
use pccs_rs.Selection.Buckets.{Bucket, create_buckets, level_bucket, v8_sort_desc}
use pccs_rs.Selection.Buckets.Sorting.{v8_sort_desc-perm}

sort-ne-panic : (bs : List Bucket) → v8_sort_desc bs ≢ panic
sort-ne-panic bs = λ p. cc (v8_sort_desc-perm bs).1

pub from_hex-ne-panic : (cpusvn pcesvn : Text) → from_hex cpusvn pcesvn ≢ panic
unfolding from_hex
from_hex-ne-panic cpusvn pcesvn =
    >>=-ne-panic _ _ (ok_or-ne-panic _ _) (λ n _. new-ne-panic cpusvn n)

tcb_field-ne-panic :
    (items : List (ℕ × Bytes)) (i : ℕ) → i < length items → tcb_field items i ≢ panic
unfolding tcb_field
tcb_field-ne-panic items i h =
    let ((tag, content), there) = get_elem?_lt items i h in
    ground (arith, there, tlvs-ne-panic content)

read_tcb-ne-panic : (f : SgxFields) (value : Bytes) → read_tcb f value ≢ panic
unfolding read_tcb
read_tcb-ne-panic f value =
    >>=-ne-panic (tlvs value) _ (tlvs-ne-panic value)
      (λ items _. ground (arith, tcb_field-ne-panic items 16, tcb_field-ne-panic items 17))

read_kids-ne-panic : (f : SgxFields) (kids : List (ℕ × Bytes)) → read_kids f kids ≢ panic
unfolding read_kids read_pair
read_kids-ne-panic f [] = λ p. cc
read_kids-ne-panic f (x ∷ []) = λ p. cc
read_kids-ne-panic f ((t, oid) ∷ (u, value) ∷ kids) = ground (arith, read_tcb-ne-panic f value)

read_item-ne-panic : (f : SgxFields) (tag : ℕ) (content : Bytes) → read_item f tag content ≢ panic
unfolding read_item
read_item-ne-panic f tag content = grind (arith, tlvs-ne-panic, read_kids-ne-panic)

read_items-ne-panic : (f : SgxFields) (items : List (ℕ × Bytes)) → read_items f items ≢ panic
unfolding read_items
read_items-ne-panic f [] = λ p. cc
read_items-ne-panic f ((tag, content) ∷ items) =
    >>=-ne-panic (read_item f tag content) (λ f'. read_items f' items)
      (read_item-ne-panic f tag content) (λ f' _. read_items-ne-panic f' items)

read_version-ne-panic : (kids : List (ℕ × Bytes)) → read_version kids ≢ panic
unfolding read_version
read_version-ne-panic [] = λ p. cc
read_version-ne-panic ((tag, v) ∷ kids) = grind (arith, tlvs-ne-panic)

sgx_items-ne-panic : (items : List (ℕ × Bytes)) → sgx_items items ≢ panic
unfolding sgx_items
sgx_items-ne-panic [] = λ p. cc
sgx_items-ne-panic ((tag, inner) ∷ []) = ground (arith, tlvs-ne-panic inner)
sgx_items-ne-panic (x ∷ y ∷ items) = λ p. cc

module _ {B : Type 0} where
  given :
      {A : Type 0} (o : Option A) (e : SelectionError) {f : A → Result SelectionError B}
      → ((a : A) → f a ≢ panic)
      → (ok_or o e >>= f) ≢ panic
  given o e {f} safe = >>=-ne-panic (ok_or o e) f (ok_or-ne-panic o e) (λ a _. safe a)

  items_of :
      (buf : Bytes) {f : List (ℕ × Bytes) → Result SelectionError B}
      → ((items : List (ℕ × Bytes)) → f items ≢ panic)
      → (tlvs buf >>= f) ≢ panic
  items_of buf {f} safe = >>=-ne-panic (tlvs buf) f (tlvs-ne-panic buf) (λ items _. safe items)

parse_pck_cert-ne-panic :
    (decode : Text → Option Bytes) (pem : Text) → parse_pck_cert decode pem ≢ panic
unfolding parse_pck_cert
parse_pck_cert-ne-panic decode pem = given (pem_to_der decode pem) parsing_failed (λ der.
    items_of der (λ outer. given (find_tag 0x30 outer) parsing_failed (λ cert.
      items_of cert (λ parts. given (find_tag 0x30 parts) parsing_failed (λ tbs.
        items_of tbs (λ kids.
          >>=-ne-panic (read_version kids) _ (read_version-ne-panic kids) (λ version _.
            >>=-ne-panic (find_extension _ der) _ (find_extension-ne-panic _ der) (λ found _.
              given found sgx_extension_not_found (λ sgx. items_of sgx (λ outermost.
                >>=-ne-panic (sgx_items outermost) _ (sgx_items-ne-panic outermost) (λ items _.
                  >>=-ne-panic (read_items _ items) _ (read_items-ne-panic _ items)
                    (λ f _. given f.pcesvn invalid_sgx_tcb_extension (λ n. ground arith)))))))))))))

pub parse_one-ne-panic :
    (decode : Text → Option Bytes) (c : Text × Text) → parse_one decode c ≢ panic
unfolding parse_one
parse_one-ne-panic decode (tcbm, cert) = grind (arith, parse_pck_cert-ne-panic, new-ne-panic)

pub parse_pck_certs-ne-panic :
    (decode : Text → Option Bytes) (certs : List (Text × Text))
    → parse_pck_certs decode certs ≢ panic
unfolding parse_pck_certs
parse_pck_certs-ne-panic decode certs =
    collect-ne-panic (parse_one decode) certs (parse_one-ne-panic decode)

check_certs-ne-panic :
    (pce_id fmspc : Text) (ppid : Option Text) (certs : List ParsedCert)
    → check_certs pce_id fmspc ppid certs ≢ panic
unfolding check_certs
check_certs-ne-panic pce_id fmspc ppid [] = λ p. cc
check_certs-ne-panic pce_id fmspc none (c ∷ cs) =
    ground (arith, check_certs-ne-panic pce_id fmspc (some c.info.ppid) cs)
check_certs-ne-panic pce_id fmspc (some q) (c ∷ cs) =
    ground (arith, check_certs-ne-panic pce_id fmspc (some q) cs)

module _ (J : JsonApi) where
  check_levels-ne-panic : (i : ℕ) (levels : List J.Value) → check_levels J i levels ≢ panic
  unfolding check_levels
  check_levels-ne-panic i [] = λ p. cc
  check_levels-ne-panic i (l ∷ ls) = ground (arith, check_levels-ne-panic (i + 1) ls)

  validate_platform_metadata-ne-panic :
      (pce_id : Text) (certs : List ParsedCert) (tcb_info : J.Value)
      → validate_platform_metadata J pce_id certs tcb_info ≢ panic
  unfolding validate_platform_metadata
  validate_platform_metadata-ne-panic pce_id certs tcb_info =
      grind (arith, check_levels-ne-panic, check_certs-ne-panic)

  pub validate_input-ne-panic :
      (pce_id : Text) (certs : List ParsedCert) (tcb_info : J.Value)
      → validate_input J pce_id certs tcb_info ≢ panic
  unfolding validate_input
  validate_input-ne-panic pce_id certs tcb_info =
      ground (arith, validate_platform_metadata-ne-panic pce_id certs tcb_info)

  level_bucket-ne-panic : (level : J.Value) → level_bucket J level ≢ panic
  unfolding level_bucket
  level_bucket-ne-panic level = grind (arith, new-ne-panic)

  collected-ne-panic : (levels : List J.Value) → collect (level_bucket J) levels ≢ panic
  collected-ne-panic levels = collect-ne-panic (level_bucket J) levels level_bucket-ne-panic

  pub create_buckets-ne-panic : (tcb_info : J.Value) → create_buckets J tcb_info ≢ panic
  unfolding create_buckets
  create_buckets-ne-panic tcb_info = grind (arith, collected-ne-panic, sort-ne-panic)
