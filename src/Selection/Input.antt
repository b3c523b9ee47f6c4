-- ===== src/Selection/Input.antt =====
-- src/selection.rs: the checks of a certificate pool against TCB Info, before any selection.
use pccs_rs.Common.{
  ℕ, zero, suc, ◌+◌, ◌/◌, ◌%◌, Bool, true, false, not, List, [], ◌∷◌, ◌++◌, Option, none, some, ltb,
  ◌==◌, if◌then◌else◌, length, is_empty,
}
use pccs_rs.Common.Result.{Result, ok, ◌>>=◌, ◌>>◌, guard, ok_or, collect}
use pccs_rs.Common.Text.{
  eq_ignore_ascii_case, Text, codes, text_eq, encode_upper, to_ascii_uppercase,
}
use pccs_rs.Common.Int.{ℤ, pos}
use pccs_rs.Common.Json.{JsonApi}
use pccs_rs.Selection.Error.{
  SelectionError, tcb_type_differs, tcb_type_not_integer, pceid_missing, pceid_differs,
  empty_tcb_levels, level_missing_components, level_invalid_pcesvn, fmspc_missing,
  cert_version_differs, cert_pceid_differs, cert_fmspc_differs, ppids_differ, no_certificate_found,
}
use pccs_rs.Selection.Cert.{PckCertInfo, parse_pck_cert}
use pccs_rs.Selection.Tcb.{Tcb, new}

abbrev pub pck_cert_version : ℕ
pck_cert_version = 3

pub record ParsedCert : Type 0 where
  pub tcbm : Text
  pub cert : Text
  pub info : PckCertInfo
  pub tcb : Tcb

-- One certificate of the pool, `(tcbm, pem)`.
unfoldable pub parse_one : (Text → Option (List ℕ)) → Text × Text → Result SelectionError ParsedCert
parse_one decode (tcbm, cert) = do
  info ← parse_pck_cert decode cert
  tcb ← new info.cpusvn info.pcesvn
  ok (record { tcbm = to_ascii_uppercase tcbm; cert = cert; info = info; tcb = tcb })

unfoldable pub parse_pck_certs :
    (Text → Option (List ℕ)) → List (Text × Text) → Result SelectionError (List ParsedCert)
unfolding parse_one
parse_pck_certs decode certs = collect (parse_one decode) certs

-- The key `sgxtcbcompNNsvn`.
abbrev pub component_key : ℕ → Text
component_key i = codes "sgxtcbcomp" ++ (48 + i / 10) ∷ (48 + i % 10) ∷ codes "svn"

-- The loop over the certificates of `validate_platform_metadata`; `ppid` is that of the first.
unfoldable pub check_certs :
    Text → Text → Option Text → List ParsedCert → Result SelectionError (Unit {0})
check_certs pce_id fmspc ppid [] = ok tt
check_certs pce_id fmspc ppid (cert ∷ certs) = do
  guard (cert.info.version == pck_cert_version) (cert_version_differs cert.info.version)
  guard (text_eq cert.info.pce_id (to_ascii_uppercase pce_id))
      (cert_pceid_differs cert.info.pce_id pce_id)
  guard (text_eq cert.info.fmspc fmspc) (cert_fmspc_differs cert.info.fmspc fmspc)
  guard (elim ppid [ none ↦ true | some p ↦ text_eq p cert.info.ppid ]) ppids_differ
  check_certs pce_id fmspc (elim ppid [ none ↦ some cert.info.ppid | some p ↦ some p ]) certs

module _ (J : JsonApi) where
  open J use {Value, get, as_str, as_i64, as_u64, as_array}

  abbrev get_with {ℓ} : {A : Type ℓ} → (Value → Option A) → Value → Text → Option A
  get_with read v key = elim (get v key) [ none ↦ none | some x ↦ read x ]

  -- The text of one component: two hexadecimal digits, if it is a byte.
  unfoldable pub svn_hex : Value → Text → Option Text
  svn_hex v key = elim (get_with as_u64 v key) [
    | none ↦ none
    | some svn ↦ if ltb 255 svn then none else some (encode_upper (svn ∷ []))
  ]

  unfoldable pub components_hex : List Value → Option Text
  components_hex [] = some []
  components_hex (c ∷ cs) = elim (svn_hex c (codes "svn")) [
    | none ↦ none
    | some s ↦ elim (components_hex cs) [ none ↦ none | some t ↦ some (s ++ t) ]
  ]

  -- The scalars of v3 collateral from the index `i` on, `n` of them.
  unfoldable pub scalars_hex : ℕ → ℕ → Value → Option Text
  scalars_hex zero i tcb = some []
  scalars_hex (suc n) i tcb = elim (svn_hex tcb (component_key i)) [
    | none ↦ none
    | some s ↦ elim (scalars_hex n (i + 1) tcb) [ none ↦ none | some t ↦ some (s ++ t) ]
  ]

  unfoldable pub level_cpusvn : Value → Option Text
  unfolding components_hex scalars_hex svn_hex
  level_cpusvn tcb = elim (get_with as_array tcb (codes "sgxtcbcomponents")) [
    | some components ↦ if length components == 16 then components_hex components else none
    | none ↦ scalars_hex 16 1 tcb
  ]

  -- The loop over the levels; `index` is the counter of `enumerate`.
  unfoldable pub check_levels : ℕ → List Value → Result SelectionError (Unit {0})
  check_levels index [] = ok tt
  check_levels index (level ∷ levels) = do
    tcb ← ok_or (get level (codes "tcb")) (level_missing_components index)
    cpusvn ← ok_or (level_cpusvn tcb) (level_missing_components index)
    pcesvn ← ok_or (get_with as_u64 tcb (codes "pcesvn")) (level_invalid_pcesvn index)
    check_levels (index + 1) levels

  unfoldable pub validate_platform_metadata :
      Text → List ParsedCert → Value → Result SelectionError (Unit {0})
  unfolding check_levels check_certs
  validate_platform_metadata pce_id certs tcb_info = do
    info_pceid ← ok_or (get_with as_str tcb_info (codes "pceId")) pceid_missing
    guard (eq_ignore_ascii_case info_pceid pce_id) (pceid_differs info_pceid pce_id)
    levels ← ok_or (get_with as_array tcb_info (codes "tcbLevels")) empty_tcb_levels
    guard (not (is_empty levels)) empty_tcb_levels
    check_levels 0 levels
    fmspc ← ok_or (get_with as_str tcb_info (codes "fmspc")) fmspc_missing
    check_certs pce_id (to_ascii_uppercase fmspc) none certs

  abbrev is_zero : Option ℤ → Bool
  is_zero (some (pos zero)) = true
  is_zero _ = false

  unfoldable pub validate_input : Text → List ParsedCert → Value → Result SelectionError (Unit {0})
  unfolding validate_platform_metadata
  validate_input pce_id certs tcb_info = do
    let tcb_type = get_with as_i64 tcb_info (codes "tcbType")
    guard (is_zero tcb_type) (tcb_type_differs tcb_type)
    validate_platform_metadata pce_id certs tcb_info

  abbrev is_integer : Value → Bool
  is_integer typ = elim (as_i64 typ) [
    | some _ ↦ true
    | none ↦ elim (as_u64 typ) [ some _ ↦ true | none ↦ false ]
  ]

  module _ (decode : Text → Option (List ℕ)) where
    unfoldable pub validate_tdx_pck_cert_pool :
        Text → List (Text × Text) → Value → Result SelectionError (Unit {0})
    unfolding validate_platform_metadata parse_pck_certs
    validate_tdx_pck_cert_pool pce_id certs tcb_info = do
      guard (not (is_empty certs)) no_certificate_found
      guard (elim (get tcb_info (codes "tcbType")) [ none ↦ true | some typ ↦ is_integer typ ])
          tcb_type_not_integer
      parsed ← parse_pck_certs decode certs
      validate_platform_metadata pce_id parsed tcb_info
