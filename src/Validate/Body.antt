-- ===== src/Validate/Body.antt =====
-- src/validate.rs: the schemas of request bodies.
pub mod Laws
use pccs_rs.Common.{
  ℕ, zero, suc, ◌+◌, Bool, true, false, not, ◌&&◌, ◌||◌, List, [], ◌∷◌, ◌++◌, Option, none, some,
  ltb, leb, ◌==◌, if◌then◌else◌, length, is_empty,
}
use pccs_rs.Common.Result.{Result, ok, err, panic, ◌>>=◌, ◌>>◌, guard, ok_or}
use pccs_rs.Common.Text.{Text, codes, text_eq, to_ascii_uppercase, to_ascii_lowercase}
use pccs_rs.Common.Json.{JsonApi}
use pccs_rs.Errors.{PccsError, invalid_req}
use pccs_rs.Validate.Strings.{text_of, split, trim_end_matches}
use pccs_rs.Validate.Params.{is_hex, is_hex_or_empty}

pub record PlatformReg : Type 0 where
  pub qe_id : Text
  pub pce_id : Text
  pub cpu_svn : Text
  pub pce_svn : Text
  pub enc_ppid : Text
  pub platform_manifest : Text

pub record AppraisalPolicyReg : Type 0 where
  pub is_default : Bool
  pub fmspc : Text
  pub policy : Text
  pub policy_type : ℕ

-- `for x in list { check(x)?; }`.
abbrev pub for_each :
    {A : Type 0} → (A → Result PccsError (Unit {0})) → List A → Result PccsError (Unit {0})
for_each check [] = ok tt
for_each check (x ∷ xs) = do check x; for_each check xs

abbrev is_present : {A : Type 0} → Option A → Bool
is_present none = false
is_present (some x) = true

-- `qe_id.is_empty() || qe_id.len() > 260` is refused.
unfoldable pub qe_id_ok : Text → Bool
qe_id_ok qe_id = not (is_empty qe_id || ltb 260 (length qe_id))

-- What `normalizeRegData` of the original makes of the fields.
unfoldable pub normalize : Text → Text → Text → Text → Text → Text → Result PccsError PlatformReg
normalize qe_id pce_id cpu_svn pce_svn enc_ppid manifest =
    if is_empty manifest
    then (do
      guard (not (is_empty cpu_svn || (is_empty pce_svn || is_empty enc_ppid))) invalid_req
      ok (record {
        qe_id = to_ascii_uppercase qe_id;
        pce_id = to_ascii_uppercase pce_id;
        cpu_svn = to_ascii_uppercase cpu_svn;
        pce_svn = to_ascii_uppercase pce_svn;
        enc_ppid = to_ascii_uppercase enc_ppid;
        platform_manifest = [];
      }))
    else ok (record {
      qe_id = to_ascii_uppercase qe_id;
      pce_id = to_ascii_uppercase pce_id;
      cpu_svn = [];
      pce_svn = [];
      enc_ppid = [];
      platform_manifest = manifest;
    })

module _ (J : JsonApi) where
  open J use {Value, get, as_str, as_u64, as_bool, as_array, is_object, is_null}

  unfoldable pub opt_str : Value → Text → Result PccsError (Option Text)
  opt_str v key = elim (get v key) [
    | none ↦ ok none
    | some x ↦
        if is_null x
        then ok none
        else (elim (as_str x) [ some s ↦ ok (some s) | none ↦ err invalid_req ])
  ]

  unfoldable pub req_str : Value → Text → Result PccsError Text
  unfolding opt_str
  req_str v key = do s ← opt_str v key; ok_or s invalid_req

  -- A present property must match its pattern, `null` included.
  unfoldable pub hex_if_present : Value → Text → Text → ℕ → Result PccsError (Unit {0})
  hex_if_present body key text len =
      guard (not (is_present (get body key)) || is_hex text len) invalid_req

  unfoldable pub platform_reg : Value → Result PccsError PlatformReg
  platform_reg body = do
    guard (is_object body) invalid_req
    qe_id ← req_str body (codes "qe_id")
    guard (qe_id_ok qe_id) invalid_req
    pce_id ← req_str body (codes "pce_id")
    guard (is_hex pce_id 4) invalid_req
    cpu_svn ← opt_str body (codes "cpu_svn")
    pce_svn ← opt_str body (codes "pce_svn")
    enc_ppid ← opt_str body (codes "enc_ppid")
    hex_if_present body (codes "cpu_svn") (text_of cpu_svn) 32
    hex_if_present body (codes "pce_svn") (text_of pce_svn) 4
    hex_if_present body (codes "enc_ppid") (text_of enc_ppid) 768
    manifest ← opt_str body (codes "platform_manifest")
    normalize qe_id pce_id (text_of cpu_svn) (text_of pce_svn) (text_of enc_ppid) (text_of manifest)

  -- An optional hexadecimal field that may be empty.
  unfoldable pub hex_or_empty_field : Value → Text → ℕ → Result PccsError (Unit {0})
  hex_or_empty_field v key len = do
    s ← opt_str v key
    guard (elim s [ none ↦ true | some t ↦ is_hex_or_empty t len ]) invalid_req

  unfoldable pub string_field : Value → Text → Result PccsError (Unit {0})
  string_field v key = do _ ← opt_str v key; ok tt

  unfoldable pub check_platform : Value → Result PccsError (Unit {0})
  check_platform p = do
    guard (is_object p) invalid_req
    qe_id ← req_str p (codes "qe_id")
    guard (qe_id_ok qe_id) invalid_req
    pce_id ← req_str p (codes "pce_id")
    guard (is_hex pce_id 4) invalid_req
    hex_or_empty_field p (codes "cpu_svn") 32
    hex_or_empty_field p (codes "pce_svn") 4
    hex_or_empty_field p (codes "enc_ppid") 768
    string_field p (codes "platform_manifest")

  abbrev field_array : Value → Text → Result PccsError (List Value)
  field_array v key = ok_or (elim (get v key) [ none ↦ none | some x ↦ as_array x ]) invalid_req

  -- `get(key).filter(|v| v.is_object())`.
  abbrev field_object : Value → Text → Result PccsError Value
  field_object v key =
      ok_or (elim (get v key) [ none ↦ none | some x ↦ if is_object x then some x else none ])
        invalid_req

  abbrev has_object : Value → Text → Bool
  has_object v key = elim (get v key) [ none ↦ false | some x ↦ is_object x ]

  unfoldable pub check_cert : Value → Result PccsError (Unit {0})
  check_cert c = do
    guard (is_object c) invalid_req
    guard (has_object c (codes "tcb")) invalid_req
    tcbm ← req_str c (codes "tcbm")
    guard (is_hex tcbm 36) invalid_req
    cert ← req_str c (codes "cert")
    guard (not (is_empty cert)) invalid_req

  unfoldable pub check_pck_certs : Value → Result PccsError (Unit {0})
  check_pck_certs pc = do
    guard (is_object pc) invalid_req
    qe_id ← req_str pc (codes "qe_id")
    guard (qe_id_ok qe_id) invalid_req
    pce_id ← req_str pc (codes "pce_id")
    guard (is_hex pce_id 4) invalid_req
    enc_ppid ← req_str pc (codes "enc_ppid")
    guard (is_hex_or_empty enc_ppid 768) invalid_req
    string_field pc (codes "platform_manifest")
    certs ← field_array pc (codes "certs")
    for_each check_cert certs

  unfoldable pub check_tcbinfo_field : Value → Text → Result PccsError (Unit {0})
  check_tcbinfo_field t key = elim (get t key) [
    | none ↦ ok tt
    | some info ↦ do
      guard (is_object info) invalid_req
      guard (has_object info (codes "tcbInfo")) invalid_req
      _ ← req_str info (codes "signature")
      ok tt
  ]

  unfoldable pub check_tcbinfo : ℕ → Value → Result PccsError (Unit {0})
  check_tcbinfo version t = do
    guard (is_object t) invalid_req
    _ ← req_str t (codes "fmspc")
    for_each (check_tcbinfo_field t) (
        if ltb version 4
        then codes "tcbinfo" ∷ []
        else codes "sgx_tcbinfo" ∷ codes "tdx_tcbinfo" ∷ [])

  unfoldable pub check_pckcacrl : Option Value → Result PccsError (Unit {0})
  check_pckcacrl none = ok tt
  check_pckcacrl (some crl) = do
    guard (is_object crl) invalid_req
    string_field crl (codes "processorCrl")
    string_field crl (codes "platformCrl")

  -- `collaterals.version` must be 4 from version 4 on.
  abbrev version_ok : ℕ → Value → Bool
  version_ok version collaterals =
      if leb 4 version
      then (elim (get collaterals (codes "version")) [
        | none ↦ false
        | some v ↦ elim (as_u64 v) [ none ↦ false | some n ↦ n == 4 ]
      ])
      else true

  unfoldable pub check_certificates : Value → Result PccsError (Unit {0})
  check_certificates collaterals = do
    certificates ← field_object collaterals (codes "certificates")
    issuer_chains ← field_object certificates (codes "SGX-PCK-Certificate-Issuer-Chain")
    string_field issuer_chains (codes "PROCESSOR")
    string_field issuer_chains (codes "PLATFORM")
    string_field certificates (codes "SGX-TCB-Info-Issuer-Chain")
    string_field certificates (codes "TCB-Info-Issuer-Chain")
    string_field certificates (codes "SGX-Enclave-Identity-Issuer-Chain")

  unfoldable pub platform_collateral : Value → ℕ → Result PccsError (Unit {0})
  platform_collateral body version = do
    guard (is_object body) invalid_req
    platforms ← field_array body (codes "platforms")
    for_each check_platform platforms
    collaterals ← field_object body (codes "collaterals")
    guard (version_ok version collaterals) invalid_req
    pck_certs ← field_array collaterals (codes "pck_certs")
    for_each check_pck_certs pck_certs
    tcbinfos ← field_array collaterals (codes "tcbinfos")
    for_each (check_tcbinfo version) tcbinfos
    check_pckcacrl (get collaterals (codes "pckcacrl"))
    string_field collaterals (codes "rootcacrl")
    string_field collaterals (codes "rootcacrl_cdp")
    check_certificates collaterals

  -- The class identifier of a policy, in lower case.
  abbrev class_id : Value → Option Text
  class_id policy = elim (get policy (codes "environment")) [
    | none ↦ none
    | some e ↦ elim (get e (codes "class_id")) [ none ↦ none | some v ↦ as_str v ]
  ]

  -- The loop over the policies: the first class that is no TD-QE decides.
  unfoldable pub policy_class : List Value → Result PccsError ℕ
  policy_class [] = err invalid_req
  policy_class (policy ∷ policies) = do
    raw ← ok_or (class_id policy) invalid_req
    let class = to_ascii_lowercase raw
    let rest = policy_class policies
    if text_eq class (codes "3123ec35-8d38-4ea5-87a5-d6c48b567570")
        then ok 0
        else if text_eq class (codes "9eec018b-7481-4b1c-8e1a-9f7c0c8c777f")
        then ok 1
        else if text_eq class (codes "f708b97f-0fb2-4e6b-8b03-8a5bcd1221d3")
        then ok 2
        else if text_eq class (codes "3769258c-75e6-4bc7-8d72-d2b0e224cad2")
        then rest
        else err invalid_req

  -- The parser of the `serde_json` package and the decoder of `base64`, on bytes.
  module _ (from_slice : Text → Option Value) (decode_url : Text → Option Text) where
    unfoldable pub policy_type_by_class_id : Value → Result PccsError ℕ
    policy_type_by_class_id payload = do
      raw ←
          ok_or (elim (get payload (codes "policy_payload")) [ none ↦ none | some v ↦ as_str v ])
            invalid_req
      policy_payload ← ok_or (from_slice raw) invalid_req
      array ← field_array policy_payload (codes "policy_array")
      policy_class array

    -- Padding is cut off before the decoder reads the text.
    unfoldable pub base64url_decode : Text → Option (List ℕ)
    base64url_decode s = decode_url (trim_end_matches b'=' s)

    -- The second piece between dots.
    abbrev segment : Text → Option Text
    segment policy = elim (split b'.' policy) [
      | [] ↦ none
      | p ∷ ps ↦ elim ps [ [] ↦ none | q ∷ qs ↦ some q ]
    ]

    unfoldable pub appraisal_policy : Value → Result PccsError AppraisalPolicyReg
    unfolding base64url_decode
    appraisal_policy body = do
      guard (is_object body) invalid_req
      is_default ←
          ok_or (elim (get body (codes "is_default")) [ none ↦ none | some v ↦ as_bool v ])
            invalid_req
      fmspc_raw ← req_str body (codes "fmspc")
      guard (is_hex fmspc_raw 12) invalid_req
      policy ← req_str body (codes "policy")
      guard (not (is_empty policy)) invalid_req
      payload_text ← ok_or (segment policy) invalid_req
      decoded ← ok_or (base64url_decode payload_text) invalid_req
      payload ← ok_or (from_slice decoded) invalid_req
      policy_type ← policy_type_by_class_id payload
      ok (record {
        is_default = is_default;
        fmspc = to_ascii_uppercase fmspc_raw;
        policy = policy;
        policy_type = policy_type;
      })
