-- ===== src/Store/Seed/Collateral.antt =====
-- src/store.rs: the collateral of a seed file, and the whole file.
use pccs_rs.Common.{
  ℕ, ◌%◌, ◌^◌, Bool, true, ◌||◌, List, [], ◌∷◌, Option, none, some, if◌then◌else◌, is_empty,
}
use pccs_rs.Common.Text.{Text, codes, text_eq, to_ascii_uppercase}
use pccs_rs.Common.Json.{JsonApi}
use pccs_rs.Store.Database.{Database}
use pccs_rs.Store.Records.{Formats}
use pccs_rs.Store.Reads.{put_tcb, put_identity, put_pckcrl, put_rootcacrl, put_crl}
use pccs_rs.Store.Appraisal.{upsert_appraisal_policy_raw}
use pccs_rs.Store.Seed.{or_text, str_at, upper, upsert_pckcert_from_json, upsert_seed_platform}

-- `for item in arr`.
abbrev each : {S A : Type 0} → (A → S → S) → List A → S → S
each f [] s = s
each f (x ∷ xs) s = each f xs (f x s)

abbrev or_nat : ℕ → Option ℕ → ℕ
or_nat default none = default
or_nat default (some n) = n

abbrev or_true : Option Bool → Bool
or_true none = true
or_true (some b) = b

-- `raw_json` is `serde_json::to_string` with the empty text for an error, `null` is `Value::Null`,
-- `hex_decode` is `hex::decode` and `sha384` the digest of the package sha2.
module _ (J : JsonApi) (raw_json : J.Value → Text) (null : J.Value)
    (hex_decode : Text → Option (List ℕ)) (sha384 : Text → List ℕ) (D : Database)
    (F : Formats J.Value) where
  open J use {Value, get, as_str, as_u64, as_bool, as_array}
  open D use {State}

  abbrev number_at : ℕ → Value → Text → ℕ
  number_at default item key =
      or_nat default (elim (get item key) [ none ↦ none | some v ↦ as_u64 v ])

  abbrev text_at : Text → Value → Text → Text
  text_at default item key = or_text default (str_at J item key)

  abbrev value_at : Value → Text → Value
  value_at item key = elim (get item key) [ none ↦ null | some v ↦ v ]

  abbrev json_at : Value → Text → Text
  json_at item key = elim (get item key) [ none ↦ [] | some v ↦ raw_json v ]

  abbrev is_tdx : Text → Bool
  is_tdx s = text_eq s (codes "tdx") || text_eq s (codes "TDX")

  unfoldable pub upsert_tcb_from_json : Value → State → State
  unfolding upper put_tcb
  upsert_tcb_from_json item s =
      let fmspc = upper J item (codes "fmspc") in
      if is_empty fmspc
      then s
      else (put_tcb D F
          (record {
            prod_type = if is_tdx (text_at (codes "sgx") item (codes "prod_type")) then 1 else 0;
            fmspc = fmspc;
            version = number_at 4 item (codes "version") % 2 ^ 32;
            update_type =
                to_ascii_uppercase (text_at (codes "STANDARD") item (codes "update_type"));
            issuer_chain = text_at [] item (codes "issuer_chain");
            raw_body = json_at item (codes "tcbinfo");
            tcbinfo = value_at item (codes "tcbinfo");
          })
          s).1

  unfoldable pub upsert_identity_from_json : Value → State → State
  unfolding put_identity
  upsert_identity_from_json item s =
      (put_identity D F
        (record {
          enclave_id = number_at 1 item (codes "enclave_id") % 2 ^ 8;
          version = number_at 4 item (codes "version") % 2 ^ 32;
          update_type = to_ascii_uppercase (text_at (codes "STANDARD") item (codes "update_type"));
          issuer_chain = text_at [] item (codes "issuer_chain");
          raw_body = json_at item (codes "identity");
          identity = value_at item (codes "identity");
        })
        s).1

  unfoldable pub seed_pckcrl : Value → State → State
  unfolding put_pckcrl
  seed_pckcrl item s = elim (hex_decode (text_at [] item (codes "pckcrl_hex"))) [
    | none ↦ s
    | some bytes ↦
        (put_pckcrl D F
          (record {
            ca = to_ascii_uppercase (text_at (codes "PROCESSOR") item (codes "ca"));
            pckcrl = bytes;
            issuer_chain = text_at [] item (codes "issuer_chain");
          })
          s).1
  ]

  unfoldable pub seed_rootcacrl : Value → State → State
  unfolding put_rootcacrl
  seed_rootcacrl v s = elim (str_at J v (codes "rootcacrl_hex")) [
    | none ↦ s
    | some hexv ↦ elim (hex_decode hexv) [ none ↦ s | some bytes ↦ (put_rootcacrl D F bytes s).1 ]
  ]

  unfoldable pub seed_crl : Value → State → State
  unfolding put_crl
  seed_crl item s =
      let uri = text_at [] item (codes "uri") in
      if is_empty uri then s else (elim (hex_decode (text_at [] item (codes "crl_hex"))) [
        | none ↦ s
        | some bytes ↦ (put_crl D F uri bytes s).1
      ])

  unfoldable pub seed_policy : Value → State → State
  unfolding upsert_appraisal_policy_raw upper
  seed_policy item s =
      let fmspc = upper J item (codes "fmspc") in
      let policy = text_at [] item (codes "policy") in
      let is_default =
        or_true (elim (get item (codes "is_default")) [ none ↦ none | some v ↦ as_bool v ]) in
      if is_empty fmspc || is_empty policy
      then s
      else upsert_appraisal_policy_raw sha384 D F fmspc policy is_default s

  abbrev section_of : Value → Text → List Value
  section_of v key = elim (get v key) [
    | none ↦ []
    | some x ↦ elim (as_array x) [ none ↦ [] | some arr ↦ arr ]
  ]

  -- Platforms after certificates, which they only add to.
  unfoldable pub load_seed_value : Value → State → State
  unfolding upsert_pckcert_from_json upsert_seed_platform upsert_tcb_from_json
      upsert_identity_from_json seed_pckcrl seed_rootcacrl seed_crl seed_policy
  load_seed_value v s =
      let s1 = each (upsert_pckcert_from_json J D F) (section_of v (codes "pckcerts")) s in
      let s2 = each (upsert_seed_platform J D F) (section_of v (codes "platforms")) s1 in
      let s3 = each upsert_tcb_from_json (section_of v (codes "tcbinfo")) s2 in
      let s4 = each upsert_identity_from_json (section_of v (codes "identities")) s3 in
      let s5 = each seed_pckcrl (section_of v (codes "pckcrls")) s4 in
      let s6 = seed_rootcacrl v s5 in
      let s7 = each seed_crl (section_of v (codes "crls")) s6 in
      each seed_policy (section_of v (codes "appraisal_policies")) s7
