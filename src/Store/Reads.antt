-- ===== src/Store/Reads.antt =====
-- src/store.rs: the operations on single records. A record read is compared with the request, so
-- that a collision of keys is a miss.
pub mod Laws
use pccs_rs.Common.{
  ℕ, Bool, not, ◌&&◌, ◌||◌, List, [], ◌∷◌, Option, none, some, if◌then◌else◌, ◌==◌,
}
use pccs_rs.Common.Text.{Text, text_eq, eq_ignore_ascii_case}
use pccs_rs.Errors.{PccsError}
use pccs_rs.Keys
use pccs_rs.Validate.Params.{UpdateType, as_str}
use pccs_rs.Store.Database.{Database}
use pccs_rs.Store.Records.{
  PckCertRecord, TcbRecord, IdentityRecord, PckCrlRecord, CrlRecord, AmdKdsRecord, NvidiaOcspRecord,
  PlatformPool, Formats,
}
use pccs_rs.Store.Exec.{Exec, digested, flatten, read_json, put_json}

-- A record that does not match its key is a miss.
abbrev matching : {A : Type 0} → (A → Bool) → Option A → Option A
matching test none = none
matching test (some rec) = if test rec then some rec else none

abbrev pub pckcert_key : PckCertRecord → Text
pckcert_key rec = digested (Keys.pckcert rec.qeid rec.pceid rec.cpusvn rec.pcesvn)

abbrev pub platform_key : PlatformPool → Text
platform_key pool = digested (Keys.platform pool.qe_id pool.pce_id)

module _ (D : Database) {V : Type 0} (F : Formats V) where
  open D use {State}

  unfoldable pub get_pckcert : Text → Text → Text → Text → State → Option PckCertRecord
  unfolding read_json
  get_pckcert qeid cpusvn pcesvn pceid s =
      matching
        (λ rec.
          eq_ignore_ascii_case rec.qeid qeid
          && eq_ignore_ascii_case rec.pceid pceid
          && eq_ignore_ascii_case rec.cpusvn cpusvn
          && eq_ignore_ascii_case rec.pcesvn pcesvn)
        (read_json D F.pckcert (digested (Keys.pckcert qeid pceid cpusvn pcesvn)) s)

  unfoldable pub put_pckcert : PckCertRecord → Exec State (Unit {0})
  unfolding put_json
  put_pckcert rec = put_json D F.pckcert (pckcert_key rec) rec

  unfoldable pub get_platform_pool : Text → Text → State → Option PlatformPool
  unfolding read_json
  get_platform_pool qeid pceid s =
      matching
        (λ pool. eq_ignore_ascii_case pool.qe_id qeid && eq_ignore_ascii_case pool.pce_id pceid)
        (read_json D F.platform (digested (Keys.platform qeid pceid)) s)

  unfoldable pub put_platform_pool : PlatformPool → Exec State (Unit {0})
  unfolding put_json
  put_platform_pool pool = put_json D F.platform (platform_key pool) pool

  -- Existence only: the record is not read.
  unfoldable pub has_platform : Text → Text → State → Bool
  has_platform qeid pceid s = elim (flatten (D.get s (digested (Keys.platform qeid pceid)))) [
    | none ↦ Bool.false
    | some _ ↦ Bool.true
  ]

  unfoldable pub get_tcb : ℕ → Text → ℕ → UpdateType → State → Option (TcbRecord V)
  unfolding read_json
  get_tcb prod_type fmspc version update s =
      matching
        (λ rec.
          rec.prod_type == prod_type
          && rec.version == version
          && eq_ignore_ascii_case rec.fmspc fmspc
          && eq_ignore_ascii_case rec.update_type (as_str update))
        (read_json D F.tcb
          (digested (Keys.tcb (Keys.prod_name prod_type) version fmspc (as_str update))) s)

  unfoldable pub put_tcb : TcbRecord V → Exec State (Unit {0})
  unfolding put_json
  put_tcb rec =
      put_json D F.tcb
        (digested (Keys.tcb (Keys.prod_name rec.prod_type) rec.version rec.fmspc rec.update_type))
        rec

  unfoldable pub get_identity : ℕ → ℕ → UpdateType → State → Option (IdentityRecord V)
  unfolding read_json
  get_identity enclave_id version update s =
      matching
        (λ rec.
          rec.enclave_id == enclave_id
          && rec.version == version
          && eq_ignore_ascii_case rec.update_type (as_str update))
        (read_json D F.identity
          (digested (Keys.identity (Keys.identity_name enclave_id) version (as_str update))) s)

  unfoldable pub put_identity : IdentityRecord V → Exec State (Unit {0})
  unfolding put_json
  put_identity rec =
      put_json D F.identity
        (digested (Keys.identity (Keys.identity_name rec.enclave_id) rec.version rec.update_type))
        rec

  unfoldable pub get_pckcrl : Text → State → Option PckCrlRecord
  unfolding read_json
  get_pckcrl ca s =
      matching (λ rec. eq_ignore_ascii_case rec.ca ca)
        (read_json D F.pckcrl (digested (Keys.pckcrl ca)) s)

  unfoldable pub put_pckcrl : PckCrlRecord → Exec State (Unit {0})
  unfolding put_json
  put_pckcrl rec = put_json D F.pckcrl (digested (Keys.pckcrl rec.ca)) rec

  unfoldable pub get_rootcacrl : State → Option (List ℕ)
  unfolding read_json
  get_rootcacrl s = read_json D F.rootcacrl Keys.rootcacrl s

  unfoldable pub put_rootcacrl : List ℕ → Exec State (Unit {0})
  unfolding put_json
  put_rootcacrl crl = put_json D F.rootcacrl Keys.rootcacrl crl

  unfoldable pub get_crl : Text → State → Option (List ℕ)
  unfolding read_json
  get_crl uri s = elim (read_json D F.crl (digested (Keys.crl uri)) s) [
    | none ↦ none
    | some rec ↦ some rec.crl
  ]

  unfoldable pub put_crl : Text → List ℕ → Exec State (Unit {0})
  unfolding put_json
  put_crl uri crl = put_json D F.crl (digested (Keys.crl uri)) (record { uri = uri; crl = crl })

  unfoldable pub get_amd_kds : Text → State → Option AmdKdsRecord
  unfolding read_json
  get_amd_kds url s =
      matching (λ rec. text_eq rec.url url) (read_json D F.amd_kds (digested (Keys.amd_kds url)) s)

  unfoldable pub get_nvidia_rim : Text → State → Option AmdKdsRecord
  unfolding read_json
  get_nvidia_rim url s =
      matching (λ rec. text_eq rec.url url)
        (read_json D F.amd_kds (digested (Keys.nvidia_rim url)) s)

  unfoldable pub get_nvidia_ocsp : Text → State → Option NvidiaOcspRecord
  unfolding read_json
  get_nvidia_ocsp cache_key s =
      matching (λ rec. text_eq rec.cache_key cache_key)
        (read_json D F.nvidia_ocsp (Keys.nvidia_ocsp cache_key) s)
