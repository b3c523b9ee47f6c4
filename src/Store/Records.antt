-- ===== src/Store/Records.antt =====
-- src/store.rs: the records, and their formats.
use pccs_rs.Common.{ℕ, Bool, List, Option}
use pccs_rs.Common.Text.{Text}
use pccs_rs.Store.Database.{Codec}

pub record PckCertRecord : Type 0 where
  pub qeid : Text
  pub pceid : Text
  pub cpusvn : Text
  pub pcesvn : Text
  pub cert : Text
  pub tcbm : Text
  pub fmspc : Text
  pub ca : Text
  pub issuer_chain : Text
  pub encrypted_ppid : Option Text
  pub platform_manifest : Text

-- `V` is the type of JSON values.
pub record TcbRecord (V : Type 0) : Type 0 where
  pub prod_type : ℕ
  pub fmspc : Text
  pub version : ℕ
  pub update_type : Text
  pub tcbinfo : V
  pub raw_body : Text
  pub issuer_chain : Text

pub record IdentityRecord (V : Type 0) : Type 0 where
  pub enclave_id : ℕ
  pub version : ℕ
  pub update_type : Text
  pub identity : V
  pub raw_body : Text
  pub issuer_chain : Text

pub record PckCrlRecord : Type 0 where
  pub ca : Text
  pub pckcrl : List ℕ
  pub issuer_chain : Text

pub record CrlRecord : Type 0 where
  pub uri : Text
  pub crl : List ℕ

pub record AmdKdsRecord : Type 0 where
  pub url : Text
  pub body : List ℕ
  pub content_type : Option Text
  pub content_disposition : Option Text
  pub fetched_at : ℕ

pub record NvidiaOcspRecord : Type 0 where
  pub cache_key : Text
  pub body : List ℕ
  pub content_type : Option Text
  pub fetched_at : ℕ
  pub expires_at : ℕ

pub record PlatformRecord : Type 0 where
  pub qe_id : Text
  pub pce_id : Text
  pub cpu_svn : Text
  pub pce_svn : Text
  pub enc_ppid : Text
  pub platform_manifest : Text

pub record PlatformCert : Type 0 where
  pub tcbm : Text
  pub cert : Text

pub record RawTcb : Type 0 where
  pub cpu_svn : Text
  pub pce_svn : Text
  pub tcbm : Text

pub record PlatformPool : Type 0 where
  pub qe_id : Text
  pub pce_id : Text
  pub enc_ppid : Text
  pub platform_manifest : Text
  pub fmspc : Text
  pub ca : Text
  pub issuer_chain : Text
  pub certs : List PlatformCert
  pub raw_tcbs : List RawTcb

pub record RegisteredPlatform : Type 0 where
  pub qe_id : Text
  pub pce_id : Text
  pub cpu_svn : Text
  pub pce_svn : Text
  pub enc_ppid : Text
  pub platform_manifest : Text
  pub state : ℕ

pub record AppraisalPolicy : Type 0 where
  pub id : Text
  pub fmspc : Text
  pub is_default : Bool
  pub policy : Text
  pub policy_type : ℕ

-- The formats of the records, by `serde`.
pub record Formats (V : Type 0) : Type 0 where
  pub pckcert : Codec PckCertRecord
  pub tcb : Codec (TcbRecord V)
  pub identity : Codec (IdentityRecord V)
  pub pckcrl : Codec PckCrlRecord
  pub rootcacrl : Codec (List ℕ)
  pub crl : Codec CrlRecord
  pub amd_kds : Codec AmdKdsRecord
  pub nvidia_ocsp : Codec NvidiaOcspRecord
  pub platform : Codec PlatformPool
  pub registered : Codec RegisteredPlatform
  pub appraisal : Codec (List AppraisalPolicy)
