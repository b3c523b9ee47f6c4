-- ===== src/Store/Platform.antt =====
-- src/store.rs: the pools of PCK certificates, one record for each platform. An operation reads the
-- pool, computes, and writes one batch.
pub mod Batches
pub mod Methods
pub mod Levels
pub mod Laws
pub mod Outcomes
pub mod Updates
use pccs_rs.Common.{
  ℕ, Bool, true, false, not, ◌&&◌, ◌||◌, List, [], ◌∷◌, ◌++◌, Option, none, some, if◌then◌else◌,
  is_empty, map,
}
use pccs_rs.Common.Result.{Result, ok, err, panic, guard, ok_or}
use pccs_rs.Common.Text.{Text, text_eq, eq_ignore_ascii_case, to_ascii_uppercase}
use pccs_rs.Errors.{PccsError, no_cache_data}
use pccs_rs.Keys
use pccs_rs.Selection.Cert.{PckCertInfo, parse_pck_cert}
use pccs_rs.Store.Database.{Database, Op, put, Codec}
use pccs_rs.Store.Records.{
  PckCertRecord, TcbRecord, PlatformRecord, PlatformCert, RawTcb, PlatformPool, Formats,
}
use pccs_rs.Store.Exec.{
  Exec, pure, raise, lift, gets, ◌>>=◌, ◌>>◌, digested, serialize, write_batch, put_json,
}
use pccs_rs.Store.Reads.{
  get_pckcert, pckcert_key, get_platform_pool, put_platform_pool, platform_key,
}

-- `iter_mut().find(same)`: the first that fits is changed, and otherwise `new` is pushed.
unfoldable pub upsert : {A : Type 0} → (A → Bool) → (A → A) → A → List A → List A
upsert same change new [] = new ∷ []
upsert same change new (x ∷ xs) = if same x then change x ∷ xs else x ∷ upsert same change new xs

-- The fetch credentials of a pool.
pub record PlatformCredentials : Type 0 where
  pub enc_ppid : Text
  pub platform_manifest : Text

abbrev pub credentials : PlatformPool → PlatformCredentials
credentials pool = record { enc_ppid = pool.enc_ppid; platform_manifest = pool.platform_manifest }

unfoldable pub cert_pairs : PlatformPool → List (Text × Text)
cert_pairs pool = map (λ (c : PlatformCert). (c.tcbm, c.cert)) pool.certs

pub data PlatformPublication : Type 0 where
  observed : Option PlatformCredentials → PlatformPublication
  absent_get : Text → Text → PlatformPublication

-- `==` of two optional credentials.
abbrev pub same_credentials : Option PlatformCredentials → Option PlatformCredentials → Bool
same_credentials none none = true
same_credentials none (some e) = false
same_credentials (some c) none = false
same_credentials (some c) (some e) =
    text_eq c.enc_ppid e.enc_ppid && text_eq c.platform_manifest e.platform_manifest

abbrev pub credentials_of : Option PlatformPool → Option PlatformCredentials
credentials_of none = none
credentials_of (some pool) = some (credentials pool)

unfoldable pub publication_ok : Option PlatformPool → PlatformPublication → Bool
publication_ok current (observed expected) = same_credentials (credentials_of current) expected
publication_ok none (absent_get enc_ppid platform_manifest) = true
publication_ok (some pool) (absent_get enc_ppid platform_manifest) =
    eq_ignore_ascii_case pool.enc_ppid enc_ppid && text_eq pool.platform_manifest platform_manifest

unfoldable pub check_platform_publication :
    Option PlatformPool → PlatformPublication → Result PccsError (Unit {0})
unfolding publication_ok
check_platform_publication current publication =
    guard (publication_ok current publication) no_cache_data

abbrev pub raws_of : Option PlatformPool → List RawTcb
raws_of none = []
raws_of (some pool) = pool.raw_tcbs

-- The raw mapping of a record.
abbrev pub raw_of : PckCertRecord → RawTcb
raw_of rec = record {
  cpu_svn = to_ascii_uppercase rec.cpusvn;
  pce_svn = to_ascii_uppercase rec.pcesvn;
  tcbm = to_ascii_uppercase rec.tcbm;
}

abbrev pub same_level : Text → Text → RawTcb → Bool
same_level cpusvn pcesvn r =
    eq_ignore_ascii_case r.cpu_svn cpusvn && eq_ignore_ascii_case r.pce_svn pcesvn

-- A new raw mapping replaces the one of its level.
unfoldable pub track : RawTcb → List RawTcb → List RawTcb
unfolding upsert
track raw raws = upsert (same_level raw.cpu_svn raw.pce_svn) (λ _. raw) raw raws

unfoldable pub retain : {A : Type 0} → (A → Bool) → List A → List A
retain keep [] = []
retain keep (x ∷ xs) = if keep x then x ∷ retain keep xs else retain keep xs

abbrev pub none_of_empty : Text → Option Text
none_of_empty [] = none
none_of_empty (b ∷ s) = some (b ∷ s)

-- A value that is known and differs.
abbrev pub conflicts : Text → Text → Bool
conflicts known given = not (is_empty known) && not (eq_ignore_ascii_case known given)
