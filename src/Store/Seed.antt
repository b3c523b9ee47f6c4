-- ===== src/Store/Seed.antt =====
-- src/store.rs: the certificates and platforms of a seed file. Errors of a write are dropped.
pub mod Collateral
pub mod Laws
use pccs_rs.Common.{
  ℕ, Bool, true, false, not, ◌&&◌, ◌||◌, List, [], ◌∷◌, ◌++◌, Option, none, some, if◌then◌else◌,
  is_empty,
}
use pccs_rs.Common.Text.{Text, codes, text_eq, to_ascii_uppercase}
use pccs_rs.Common.Json.{JsonApi}
use pccs_rs.Store.Database.{Database}
use pccs_rs.Store.Records.{PckCertRecord, PlatformCert, RawTcb, PlatformPool, Formats}
use pccs_rs.Store.Reads.{get_platform_pool, put_platform_pool, put_pckcert}

abbrev pub or_text : Text → Option Text → Text
or_text default none = default
or_text default (some s) = s

abbrev upper_of : Option Text → Option Text
upper_of none = none
upper_of (some s) = some (to_ascii_uppercase s)

abbrev pub any_cert : Text → List PlatformCert → Bool
any_cert tcbm [] = false
any_cert tcbm (c ∷ cs) = text_eq c.tcbm tcbm || any_cert tcbm cs

abbrev pub any_raw : Text → Text → List RawTcb → Bool
any_raw cpu_svn pce_svn [] = false
any_raw cpu_svn pce_svn (r ∷ rs) =
    text_eq r.cpu_svn cpu_svn && text_eq r.pce_svn pce_svn || any_raw cpu_svn pce_svn rs

-- The pool that a seeded certificate establishes.
abbrev seeded_pool : PckCertRecord → PlatformPool
seeded_pool rec = record {
  qe_id = rec.qeid;
  pce_id = rec.pceid;
  enc_ppid = or_text [] rec.encrypted_ppid;
  platform_manifest = rec.platform_manifest;
  fmspc = rec.fmspc;
  ca = rec.ca;
  issuer_chain = rec.issuer_chain;
  certs = [];
  raw_tcbs = [];
}

abbrev or_pool : PlatformPool → Option PlatformPool → PlatformPool
or_pool new none = new
or_pool new (some pool) = pool

-- The pool with the certificate and the level, where they are new.
unfoldable pub with_seed : PckCertRecord → PlatformPool → PlatformPool
with_seed rec pool = record pool {
  certs =
      if not (is_empty rec.tcbm) && not (any_cert rec.tcbm pool.certs)
      then pool.certs ++ record { tcbm = rec.tcbm; cert = rec.cert } ∷ []
      else pool.certs;
  raw_tcbs =
      if any_raw rec.cpusvn rec.pcesvn pool.raw_tcbs
      then pool.raw_tcbs
      else pool.raw_tcbs
        ++ record { cpu_svn = rec.cpusvn; pce_svn = rec.pcesvn; tcbm = rec.tcbm } ∷ [];
}

-- What a seed says of a platform.
pub record SeedPlatform : Type 0 where
  pub qe_id : Text
  pub pce_id : Text
  pub enc_ppid : Text
  pub manifest : Text
  pub fmspc : Text
  pub cpu_svn : Text
  pub pce_svn : Text

abbrev blank_pool : Text → Text → PlatformPool
blank_pool qe_id pce_id = record {
  qe_id = qe_id;
  pce_id = pce_id;
  enc_ppid = [];
  platform_manifest = [];
  fmspc = [];
  ca = [];
  issuer_chain = [];
  certs = [];
  raw_tcbs = [];
}

-- Only blanks are filled.
unfoldable pub filled_pool : SeedPlatform → PlatformPool → PlatformPool
filled_pool seed pool = record pool {
  enc_ppid = if is_empty pool.enc_ppid then seed.enc_ppid else pool.enc_ppid;
  platform_manifest =
      if is_empty pool.platform_manifest then seed.manifest else pool.platform_manifest;
  fmspc = if is_empty pool.fmspc then seed.fmspc else pool.fmspc;
  raw_tcbs =
      if not (is_empty seed.cpu_svn)
        && not (is_empty seed.pce_svn)
        && not (any_raw seed.cpu_svn seed.pce_svn pool.raw_tcbs)
      then pool.raw_tcbs
        ++ record { cpu_svn = seed.cpu_svn; pce_svn = seed.pce_svn; tcbm = [] } ∷ []
      else pool.raw_tcbs;
}

module _ (J : JsonApi) where
  open J use {Value, get, as_str}

  abbrev pub str_at : Value → Text → Option Text
  str_at item key = elim (get item key) [ none ↦ none | some v ↦ as_str v ]

  unfoldable pub upper : Value → Text → Text
  upper item key = to_ascii_uppercase (or_text [] (str_at item key))

  unfoldable pub first_upper : Value → List Text → Text
  first_upper item [] = []
  first_upper item (k ∷ ks) = elim (str_at item k) [
    | none ↦ first_upper item ks
    | some s ↦ to_ascii_uppercase s
  ]

  -- `get(a).or_else(|| get(b))` as a text in upper case.
  abbrev seed_ppid : Value → Option Text
  seed_ppid item = upper_of (elim (get item (codes "encrypted_ppid")) [
    | none ↦ str_at item (codes "enc_ppid")
    | some v ↦ as_str v
  ])

  unfoldable pub seed_record : Value → PckCertRecord
  unfolding upper first_upper
  seed_record item = record {
    qeid = first_upper item (codes "qeid" ∷ codes "qe_id" ∷ []);
    pceid = first_upper item (codes "pceid" ∷ codes "pce_id" ∷ []);
    cpusvn = first_upper item (codes "cpusvn" ∷ codes "cpu_svn" ∷ []);
    pcesvn = first_upper item (codes "pcesvn" ∷ codes "pce_svn" ∷ []);
    cert = or_text [] (str_at item (codes "cert"));
    tcbm = upper item (codes "tcbm");
    fmspc = upper item (codes "fmspc");
    ca = to_ascii_uppercase (or_text (codes "PROCESSOR") (str_at item (codes "ca")));
    issuer_chain = or_text [] (str_at item (codes "issuer_chain"));
    encrypted_ppid = seed_ppid item;
    platform_manifest = or_text [] (str_at item (codes "platform_manifest"));
  }

  unfoldable pub seed_platform : Value → SeedPlatform
  unfolding upper first_upper
  seed_platform item = record {
    qe_id = first_upper item (codes "qe_id" ∷ codes "qeid" ∷ []);
    pce_id = first_upper item (codes "pce_id" ∷ codes "pceid" ∷ []);
    enc_ppid = first_upper item (codes "enc_ppid" ∷ codes "encrypted_ppid" ∷ []);
    manifest = upper item (codes "platform_manifest");
    fmspc = upper item (codes "fmspc");
    cpu_svn = first_upper item (codes "cpu_svn" ∷ codes "cpusvn" ∷ []);
    pce_svn = first_upper item (codes "pce_svn" ∷ codes "pcesvn" ∷ []);
  }

  module _ (D : Database) {V : Type 0} (F : Formats V) where
    open D use {State}

    unfoldable pub upsert_pckcert_from_json : Value → State → State
    unfolding seed_record with_seed get_platform_pool put_platform_pool put_pckcert
    upsert_pckcert_from_json item s =
        let rec = seed_record item in
        if is_empty rec.qeid || is_empty rec.cpusvn || is_empty rec.pcesvn || is_empty rec.pceid
        then s
        else (let pool =
              with_seed rec
                (or_pool (seeded_pool rec) (get_platform_pool D F rec.qeid rec.pceid s)) in
            let s' = (put_platform_pool D F pool s).1 in (put_pckcert D F rec s').1)

    unfoldable pub upsert_seed_platform : Value → State → State
    unfolding seed_platform filled_pool get_platform_pool put_platform_pool
    upsert_seed_platform item s =
        let seed = seed_platform item in
        if is_empty seed.qe_id || is_empty seed.pce_id
        then s
        else (let found = get_platform_pool D F seed.qe_id seed.pce_id s in
            (put_platform_pool D F
              (filled_pool seed (or_pool (blank_pool seed.qe_id seed.pce_id) found)) s).1)
