-- ===== src/Tests/StoreSample.antt =====
-- A concrete database, formats and records for the tests of the store.
use pccs_rs.Common.{
  ◌≡◌, refl, sym, ap, ◌∙◌, List, [], ◌∷◌, Option, none, some, if◌then◌else◌, arith,
}
use pccs_rs.Common.Text.{Text, codes, text_eq}
use pccs_rs.Store.Database.{Database, Reliable, Op, put, delete, after, RoundTrips}
use pccs_rs.Store.Records.{
  PckCertRecord, TcbRecord, AmdKdsRecord, NvidiaOcspRecord, PlatformCert, RawTcb, PlatformPool,
  RegisteredPlatform, AppraisalPolicy, Formats,
}
use pccs_rs.Tests.Wire.{Wire, codec, trips, number, both, as_wire, many, text, flag, option}
use pccs_rs.Tests.Sample.{JValue, tcb_info, pem}

-- The newest row of a key counts, and `none` is a row that was deleted.
abbrev pub Rows : Type 0
Rows = List (Text × Option Text)

abbrev lookup : Rows → Text → Option Text
lookup [] key = none
lookup ((k, v) ∷ rows) key = if text_eq k key then v else lookup rows key

abbrev apply : Rows → List Op → Rows
apply rows [] = rows
apply rows (put k v ∷ ops) = apply ((k, some v) ∷ rows) ops
apply rows (delete k ∷ ops) = apply ((k, none) ∷ rows) ops

abbrev present : Rows → List (Option (Text × Text))
present [] = []
present ((k, none) ∷ rows) = present rows
present ((k, some v) ∷ rows) = some (k, v) ∷ present rows

abbrev pub table : Database
table = record {
  State = Rows;
  get = λ rows key. some (lookup rows key);
  write = λ rows ops. some (apply rows ops);
  iterator = λ rows prefix. present rows;
}

lookup-apply :
    (rows : Rows) (ops : List Op) (key : Text)
    → lookup (apply rows ops) key ≡ after ops key (lookup rows key)
lookup-apply rows [] key = refl
lookup-apply rows (put k v ∷ ops) key = lookup-apply ((k, some v) ∷ rows) ops key
lookup-apply rows (delete k ∷ ops) key = lookup-apply ((k, none) ∷ rows) ops key

table-content-write :
    (rows rows' : Rows) (ops : List Op) (key : Text)
    → some (apply rows ops) ≡ some rows'
    → lookup rows' key ≡ after ops key (lookup rows key)
table-content-write rows rows' ops key done =
    let same : apply rows ops ≡ rows' = ground arith in
    ap (λ r. lookup r key) (sym same) ∙ lookup-apply rows ops key

pub reliable : Reliable table
reliable = record {
  content = lookup;
  get-content = λ rows key. refl;
  content-write = table-content-write;
}

abbrev pckcert : Wire PckCertRecord
pckcert =
    as_wire
      (both text (
        both text (
          both text (
            both text
              (both text (both text (both text (both text (both text (both option text))))))))))
      (λ (r : PckCertRecord). (
        r.qeid,
        (
          r.pceid,
          (
            r.cpusvn,
            (
              r.pcesvn,
              (
                r.cert,
                (
                  r.tcbm,
                  (r.fmspc, (r.ca, (r.issuer_chain, (r.encrypted_ppid, r.platform_manifest)))),
                ),
              ),
            ),
          ),
        ),
      ))
      (λ (a, (b, (c, (d, (e, (f, (g, (h, (i, (j, k)))))))))). record {
        qeid = a;
        pceid = b;
        cpusvn = c;
        pcesvn = d;
        cert = e;
        tcbm = f;
        fmspc = g;
        ca = h;
        issuer_chain = i;
        encrypted_ppid = j;
        platform_manifest = k;
      })
      (λ r. refl)

abbrev platform_cert : Wire PlatformCert
platform_cert =
    as_wire (both text text) (λ (c : PlatformCert). (c.tcbm, c.cert))
      (λ (a, b). record { tcbm = a; cert = b }) (λ c. refl)

abbrev raw_tcb : Wire RawTcb
raw_tcb =
    as_wire (both text (both text text)) (λ (r : RawTcb). (r.cpu_svn, (r.pce_svn, r.tcbm)))
      (λ (a, (b, c)). record { cpu_svn = a; pce_svn = b; tcbm = c }) (λ r. refl)

abbrev platform : Wire PlatformPool
platform =
    as_wire
      (both text (
        both text (
          both text (
            both text
              (both text (both text (both text (both (many platform_cert) (many raw_tcb)))))))))
      (λ (p : PlatformPool). (
        p.qe_id,
        (
          p.pce_id,
          (
            p.enc_ppid,
            (p.platform_manifest, (p.fmspc, (p.ca, (p.issuer_chain, (p.certs, p.raw_tcbs))))),
          ),
        ),
      ))
      (λ (a, (b, (c, (d, (e, (f, (g, (h, i)))))))). record {
        qe_id = a;
        pce_id = b;
        enc_ppid = c;
        platform_manifest = d;
        fmspc = e;
        ca = f;
        issuer_chain = g;
        certs = h;
        raw_tcbs = i;
      })
      (λ p. refl)

abbrev registered : Wire RegisteredPlatform
registered =
    as_wire (both text (both text (both text (both text (both text (both text number))))))
      (λ (p : RegisteredPlatform). (
        p.qe_id,
        (p.pce_id, (p.cpu_svn, (p.pce_svn, (p.enc_ppid, (p.platform_manifest, p.state))))),
      ))
      (λ (a, (b, (c, (d, (e, (f, g)))))). record {
        qe_id = a;
        pce_id = b;
        cpu_svn = c;
        pce_svn = d;
        enc_ppid = e;
        platform_manifest = f;
        state = g;
      })
      (λ p. refl)

abbrev policy : Wire AppraisalPolicy
policy =
    as_wire (both text (both text (both flag (both text number))))
      (λ (p : AppraisalPolicy). (p.id, (p.fmspc, (p.is_default, (p.policy, p.policy_type)))))
      (λ (a, (b, (c, (d, e)))). record {
        id = a;
        fmspc = b;
        is_default = c;
        policy = d;
        policy_type = e;
      })
      (λ p. refl)

abbrev amd_kds : Wire AmdKdsRecord
amd_kds =
    as_wire (both text (both text (both option (both option number))))
      (λ (r : AmdKdsRecord).
        (r.url, (r.body, (r.content_type, (r.content_disposition, r.fetched_at)))))
      (λ (a, (b, (c, (d, e)))). record {
        url = a;
        body = b;
        content_type = c;
        content_disposition = d;
        fetched_at = e;
      })
      (λ r. refl)

abbrev nvidia_ocsp : Wire NvidiaOcspRecord
nvidia_ocsp =
    as_wire (both text (both text (both option (both number number))))
      (λ (r : NvidiaOcspRecord).
        (r.cache_key, (r.body, (r.content_type, (r.fetched_at, r.expires_at)))))
      (λ (a, (b, (c, (d, e)))). record {
        cache_key = a;
        body = b;
        content_type = c;
        fetched_at = d;
        expires_at = e;
      })
      (λ r. refl)

-- Of TCB records, only the level in a tcb_info of the samples is kept.
abbrev pub tcb_record : TcbRecord JValue
tcb_record = record {
  prod_type = 0;
  fmspc = codes "00906EA10000";
  version = 4;
  update_type = codes "STANDARD";
  tcbinfo = tcb_info;
  raw_body = [];
  issuer_chain = [];
}

abbrev pub formats : Formats JValue
formats = record {
  pckcert = codec pckcert;
  tcb = record { to_vec = λ r. some (1 ∷ []); from_slice = λ bytes. some tcb_record };
  identity = record { to_vec = λ r. none; from_slice = λ bytes. none };
  pckcrl = record { to_vec = λ r. none; from_slice = λ bytes. none };
  rootcacrl = codec text;
  crl = record { to_vec = λ r. none; from_slice = λ bytes. none };
  amd_kds = codec amd_kds;
  nvidia_ocsp = codec nvidia_ocsp;
  platform = codec platform;
  registered = codec registered;
  appraisal = codec (many policy);
}

pub pckcert_trips : RoundTrips formats.pckcert
pckcert_trips = trips pckcert

pub platform_trips : RoundTrips formats.platform
platform_trips = trips platform

pub amd_kds_trips : RoundTrips formats.amd_kds
amd_kds_trips = trips amd_kds

pub nvidia_ocsp_trips : RoundTrips formats.nvidia_ocsp
nvidia_ocsp_trips = trips nvidia_ocsp

pub appraisal_trips : RoundTrips formats.appraisal
appraisal_trips = trips (many policy)

abbrev pub a_pool : PlatformPool
a_pool = record {
  qe_id = codes "AB";
  pce_id = codes "0000";
  enc_ppid = codes "11";
  platform_manifest = [];
  fmspc = codes "00906EA10000";
  ca = codes "PLATFORM";
  issuer_chain = codes "chain";
  certs =
      record { tcbm = codes "low"; cert = pem "L" }
      ∷ record { tcbm = codes "high"; cert = pem "H" }
      ∷ [];
  raw_tcbs = record { cpu_svn = codes "0A"; pce_svn = codes "01"; tcbm = codes "LOW" } ∷ [];
}

abbrev pub a_record : PckCertRecord
a_record = record {
  qeid = codes "AB";
  pceid = codes "0000";
  cpusvn = codes "0A";
  pcesvn = codes "01";
  cert = pem "L";
  tcbm = codes "LOW";
  fmspc = codes "00906EA10000";
  ca = codes "PLATFORM";
  issuer_chain = codes "chain";
  encrypted_ppid = none;
  platform_manifest = [];
}
