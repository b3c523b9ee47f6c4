-- ===== src/Store/Platform/Batches.antt =====
-- src/store.rs: what the operations on pools compute under their lock, before anything is written.
use pccs_rs.Common.{
  ℕ, Bool, true, false, not, ◌&&◌, ◌||◌, List, [], ◌∷◌, ◌++◌, Option, none, some, if◌then◌else◌,
  is_empty,
}
use pccs_rs.Common.Result.{Result, ok, err, panic, ◌>>=◌, ◌>>◌, guard}
use pccs_rs.Common.Text.{Text, eq_ignore_ascii_case, to_ascii_uppercase}
use pccs_rs.Errors.{PccsError, no_cache_data}
use pccs_rs.Keys
use pccs_rs.Selection.Error.{SelectionError}
use pccs_rs.Selection.Cert.{PckCertInfo, parse_pck_cert}
use pccs_rs.Store.Database.{Op, put}
use pccs_rs.Store.Records.{PckCertRecord, TcbRecord, PlatformCert, RawTcb, PlatformPool, Formats}
use pccs_rs.Store.Exec.{digested, serialize}
use pccs_rs.Store.Reads.{pckcert_key, platform_key}
use pccs_rs.Store.Platform.{
  PlatformPublication, check_platform_publication, raws_of, raw_of, track, upsert, none_of_empty,
  conflicts,
}

-- The new pool and the records to be published with it.
pub record Publish : Type 0 where
  pub pool : PlatformPool
  pub records : List PckCertRecord

-- `if let Some(rec) = selected`.
abbrev pub track_selected : Option PckCertRecord → List RawTcb → List RawTcb
track_selected none raws = raws
track_selected (some rec) raws = track (raw_of rec) raws

abbrev pub list_of : {A : Type 0} → Option A → List A
list_of none = []
list_of (some x) = x ∷ []

abbrev empty_pool : PlatformPool
empty_pool = record {
  qe_id = [];
  pce_id = [];
  enc_ppid = [];
  platform_manifest = [];
  fmspc = [];
  ca = [];
  issuer_chain = [];
  certs = [];
  raw_tcbs = [];
}

-- `current.unwrap_or_else`.
abbrev pub pool_or_new : PckCertRecord → Option PlatformPool → PlatformPool
pool_or_new rec none = record empty_pool { qe_id = rec.qeid; pce_id = rec.pceid }
pool_or_new rec (some pool) = pool

abbrev is_none : {A : Type 0} → Option A → Bool
is_none none = true
is_none (some x) = false

abbrev or_empty : Option Text → Text
or_empty none = []
or_empty (some s) = s

abbrev any_other : Text → List Text → Bool
any_other ppid [] = false
any_other ppid (p ∷ ps) = not (eq_ignore_ascii_case p ppid) || any_other ppid ps

-- Whether the certificate of the record belongs to the platform.
unfoldable pub identity_ok : List Text → PckCertRecord → Result SelectionError PckCertInfo → Bool
identity_ok ppids rec (ok info) =
    not (any_other info.ppid ppids)
    && eq_ignore_ascii_case info.pce_id rec.pceid
    && eq_ignore_ascii_case info.fmspc rec.fmspc
    && eq_ignore_ascii_case info.ca rec.ca
identity_ok ppids rec (err e) = is_empty ppids
identity_ok ppids rec panic = is_empty ppids

-- The pool with the metadata of the record, and the credentials of a new platform.
unfoldable pub augmented : Bool → PckCertRecord → PlatformPool → PlatformPool
augmented new_platform rec pool = record pool {
  fmspc = rec.fmspc;
  ca = to_ascii_uppercase rec.ca;
  issuer_chain = rec.issuer_chain;
  enc_ppid = if new_platform then or_empty rec.encrypted_ppid else pool.enc_ppid;
  platform_manifest = if new_platform then rec.platform_manifest else pool.platform_manifest;
  certs =
      upsert (λ (c : PlatformCert). eq_ignore_ascii_case c.tcbm rec.tcbm)
        (λ _. record { tcbm = rec.tcbm; cert = rec.cert })
        (record { tcbm = rec.tcbm; cert = rec.cert }) pool.certs;
}

-- A cached record with the metadata of the pool, and the new certificate if it has its tcbm.
unfoldable pub refreshed : PckCertRecord → PlatformPool → PckCertRecord → PckCertRecord
refreshed rec pool cached = record cached {
  fmspc = pool.fmspc;
  ca = pool.ca;
  issuer_chain = pool.issuer_chain;
  encrypted_ppid = none_of_empty pool.enc_ppid;
  platform_manifest = pool.platform_manifest;
  cert = if eq_ignore_ascii_case cached.tcbm rec.tcbm then rec.cert else cached.cert;
}

-- The loop over the known raw TCBs; `cached` reads a record.
unfoldable pub refresh_all :
    PckCertRecord
    → PlatformPool
    → (RawTcb → Option PckCertRecord)
    → List RawTcb
    → List PckCertRecord
unfolding refreshed
refresh_all rec pool cached [] = []
refresh_all rec pool cached (raw ∷ raws) = elim (cached raw) [
  | none ↦ refresh_all rec pool cached raws
  | some old ↦ refreshed rec pool old ∷ refresh_all rec pool cached raws
]

-- The decoder of the package base64.
module _ (decode : Text → Option (List ℕ)) where
  -- `filter_map(|c| parse_pck_cert(&c.cert).ok()).map(|c| c.ppid)`.
  unfoldable pub known_ppids : List PlatformCert → List Text
  known_ppids [] = []
  known_ppids (c ∷ cs) = elim (parse_pck_cert decode c.cert) [
    | ok info ↦ info.ppid ∷ known_ppids cs
    | err e ↦ known_ppids cs
    | panic ↦ known_ppids cs
  ]

  unfoldable pub merged :
      PckCertRecord
      → PlatformPublication
      → (PlatformPool → RawTcb → Option PckCertRecord)
      → Option PlatformPool
      → Result PccsError Publish
  unfolding known_ppids identity_ok augmented refresh_all
  merged rec publication cached current = do
    check_platform_publication current publication
    let pool = pool_or_new rec current
    guard (not (conflicts pool.fmspc rec.fmspc || conflicts pool.ca rec.ca)) no_cache_data
    guard (identity_ok (known_ppids pool.certs) rec (parse_pck_cert decode rec.cert)) no_cache_data
    let pool' = augmented (is_none current) rec pool
    ok (record {
      pool = record pool' { raw_tcbs = track (raw_of rec) pool'.raw_tcbs };
      records =
          refresh_all rec pool' (cached pool') pool'.raw_tcbs
          ++ record rec {
            encrypted_ppid = none_of_empty pool'.enc_ppid;
            platform_manifest = pool'.platform_manifest;
          }
            ∷ [];
    })

-- The batch that publishes: the records, the TCB collateral, and the pool under the given key.
module _ {V : Type 0} (F : Formats V) where
  unfoldable pub put_records : List PckCertRecord → Result PccsError (List Op)
  put_records [] = ok []
  put_records (rec ∷ recs) = do
    bytes ← serialize F.pckcert rec
    ops ← put_records recs
    ok (put (pckcert_key rec) bytes ∷ ops)

  unfoldable pub put_tcbs : List (TcbRecord V) → Result PccsError (List Op)
  put_tcbs [] = ok []
  put_tcbs (rec ∷ recs) = do
    bytes ← serialize F.tcb rec
    ops ← put_tcbs recs
    ok (
        put
          (digested (Keys.tcb (Keys.prod_name rec.prod_type) rec.version rec.fmspc rec.update_type))
          bytes
        ∷ ops)

  unfoldable pub publish_batch : Text → List (TcbRecord V) → Publish → Result PccsError (List Op)
  unfolding put_records put_tcbs
  publish_batch key tcbs publish = do
    records ← put_records publish.records
    collateral ← put_tcbs tcbs
    bytes ← serialize F.platform publish.pool
    ok (records ++ (collateral ++ put key bytes ∷ []))

  -- The loop that selects anew for every known raw TCB: the mappings and the batch that it leaves.
  unfoldable pub reselect :
      (RawTcb → Result PccsError PckCertRecord)
      → List RawTcb
      → Result PccsError (List RawTcb × List Op)
  reselect select [] = ok ([], [])
  reselect select (raw ∷ raws) = do
    rec ← select raw
    bytes ← serialize F.pckcert rec
    (raws', ops) ← reselect select raws
    ok (
      record raw { tcbm = to_ascii_uppercase rec.tcbm } ∷ raws',
      put (pckcert_key rec) bytes ∷ ops,
    )

  unfoldable pub replacement :
      PlatformPool
      → PlatformPublication
      → List (TcbRecord V)
      → Option PckCertRecord
      → (RawTcb → Result PccsError PckCertRecord)
      → Option PlatformPool
      → Result PccsError (List Op)
  unfolding reselect publish_batch
  replacement fresh publication tcbs selected select current = do
    check_platform_publication current publication
    (raws, ops) ← reselect select (raws_of current)
    let pool = record fresh { raw_tcbs = track_selected selected raws }
    rest ←
        publish_batch (platform_key pool) tcbs (record { pool = pool; records = list_of selected })
    ok (ops ++ rest)
