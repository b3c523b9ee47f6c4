-- ===== src/Store/Scans.antt =====
-- src/store.rs: the records under a prefix.
use pccs_rs.Common.{
  Bool, false, not, ◌&&◌, ◌||◌, List, [], ◌∷◌, ◌++◌, Option, none, some, if◌then◌else◌, is_empty,
  map,
}
use pccs_rs.Common.Text.{Text, codes, eq_ignore_ascii_case}
use pccs_rs.Validate.Strings.{strip_prefix}
use pccs_rs.Store.Database.{Database, Codec}
use pccs_rs.Store.Records.{
  TcbRecord, IdentityRecord, PckCrlRecord, CrlRecord, PlatformRecord, RawTcb, PlatformPool, Formats,
}

abbrev pub starts_with : Text → Text → Bool
starts_with prefix key = elim (strip_prefix prefix key) [ none ↦ Bool.false | some _ ↦ Bool.true ]

-- `filter_map(|(_, v)| from_slice(&v).ok())`.
unfoldable pub decode_all : {A : Type 0} → Codec A → List (Text × Text) → List A
decode_all C [] = []
decode_all C ((k, v) ∷ rest) = elim (C.from_slice v) [
  | none ↦ decode_all C rest
  | some a ↦ a ∷ decode_all C rest
]

-- A platform's row for each of its known raw TCBs.
unfoldable pub platform_rows : PlatformPool → List PlatformRecord
platform_rows pool =
    map
      (λ (raw : RawTcb). record {
        qe_id = pool.qe_id;
        pce_id = pool.pce_id;
        cpu_svn = raw.cpu_svn;
        pce_svn = raw.pce_svn;
        enc_ppid = pool.enc_ppid;
        platform_manifest = pool.platform_manifest;
      })
      pool.raw_tcbs

abbrev any_fmspc : Text → List Text → Bool
any_fmspc fmspc [] = false
any_fmspc fmspc (f ∷ fs) = eq_ignore_ascii_case f fmspc || any_fmspc fmspc fs

unfoldable pub rows_by_fmspc : List Text → List PlatformPool → List PlatformRecord
unfolding platform_rows
rows_by_fmspc fmspcs [] = []
rows_by_fmspc fmspcs (pool ∷ pools) =
    let rest = rows_by_fmspc fmspcs pools in
    if not (is_empty fmspcs) && not (any_fmspc pool.fmspc fmspcs)
    then rest
    else platform_rows pool ++ rest

-- `lossy` is `String::from_utf8_lossy`.
module _ (D : Database) (lossy : Text → Text) where
  open D use {State}

  -- The iterator's items up to an error or a key without the prefix.
  unfoldable pub scanned : Text → List (Option (Text × Text)) → List (Text × Text)
  unfolding strip_prefix
  scanned prefix [] = []
  scanned prefix (none ∷ rest) = []
  scanned prefix (some (k, v) ∷ rest) =
      let more = scanned prefix rest in if starts_with prefix k then (lossy k, v) ∷ more else []

  unfoldable pub scan_prefix : Text → State → List (Text × Text)
  unfolding scanned
  scan_prefix prefix s = scanned prefix (D.iterator s prefix)

  module _ {V : Type 0} (F : Formats V) where
    unfoldable pub list_platform_pools : State → List PlatformPool
    unfolding decode_all scan_prefix
    list_platform_pools s = decode_all F.platform (scan_prefix (codes "platform/") s)

    unfoldable pub list_tcbs : State → List (TcbRecord V)
    unfolding decode_all scan_prefix
    list_tcbs s = decode_all F.tcb (scan_prefix (codes "tcb/") s)

    unfoldable pub list_identities : State → List (IdentityRecord V)
    unfolding decode_all scan_prefix
    list_identities s = decode_all F.identity (scan_prefix (codes "identity/") s)

    unfoldable pub list_pckcrls : State → List PckCrlRecord
    unfolding decode_all scan_prefix
    list_pckcrls s = decode_all F.pckcrl (scan_prefix (codes "pckcrl/") s)

    unfoldable pub list_crls : State → List CrlRecord
    unfolding decode_all scan_prefix
    list_crls s = decode_all F.crl (scan_prefix (codes "crl/") s)

    unfoldable pub cached_platforms_by_fmspc : List Text → State → List PlatformRecord
    unfolding rows_by_fmspc list_platform_pools
    cached_platforms_by_fmspc fmspcs s = rows_by_fmspc fmspcs (list_platform_pools s)
