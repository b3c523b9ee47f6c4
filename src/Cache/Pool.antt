-- ===== src/Cache/Pool.antt =====
-- src/cache.rs: the selection of a certificate from a cached pool, and the rows of levels without one.
pub mod Laws
use pccs_rs.Common.{
  ℕ, zero, suc, ◌+◌, ◌-◌, ◌/◌, ◌%◌, Bool, true, false, not, ◌&&◌, ◌||◌, List, [], ◌∷◌, ◌++◌, Option,
  none, some, if◌then◌else◌, ◌==◌, ltb, leb, all, is_empty,
}
use pccs_rs.Common.Result.{Result, ok, err, panic, ◌>>=◌, ◌>>◌, guard, ok_or}
use pccs_rs.Common.Text.{Text, codes, text_eq, to_ascii_uppercase, encode_upper}
use pccs_rs.Common.Json.{JsonApi}
use pccs_rs.Errors.{PccsError, no_cache_data, pcs_v3_reached_eol}
use pccs_rs.Keys.{decimal}
use pccs_rs.Selection.Error.{SelectionError}
use pccs_rs.Selection.Choice.{select_best_pck_cert}
use pccs_rs.Validate.Params.{early, standard}
use pccs_rs.Validate.Strings.{trim}
use pccs_rs.Store.Database.{Database}
use pccs_rs.Store.Records.{PckCertRecord, TcbRecord, PlatformPool, RegisteredPlatform, Formats}
use pccs_rs.Store.Exec.{Exec}
use pccs_rs.Store.Reads.{get_tcb, get_pckcert, get_platform_pool}
use pccs_rs.Store.Platform.{cert_pairs, none_of_empty}
use pccs_rs.Store.Platform.Levels.{known}
use pccs_rs.Store.Platform.Methods.{select_platform_cert}
use pccs_rs.Cache.ReadThrough.{CacheMode, is_lazy}

-- `raw_tcbs.iter().any(…)`.
unfoldable pub raw_tcb_known : PlatformPool → Text → Text → Bool
raw_tcb_known pool cpusvn pcesvn = known cpusvn pcesvn pool.raw_tcbs

unfoldable pub has_stored_credential : PlatformPool → Bool
has_stored_credential pool =
    not (is_empty pool.platform_manifest)
    || not (is_empty pool.enc_ppid) && not (all (λ b. b == b'0') pool.enc_ppid)

unfoldable pub platform_name : Text → Text → Text
platform_name qeid pceid = to_ascii_uppercase qeid ++ b':' ∷ to_ascii_uppercase pceid

unfoldable pub miss_v3 : CacheMode → ℕ → PccsError
miss_v3 mode version = if version == 3 && is_lazy mode then pcs_v3_reached_eol else no_cache_data

unfoldable pub cacheable : Text → Bool
unfolding trim
cacheable chain = not (is_empty (trim chain))

abbrev or_else : {A : Type 0} → Option A → Option A → Option A
or_else none other = other
or_else (some a) other = some a

abbrev map_err : {E A : Type 0} → Result E A → PccsError → Result PccsError A
map_err (ok a) e = ok a
map_err (err _) e = err e
map_err panic e = panic

-- `{i:02}` below 100.
abbrev two_digits : ℕ → Text
two_digits i = (b'0' + i / 10) ∷ (b'0' + i % 10) ∷ []

-- The decoder of the package base64.
module _ (J : JsonApi) (decode : Text → Option (List ℕ)) where
  open J use {Value, get, as_u64}

  -- `n` components from the one numbered `i` on.
  unfoldable pub raw_cpusvn_loop : ℕ → ℕ → Value → Option Text
  raw_cpusvn_loop zero i tcb = some []
  raw_cpusvn_loop (suc n) i tcb =
      let rest = raw_cpusvn_loop n (i + 1) tcb in
      elim (get tcb (codes "sgxtcbcomp" ++ (two_digits i ++ codes "svn"))) [
        | none ↦ none
        | some v ↦ elim (as_u64 v) [
          | none ↦ none
          | some svn ↦
              if ltb 255 svn
              then none
              else (elim rest [ none ↦ none | some out ↦ some (encode_upper (svn ∷ []) ++ out) ])
        ]
      ]

  unfoldable pub raw_cpusvn_from_tcb : Value → Option Text
  unfolding raw_cpusvn_loop
  raw_cpusvn_from_tcb tcb = raw_cpusvn_loop 16 1 tcb

  abbrev pub tcb_info_of : TcbRecord Value → Value
  tcb_info_of tcb = elim (get tcb.tcbinfo (codes "tcbInfo")) [
    | none ↦ tcb.tcbinfo
    | some info ↦ info
  ]

  unfoldable pub select_from_pool_with_tcb :
      PlatformPool → Text → Text → Text → TcbRecord Value → Result PccsError PckCertRecord
  unfolding cert_pairs
  select_from_pool_with_tcb pool cpusvn pcesvn pceid tcb = do
    (tcbm, cert) ←
        map_err
          (select_best_pck_cert J decode cpusvn pcesvn pceid (cert_pairs pool) (tcb_info_of tcb))
          no_cache_data
    ok (record {
      qeid = pool.qe_id;
      pceid = pool.pce_id;
      cpusvn = to_ascii_uppercase cpusvn;
      pcesvn = to_ascii_uppercase pcesvn;
      cert = cert;
      tcbm = tcbm;
      fmspc = pool.fmspc;
      ca = pool.ca;
      issuer_chain = pool.issuer_chain;
      encrypted_ppid = none_of_empty pool.enc_ppid;
      platform_manifest = pool.platform_manifest;
    })

  module _ (D : Database) (F : Formats Value) (pcs_version : ℕ) where
    open D use {State}

    -- EARLY first, then STANDARD.
    abbrev pub pool_tcb : PlatformPool → State → Option (TcbRecord Value)
    pool_tcb pool s =
        or_else (get_tcb D F 0 pool.fmspc pcs_version early s)
          (get_tcb D F 0 pool.fmspc pcs_version standard s)

    unfoldable pub select_from_pool :
        PlatformPool → Text → Text → Text → State → Result PccsError PckCertRecord
    unfolding select_from_pool_with_tcb get_tcb
    select_from_pool pool cpusvn pcesvn pceid s = do
      guard (not (is_empty pool.certs)) no_cache_data
      tcb ← ok_or (pool_tcb pool s) no_cache_data
      select_from_pool_with_tcb pool cpusvn pcesvn pceid tcb

    -- The call of `select_platform_cert` for a known platform without a cached record.
    unfoldable pub select_known : Text → Text → Text → Text → Exec State PckCertRecord
    unfolding select_platform_cert select_from_pool
    select_known qeid cpusvn pcesvn pceid s =
        select_platform_cert D F qeid pceid Bool.true
          (λ pool. select_from_pool pool cpusvn pcesvn pceid s) s

    -- Whether a registration needs no fetch.
    unfoldable pub is_cached : RegisteredPlatform → State → Bool × RegisteredPlatform
    unfolding get_platform_pool get_pckcert
    is_cached p s = elim (get_platform_pool D F p.qe_id p.pce_id s) [
      | none ↦ (Bool.false, p)
      | some platform ↦
          if is_empty p.platform_manifest
          then (
            elim (get_pckcert D F p.qe_id p.cpu_svn p.pce_svn p.pce_id s) [
              | none ↦ Bool.false
              | some _ ↦ Bool.true
            ],
            record p { platform_manifest = platform.platform_manifest },
          )
          else (text_eq platform.platform_manifest p.platform_manifest, p)
    ]
