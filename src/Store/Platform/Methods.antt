-- ===== src/Store/Platform/Methods.antt =====
-- src/store.rs: the operations on pools.
use pccs_rs.Common.{ℕ, Bool, true, false, not, ◌&&◌, List, [], ◌∷◌, Option, none, some}
use pccs_rs.Common.Result.{Result, ok_or}
use pccs_rs.Common.Text.{Text, text_eq, to_ascii_uppercase}
use pccs_rs.Errors.{PccsError, no_cache_data}
use pccs_rs.Keys
use pccs_rs.Store.Database.{Database}
use pccs_rs.Store.Records.{PckCertRecord, TcbRecord, RawTcb, PlatformPool, Formats}
use pccs_rs.Store.Exec.{Exec, pure, lift, gets, ◌>>=◌, ◌>>◌, digested, write_batch}
use pccs_rs.Store.Reads.{get_pckcert, get_platform_pool, put_platform_pool, platform_key}
use pccs_rs.Store.Platform.{
  PlatformCredentials, PlatformPublication, observed, raws_of, raw_of, track, upsert, same_level,
  retain,
}
use pccs_rs.Store.Platform.Batches.{Publish, replacement, merged, publish_batch}

abbrev pub entry : Text → Text → Text → RawTcb
entry cpusvn pcesvn tcbm = record {
  cpu_svn = to_ascii_uppercase cpusvn;
  pce_svn = to_ascii_uppercase pcesvn;
  tcbm = to_ascii_uppercase tcbm;
}

-- The pool with the mapping of one raw TCB set.
unfoldable pub with_raw_tcb : Text → Text → Text → PlatformPool → PlatformPool
unfolding upsert
with_raw_tcb cpusvn pcesvn tcbm pool =
    let e = entry cpusvn pcesvn tcbm in
    record pool {
      raw_tcbs =
          upsert (λ (r : RawTcb). text_eq r.cpu_svn e.cpu_svn && text_eq r.pce_svn e.pce_svn)
            (λ r. record r { tcbm = e.tcbm }) e pool.raw_tcbs;
    }

unfoldable pub without_raw_tcb : Text → Text → PlatformPool → PlatformPool
unfolding retain
without_raw_tcb cpusvn pcesvn pool = record pool {
  raw_tcbs = retain (λ r. not (same_level cpusvn pcesvn r)) pool.raw_tcbs;
}

module _ (D : Database) {V : Type 0} (F : Formats V) where
  open D use {State}

  unfoldable pub replace_platform_certs : PlatformPool → Exec State (List RawTcb)
  unfolding put_platform_pool get_platform_pool
  replace_platform_certs fresh = do
    previous ← gets (λ s. raws_of (get_platform_pool D F fresh.qe_id fresh.pce_id s))
    put_platform_pool D F (record fresh { raw_tcbs = previous })
    pure previous

  -- `if persist`: the record and its raw mapping in one batch.
  unfoldable pub publish_selection :
      Text → Text → Bool → PlatformPool → PckCertRecord → Exec State (Unit {0})
  unfolding publish_batch write_batch track
  publish_selection qeid pceid false pool rec = pure tt
  publish_selection qeid pceid true pool rec = do
    ops ← lift (
        publish_batch F (digested (Keys.platform qeid pceid)) [] (record {
          pool = record pool { raw_tcbs = track (raw_of rec) pool.raw_tcbs };
          records = rec ∷ [];
        }))
    write_batch D ops

  unfoldable pub select_platform_cert :
      Text
      → Text
      → Bool
      → (PlatformPool → Result PccsError PckCertRecord)
      → Exec State PckCertRecord
  unfolding publish_selection get_platform_pool
  select_platform_cert qeid pceid persist select = do
    found ← gets (get_platform_pool D F qeid pceid)
    pool ← lift (ok_or found no_cache_data)
    rec ← lift (select pool)
    publish_selection qeid pceid persist pool rec
    pure rec

  unfoldable pub replace_platform_certs_after_fetch :
      PlatformPool
      → PlatformPublication
      → List (TcbRecord V)
      → Option PckCertRecord
      → (PlatformPool → RawTcb → Result PccsError PckCertRecord)
      → Exec State (Unit {0})
  unfolding replacement write_batch get_platform_pool
  replace_platform_certs_after_fetch fresh publication tcbs selected select = do
    current ← gets (get_platform_pool D F fresh.qe_id fresh.pce_id)
    ops ← lift (replacement F fresh publication tcbs selected (select fresh) current)
    write_batch D ops

  unfoldable pub replace_platform_certs_with_selection :
      PlatformPool
      → Option PlatformCredentials
      → List (TcbRecord V)
      → Option PckCertRecord
      → (PlatformPool → RawTcb → Result PccsError PckCertRecord)
      → Exec State (Unit {0})
  unfolding replace_platform_certs_after_fetch
  replace_platform_certs_with_selection fresh expected tcbs selected select =
      replace_platform_certs_after_fetch fresh (observed expected) tcbs selected select

  -- The decoder of the package base64.
  module _ (decode : Text → Option (List ℕ)) where
    -- The pool and the records to be published, from what the store holds.
    unfoldable pub merge_publish :
        PckCertRecord → PlatformPublication → State → Result PccsError Publish
    unfolding merged get_platform_pool
    merge_publish rec publication s =
        merged decode rec publication
          (λ pool raw. get_pckcert D F pool.qe_id raw.cpu_svn raw.pce_svn pool.pce_id s)
          (get_platform_pool D F rec.qeid rec.pceid s)

    unfoldable pub merge_pckcert_after_fetch :
        PckCertRecord → PlatformPublication → Exec State (Unit {0})
    unfolding merge_publish publish_batch write_batch
    merge_pckcert_after_fetch rec publication = do
      read ← gets (merge_publish rec publication)
      publish ← lift read
      ops ← lift (publish_batch F (platform_key publish.pool) [] publish)
      write_batch D ops

    unfoldable pub merge_pckcert :
        PckCertRecord → Option PlatformCredentials → Exec State (Unit {0})
    unfolding merge_pckcert_after_fetch
    merge_pckcert rec expected = merge_pckcert_after_fetch rec (observed expected)

  -- An unknown platform is left alone.
  unfoldable pub update_pool :
      (PlatformPool → PlatformPool) → Option PlatformPool → Exec State (Unit {0})
  update_pool change none = pure tt
  update_pool change (some pool) = put_platform_pool D F (change pool)

  unfoldable pub upsert_raw_tcb : Text → Text → Text → Text → Text → Exec State (Unit {0})
  unfolding update_pool with_raw_tcb get_platform_pool put_platform_pool
  upsert_raw_tcb qeid pceid cpusvn pcesvn tcbm = do
    found ← gets (get_platform_pool D F qeid pceid)
    update_pool (with_raw_tcb cpusvn pcesvn tcbm) found

  unfoldable pub remove_raw_tcb : Text → Text → Text → Text → Exec State (Unit {0})
  unfolding update_pool without_raw_tcb get_platform_pool put_platform_pool
  remove_raw_tcb qeid pceid cpusvn pcesvn = do
    found ← gets (get_platform_pool D F qeid pceid)
    update_pool (without_raw_tcb cpusvn pcesvn) found
