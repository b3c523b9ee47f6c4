-- ===== src/Store/Platform/Laws.antt =====
-- src/store.rs: what the operations on pools write.
use pccs_rs.Common.{ℕ, ◌≡◌, ◌⊎◌, Bool, true, false, List, [], ◌∷◌, Option}
use pccs_rs.Common.Result.{Result, ok, ok_or}
use pccs_rs.Common.Text.{Text}
use pccs_rs.Errors.{PccsError, no_cache_data}
use pccs_rs.Keys
use pccs_rs.Store.Database.{Database}
use pccs_rs.Store.Records.{PckCertRecord, TcbRecord, RawTcb, PlatformPool, Formats}
use pccs_rs.Store.Exec.{write_batch, digested}
use pccs_rs.Store.Exec.Laws.{Atomic, pure-Atomic, lift-Atomic, return-Atomic, write_batch-Atomic}
use pccs_rs.Store.Reads.{get_platform_pool, platform_key}
use pccs_rs.Store.Platform.{PlatformPublication, raw_of, track}
use pccs_rs.Store.Platform.Batches.{replacement, publish_batch}
use pccs_rs.Store.Platform.Methods.{
  publish_selection, select_platform_cert, replace_platform_certs_after_fetch,
  merge_pckcert_after_fetch, merge_publish,
}

module _ (D : Database) {V : Type 0} (F : Formats V) where
  -- A fetched pool that cannot be published leaves the store as it was.
  pub replace_platform_certs_after_fetch-Atomic :
      (fresh : PlatformPool) (publication : PlatformPublication) (tcbs : List (TcbRecord V))
      (selected : Option PckCertRecord)
      (select : PlatformPool → RawTcb → Result PccsError PckCertRecord)
      → Atomic (replace_platform_certs_after_fetch D F fresh publication tcbs selected select)
  unfolding replace_platform_certs_after_fetch
  replace_platform_certs_after_fetch-Atomic fresh publication tcbs selected select s =
      lift-Atomic
        (replacement F fresh publication tcbs selected (select fresh)
          (get_platform_pool D F fresh.qe_id fresh.pce_id s))
        (write_batch D) (write_batch-Atomic D) s

  pub merge_pckcert_after_fetch-Atomic :
      (decode : Text → Option (List ℕ)) (rec : PckCertRecord) (publication : PlatformPublication)
      → Atomic (merge_pckcert_after_fetch D F decode rec publication)
  unfolding merge_pckcert_after_fetch
  merge_pckcert_after_fetch-Atomic decode rec publication s =
      lift-Atomic (merge_publish D F decode rec publication s) _
        (λ publish.
          lift-Atomic (publish_batch F (platform_key publish.pool) [] publish) (write_batch D)
            (write_batch-Atomic D))
        s

  publish_selection-Atomic :
      (qeid pceid : Text) (persist : Bool) (pool : PlatformPool) (rec : PckCertRecord)
      → Atomic (publish_selection D F qeid pceid persist pool rec)
  unfolding publish_selection
  publish_selection-Atomic qeid pceid true pool rec =
      lift-Atomic
        (publish_batch F (digested (Keys.platform qeid pceid)) [] (record {
          pool = record pool { raw_tcbs = track (raw_of rec) pool.raw_tcbs };
          records = rec ∷ [];
        }))
        (write_batch D) (write_batch-Atomic D)
  publish_selection-Atomic qeid pceid false pool rec = pure-Atomic tt

  pub select_platform_cert-Atomic :
      (qeid pceid : Text) (persist : Bool) (select : PlatformPool → Result PccsError PckCertRecord)
      → Atomic (select_platform_cert D F qeid pceid persist select)
  unfolding select_platform_cert
  select_platform_cert-Atomic qeid pceid persist select s =
      lift-Atomic (ok_or (get_platform_pool D F qeid pceid s) no_cache_data) _
        (λ pool. lift-Atomic (select pool) _ (λ rec.
          return-Atomic (publish_selection D F qeid pceid persist pool rec) rec
            (publish_selection-Atomic qeid pceid persist pool rec)))
        s

-- What the two publications of fetched certificates leave behind.
module _ (D : Database) {V : Type 0} (F : Formats V) (s s' : D.State)
    (r : Result PccsError (Unit {0})) where
  -- A fetched pool that is not published, for whatever reason, leaves the store as it was.
  pub replace_platform_certs_after_fetch-unchanged :
      (fresh : PlatformPool) (publication : PlatformPublication) (tcbs : List (TcbRecord V))
      (selected : Option PckCertRecord)
      (select : PlatformPool → RawTcb → Result PccsError PckCertRecord)
      → replace_platform_certs_after_fetch D F fresh publication tcbs selected select s ≡ (r, s')
      → (s' ≡ s) ⊎ ((u : Unit {0}) × (r ≡ ok u))
  replace_platform_certs_after_fetch-unchanged fresh publication tcbs selected select h =
      replace_platform_certs_after_fetch-Atomic D F fresh publication tcbs selected select s s' r h

  -- A fetched certificate that is not merged, for whatever reason, leaves the store as it was.
  pub merge_pckcert_after_fetch-unchanged :
      (decode : Text → Option (List ℕ)) (rec : PckCertRecord) (publication : PlatformPublication)
      → merge_pckcert_after_fetch D F decode rec publication s ≡ (r, s')
      → (s' ≡ s) ⊎ ((u : Unit {0}) × (r ≡ ok u))
  merge_pckcert_after_fetch-unchanged decode rec publication h =
      merge_pckcert_after_fetch-Atomic D F decode rec publication s s' r h
