-- ===== src/Store/Platform/Updates.antt =====
-- src/store.rs: what the operations on pools do to the known raw TCBs and certificates of a platform.
use pccs_rs.Common.{
  ◌≡◌, refl, sym, ap, ◌∙◌, subst, true, not, ◌&&◌, List, none, some, if◌then◌else◌, All,
}
use pccs_rs.Common.Result.{ok}
use pccs_rs.Common.Text.{Text, eq_ignore_ascii_case, to_ascii_uppercase, to_ascii_uppercase_idem}
use pccs_rs.Store.Database.{Database, Reliable, RoundTrips}
use pccs_rs.Store.Records.{RawTcb, PlatformPool, Formats}
use pccs_rs.Store.Reads.{get_platform_pool}
use pccs_rs.Store.Reads.Laws.{get_platform_pool-put_platform_pool, get_platform_pool_sound}
use pccs_rs.Store.Platform.{track, same_level, retain}
use pccs_rs.Store.Platform.Levels.{tcbm_at, tcbm_at-track, tcbm_at-retain, IsUpper, upsert-exact}
use pccs_rs.Store.Platform.Methods.{
  upsert_raw_tcb, remove_raw_tcb, with_raw_tcb, without_raw_tcb, update_pool, entry,
}

entry-IsUpper : (cpusvn pcesvn tcbm : Text) → IsUpper (entry cpusvn pcesvn tcbm)
entry-IsUpper cpusvn pcesvn tcbm = (to_ascii_uppercase_idem cpusvn, to_ascii_uppercase_idem pcesvn)

with_raw_tcb-tracks :
    (cpusvn pcesvn tcbm : Text) (pool : PlatformPool)
    → All IsUpper pool.raw_tcbs
    → with_raw_tcb cpusvn pcesvn tcbm pool
      ≡ record pool { raw_tcbs = track (entry cpusvn pcesvn tcbm) pool.raw_tcbs }
unfolding with_raw_tcb
with_raw_tcb-tracks cpusvn pcesvn tcbm pool us =
    ap (λ raws. record pool { raw_tcbs = raws })
      (upsert-exact (entry cpusvn pcesvn tcbm) pool.raw_tcbs (entry-IsUpper cpusvn pcesvn tcbm) us)

module _ (D : Database) (R : Reliable D) {V : Type 0} (F : Formats V) where
  -- The change of a known pool is read back.
  update_pool-read_back :
      (change : PlatformPool → PlatformPool) (qeid pceid : Text) (pool : PlatformPool)
      (s s' : D.State)
      → RoundTrips F.platform
      → get_platform_pool D F qeid pceid s ≡ some pool
      → (change pool).qe_id ≡ pool.qe_id
      → (change pool).pce_id ≡ pool.pce_id
      → update_pool D F change (get_platform_pool D F qeid pceid s) s ≡ (ok tt, s')
      → get_platform_pool D F qeid pceid s' ≡ some (change pool)
  unfolding update_pool
  update_pool-read_back change qeid pceid pool s s' trips found eq ep h =
      let (fq, fp) = get_platform_pool_sound D F s qeid pceid pool found in
      get_platform_pool-put_platform_pool D R F (change pool) s s' qeid pceid trips
        (subst (λ o. update_pool D F change o s ≡ (ok tt, s')) found h)
        (subst (λ q. eq_ignore_ascii_case q qeid ≡ true) (sym eq) fq)
        (subst (λ q. eq_ignore_ascii_case q pceid ≡ true) (sym ep) fp)

  -- Where the known levels of a pool are in upper case, putting a raw TCB of a known platform updates
  -- the map from levels to tcbms at its level only, in any spelling, and nothing else of the pool.
  pub upsert_raw_tcb_lem :
      (qeid pceid cpusvn pcesvn tcbm : Text) (pool : PlatformPool) (s s' : D.State)
      → RoundTrips F.platform
      → get_platform_pool D F qeid pceid s ≡ some pool
      → All IsUpper pool.raw_tcbs
      → upsert_raw_tcb D F qeid pceid cpusvn pcesvn tcbm s ≡ (ok tt, s')
      → (raws : List RawTcb) × (get_platform_pool D F qeid pceid s'
          ≡ some (record pool { raw_tcbs = raws }))
        × ((c p : Text)
            → tcbm_at c p raws ≡ (
                if same_level c p (entry cpusvn pcesvn tcbm)
                then some (to_ascii_uppercase tcbm)
                else tcbm_at c p pool.raw_tcbs))
  unfolding upsert_raw_tcb with_raw_tcb
  upsert_raw_tcb_lem qeid pceid cpusvn pcesvn tcbm pool s s' trips found us h = (
    track (entry cpusvn pcesvn tcbm) pool.raw_tcbs,
    update_pool-read_back (with_raw_tcb cpusvn pcesvn tcbm) qeid pceid pool s s' trips found refl
          refl h
        ∙ ap some (with_raw_tcb-tracks cpusvn pcesvn tcbm pool us),
    λ c p. tcbm_at-track c p (entry cpusvn pcesvn tcbm) pool.raw_tcbs,
  )

  -- Removing a raw TCB of a known platform removes its level from the map from levels to tcbms, in any
  -- spelling, and nothing else of the pool.
  pub remove_raw_tcb_lem :
      (qeid pceid cpusvn pcesvn : Text) (pool : PlatformPool) (s s' : D.State)
      → RoundTrips F.platform
      → get_platform_pool D F qeid pceid s ≡ some pool
      → remove_raw_tcb D F qeid pceid cpusvn pcesvn s ≡ (ok tt, s')
      → (raws : List RawTcb) × (get_platform_pool D F qeid pceid s'
          ≡ some (record pool { raw_tcbs = raws }))
        × ((c p : Text)
            → tcbm_at c p raws ≡ (
                if eq_ignore_ascii_case cpusvn c && eq_ignore_ascii_case pcesvn p
                then none
                else tcbm_at c p pool.raw_tcbs))
  unfolding remove_raw_tcb without_raw_tcb
  remove_raw_tcb_lem qeid pceid cpusvn pcesvn pool s s' trips found h = (
    retain (λ r. not (same_level cpusvn pcesvn r)) pool.raw_tcbs,
    update_pool-read_back (without_raw_tcb cpusvn pcesvn) qeid pceid pool s s' trips found refl refl
        h,
    λ c p. tcbm_at-retain c p cpusvn pcesvn pool.raw_tcbs,
  )
