-- ===== src/Cache/Pool/Laws.antt =====
-- src/cache.rs: what the selection from a cached pool answers and leaves in the store.
use pccs_rs.Common.{
  ℕ, ◌≡◌, ◌∙◌, ap, refl, subst, true, not, List, [], ◌∷◌, Option, some, arith, Option-cases, inl,
  inr, is_empty,
}
use pccs_rs.Common.Result.{Result, ok, >>=-eq-ok, ok_or, guard, Result-cases}
use pccs_rs.Common.Text.{Text, eq_ignore_ascii_case}
use pccs_rs.Common.Json.{JsonApi}
use pccs_rs.Errors.{PccsError, no_cache_data}
use pccs_rs.Keys
use pccs_rs.Selection.Choice.{select_best_pck_cert}
use pccs_rs.Selection.Choice.Promise.{Selected, select_best_pck_cert_sound}
use pccs_rs.Store.Database.{Database, Reliable, RoundTrips}
use pccs_rs.Store.Records.{PckCertRecord, TcbRecord, PlatformPool, Formats}
use pccs_rs.Store.Exec.{digested}
use pccs_rs.Store.Exec.Laws.{read_json-write_last, lift-write_batch-inv}
use pccs_rs.Store.Reads.{get_platform_pool}
use pccs_rs.Store.Reads.Laws.{get_platform_pool_sound}
use pccs_rs.Store.Platform.{cert_pairs, track, raw_of}
use pccs_rs.Store.Platform.Batches.{Publish, publish_batch}
use pccs_rs.Store.Platform.Methods.{select_platform_cert, publish_selection}
use pccs_rs.Store.Platform.Outcomes.{publish_batch-last}
use pccs_rs.Cache.Pool.{
  tcb_info_of, pool_tcb, select_from_pool_with_tcb, select_from_pool, select_known,
}

module _ (J : JsonApi) (decode : Text → Option (List ℕ)) where
  select_from_pool_with_tcb_inv :
      (pool : PlatformPool) (cpusvn pcesvn pceid : Text) (tcb : TcbRecord J.Value)
      (rec : PckCertRecord)
      → select_from_pool_with_tcb J decode pool cpusvn pcesvn pceid tcb ≡ ok rec
      → select_best_pck_cert J decode cpusvn pcesvn pceid
          (cert_pairs pool)
          (tcb_info_of J decode tcb)
        ≡ ok (rec.tcbm, rec.cert)
  unfolding select_from_pool_with_tcb
  select_from_pool_with_tcb_inv pool cpusvn pcesvn pceid tcb rec h =
      let info = tcb_info_of J decode tcb in
      elim (Result-cases
        (select_best_pck_cert J decode cpusvn pcesvn pceid (cert_pairs pool) info)) [
          | inl ((tcbm, pem), found) ↦
              let same : ◌≡◌ {A = Text × Text} (tcbm, pem) (rec.tcbm, rec.cert) = ground arith in
              found ∙ ap (λ r. ok r) same
          | inr (inl (e, bad)) ↦ absurd (ground arith)
          | inr (inr broken) ↦ absurd (ground arith)
        ]

module _ (D : Database) (R : Reliable D) {V : Type 0} (F : Formats V) where
  -- A selection that is published puts the pool with the raw mapping of the record.
  publish_selection-read_back :
      (qeid pceid : Text) (pool : PlatformPool) (rec : PckCertRecord) (s s' : D.State)
      → RoundTrips F.platform
      → eq_ignore_ascii_case pool.qe_id qeid ≡ true
      → eq_ignore_ascii_case pool.pce_id pceid ≡ true
      → publish_selection D F qeid pceid true pool rec s ≡ (ok tt, s')
      → get_platform_pool D F qeid pceid s'
        ≡ some (record pool { raw_tcbs = track (raw_of rec) pool.raw_tcbs })
  unfolding publish_selection get_platform_pool
  publish_selection-read_back qeid pceid pool rec s s' trips eq ep h =
      let key = digested (Keys.platform qeid pceid) in
      let pool' = record pool { raw_tcbs = track (raw_of rec) pool.raw_tcbs } in
      let publish : Publish = record { pool = pool'; records = rec ∷ [] } in
      let (ops, made, done) = lift-write_batch-inv D (publish_batch F key [] publish) s s' h in
      let (front, bytes, text, same) = publish_batch-last F key [] publish ops made in
      let read =
        read_json-write_last D R F.platform front key bytes s s'
          (subst (λ o. D.write s o ≡ some s') same done) in
      rw (read, trips.back pool' bytes text, eq, ep) refl

  select_platform_cert-inv :
      (qeid pceid : Text) (select : PlatformPool → Result PccsError PckCertRecord) (s s' : D.State)
      (rec : PckCertRecord)
      → select_platform_cert D F qeid pceid true select s ≡ (ok rec, s')
      → (pool : PlatformPool) × (get_platform_pool D F qeid pceid s ≡ some pool)
        × (select pool ≡ ok rec)
        × (publish_selection D F qeid pceid true pool rec s ≡ (ok tt, s'))
  unfolding select_platform_cert
  select_platform_cert-inv qeid pceid select s s' rec h =
      elim (Option-cases (get_platform_pool D F qeid pceid s)) [
        | inl out ↦ absurd (ground arith)
        | inr (pool, found) ↦ elim (Result-cases (select pool)) [
          | inl (rec', chosen) ↦
              let (done, t) = publish_selection D F qeid pceid true pool rec' s in
              elim (Result-cases done) [
                | inl (u, fine) ↦
                    let same : rec' ≡ rec = ground arith in
                    (
                      pool,
                      found,
                      ground arith,
                      subst (λ r. publish_selection D F qeid pceid true pool r s ≡ (ok tt, s')) same
                          (ground arith),
                    )
                | inr (inl (e, bad)) ↦ absurd (ground arith)
                | inr (inr broken) ↦ absurd (ground arith)
              ]
          | inr (inl (e, bad)) ↦ absurd (ground arith)
          | inr (inr broken) ↦ absurd (ground arith)
        ]
      ]

module _ (J : JsonApi) (decode : Text → Option (List ℕ)) (D : Database) (R : Reliable D)
    (F : Formats J.Value) where
  -- A request of a known platform that is answered by a selection gets what the selection of the code
  -- answers on the platform's pool and the TCB Info of a record that the store holds for the pool's
  -- FMSPC; it is a certificate of the pool whose TCB is in no component above the request's, and the
  -- pool has from then on the raw mapping of the answer.
  pub select_known_lem :
      (pcs_version : ℕ) (qeid cpusvn pcesvn pceid : Text) (s s' : D.State) (rec : PckCertRecord)
      → RoundTrips F.platform
      → select_known J decode D F pcs_version qeid cpusvn pcesvn pceid s ≡ (ok rec, s')
      → (pool : PlatformPool) × (tcb : TcbRecord J.Value) × (get_platform_pool D F qeid pceid s
          ≡ some pool)
        × (pool_tcb J decode D F pcs_version pool s ≡ some tcb)
        × (select_best_pck_cert J decode cpusvn pcesvn pceid
              (cert_pairs pool)
              (tcb_info_of J decode tcb)
            ≡ ok (rec.tcbm, rec.cert))
        × Selected J decode cpusvn pcesvn pceid
            (cert_pairs pool)
            (tcb_info_of J decode tcb)
            rec.tcbm
            rec.cert
        × (get_platform_pool D F qeid pceid s'
            ≡ some (record pool { raw_tcbs = track (raw_of rec) pool.raw_tcbs }))
  unfolding select_known select_from_pool
  select_known_lem pcs_version qeid cpusvn pcesvn pceid s s' rec trips h =
      let (pool, found, chosen, published) =
        select_platform_cert-inv D R F qeid pceid
          (λ pool. select_from_pool J decode D F pcs_version pool cpusvn pcesvn pceid s) s s' rec
          h in
      let (_, _, h1) = >>=-eq-ok (guard (not (is_empty pool.certs)) no_cache_data) _ chosen in
      let (tcb, given, h2) =
        >>=-eq-ok (ok_or (pool_tcb J decode D F pcs_version pool s) no_cache_data) _ h1 in
      let selected = select_from_pool_with_tcb_inv J decode pool cpusvn pcesvn pceid tcb rec h2 in
      let (eq, ep) = get_platform_pool_sound D F s qeid pceid pool found in
      (
        pool,
        tcb,
        found,
        ground (arith, given),
        selected,
        select_best_pck_cert_sound J decode cpusvn pcesvn pceid (cert_pairs pool)
            (tcb_info_of J decode tcb) rec.tcbm rec.cert selected,
        publish_selection-read_back D R F qeid pceid pool rec s s' trips eq ep published,
      )
