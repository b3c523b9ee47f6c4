-- ===== src/Store/Seed/Laws.antt =====
-- src/store.rs: a seed that is loaded again.
use pccs_rs.Common.{◌≡◌, ◌&&◌, ◌||◌, List, [], ◌∷◌, ◌++◌, arith}
use pccs_rs.Common.Text.{Text, text_eq, text_eq_iff}
use pccs_rs.Store.Records.{PckCertRecord, PlatformCert, RawTcb, PlatformPool}
use pccs_rs.Store.Seed.{any_cert, any_raw, with_seed, filled_pool, SeedPlatform}

any_raw-snoc :
    (c p : Text) (raws : List RawTcb) (r : RawTcb)
    → any_raw c p (raws ++ r ∷ [])
      ≡ (any_raw c p raws || text_eq r.cpu_svn c && text_eq r.pce_svn p)
any_raw-snoc c p [] r = ground arith
any_raw-snoc c p (q ∷ raws) r = ground (arith, any_raw-snoc c p raws r)

any_cert-snoc :
    (tcbm : Text) (certs : List PlatformCert) (c : PlatformCert)
    → any_cert tcbm (certs ++ c ∷ []) ≡ (any_cert tcbm certs || text_eq c.tcbm tcbm)
any_cert-snoc tcbm [] c = ground arith
any_cert-snoc tcbm (d ∷ certs) c = ground (arith, any_cert-snoc tcbm certs c)

-- A certificate that is seeded again changes nothing.
pub with_seed_idem :
    (rec : PckCertRecord) (pool : PlatformPool)
    → with_seed rec (with_seed rec pool) ≡ with_seed rec pool
unfolding with_seed
with_seed_idem rec pool = ground (
  arith,
  any_cert-snoc rec.tcbm pool.certs (record { tcbm = rec.tcbm; cert = rec.cert }),
  any_raw-snoc rec.cpusvn rec.pcesvn pool.raw_tcbs
      (record { cpu_svn = rec.cpusvn; pce_svn = rec.pcesvn; tcbm = rec.tcbm }),
  text_eq_iff rec.tcbm rec.tcbm,
  text_eq_iff rec.cpusvn rec.cpusvn,
  text_eq_iff rec.pcesvn rec.pcesvn,
)

-- Nor does a platform that is seeded again.
pub filled_pool_idem :
    (seed : SeedPlatform) (pool : PlatformPool)
    → filled_pool seed (filled_pool seed pool) ≡ filled_pool seed pool
unfolding filled_pool
filled_pool_idem seed pool = ground (
  arith,
  any_raw-snoc seed.cpu_svn seed.pce_svn pool.raw_tcbs
      (record { cpu_svn = seed.cpu_svn; pce_svn = seed.pce_svn; tcbm = [] }),
  text_eq_iff seed.cpu_svn seed.cpu_svn,
  text_eq_iff seed.pce_svn seed.pce_svn,
)
