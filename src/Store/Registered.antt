-- ===== src/Store/Registered.antt =====
-- src/store.rs: the queue of registered platforms.
pub mod Laws
use pccs_rs.Common.{ℕ, Bool, List, [], ◌∷◌, Option, none, some, if◌then◌else◌, ◌==◌}
use pccs_rs.Common.Text.{Text, codes, to_ascii_uppercase}
use pccs_rs.Errors.{PccsError}
use pccs_rs.Keys
use pccs_rs.Store.Database.{Database, Codec, Op, delete}
use pccs_rs.Store.Records.{RegisteredPlatform, Formats}
use pccs_rs.Store.Exec.{Exec, pure, gets, ◌>>=◌, ◌>>◌, digested, put_json, write_batch}
use pccs_rs.Store.Scans.{scan_prefix}

unfoldable pub normalize_reg : RegisteredPlatform → RegisteredPlatform
normalize_reg p = record p {
  qe_id = to_ascii_uppercase p.qe_id;
  pce_id = to_ascii_uppercase p.pce_id;
  cpu_svn = to_ascii_uppercase p.cpu_svn;
  pce_svn = to_ascii_uppercase p.pce_svn;
  enc_ppid = to_ascii_uppercase p.enc_ppid;
}

abbrev pub preg_key : RegisteredPlatform → Text
preg_key p = digested (Keys.preg p.qe_id p.pce_id p.cpu_svn p.pce_svn)

-- The rows that are taken, and the batch that deletes them.
unfoldable pub taken :
    Codec RegisteredPlatform → ℕ → List (Text × Text) → List RegisteredPlatform × List Op
taken C state [] = ([], [])
taken C state ((k, v) ∷ rest) =
    let (take, batch) = taken C state rest in
    elim (C.from_slice v) [
      | none ↦ (take, batch)
      | some p ↦ if p.state == state then (p ∷ take, delete k ∷ batch) else (take, batch)
    ]

module _ (D : Database) {V : Type 0} (F : Formats V) where
  open D use {State}

  unfoldable pub register_platform : RegisteredPlatform → Exec State (Unit {0})
  unfolding normalize_reg put_json
  register_platform p = put_json D F.registered (preg_key (normalize_reg p)) (normalize_reg p)

  unfoldable pub delete_registered : RegisteredPlatform → Exec State (Unit {0})
  unfolding write_batch
  delete_registered p = write_batch D (
      delete (
        digested (
          Keys.preg (to_ascii_uppercase p.qe_id) (to_ascii_uppercase p.pce_id)
            (to_ascii_uppercase p.cpu_svn) (to_ascii_uppercase p.pce_svn)))
      ∷ [])

  unfoldable pub take_registered : (Text → Text) → ℕ → Exec State (List RegisteredPlatform)
  unfolding taken scan_prefix write_batch
  take_registered lossy state = do
    rows ← gets (scan_prefix D lossy (codes "preg/"))
    write_batch D (taken F.registered state rows).1
    pure (taken F.registered state rows).0
