-- ===== src/Store/Bounded/Sweep.antt =====
-- src/store.rs: the removal of the expired records under a prefix.
use pccs_rs.Common.{
  ℕ, ◌+◌, ◌-◌, Bool, true, false, List, [], ◌∷◌, ◌++◌, Option, none, some, if◌then◌else◌, ◌==◌, ltb,
}
use pccs_rs.Common.Result.{Result, ok, err, panic, ◌>>=◌}
use pccs_rs.Common.Text.{Text, codes, text_eq}
use pccs_rs.Errors.{PccsError, internal_error}
use pccs_rs.Store.Database.{Database, Codec, Op, put, delete}
use pccs_rs.Store.Exec.{Exec}
use pccs_rs.Store.Scans.{starts_with}
use pccs_rs.Store.Bounded.{unindex, readthrough_count, fifo_count_key, to_be_bytes}

-- The batch, and how many records and how many indexed records it removes.
pub record Swept : Type 0 where
  pub batch : List Op
  pub swept : ℕ
  pub unindexed : ℕ

-- `BOUNDED_KINDS.contains`.
abbrev is_bounded_kind : Text → Bool
is_bounded_kind prefix =
    if text_eq (codes "amd-kds/") prefix
    then true
    else if text_eq (codes "nvidia-rim/") prefix
    then true
    else text_eq (codes "nvidia-ocsp/") prefix

module _ {A : Type 0} (C : Codec A) (expired : A → Bool) where
  abbrev is_expired : Text → Bool
  is_expired v = elim (C.from_slice v) [ none ↦ Bool.false | some rec ↦ expired rec ]

  module _ (D : Database) where
    open D use {State}

    abbrev sweep_one : Text → Text → State → Swept → Swept
    sweep_one prefix k s rest =
        elim (if is_bounded_kind prefix then unindex D prefix k s else none) [
          | none ↦ record rest { batch = delete k ∷ rest.batch; swept = rest.swept + 1 }
          | some rows ↦ record {
            batch = delete k ∷ (rows ++ rest.batch);
            swept = rest.swept + 1;
            unindexed = rest.unindexed + 1;
          }
        ]

    unfoldable pub sweep_rows : Text → State → List (Option (Text × Text)) → Result PccsError Swept
    unfolding unindex
    sweep_rows prefix s [] = ok (record { batch = []; swept = 0; unindexed = 0 })
    sweep_rows prefix s (none ∷ rows) = err internal_error
    sweep_rows prefix s (some (k, v) ∷ rows) = elim (starts_with prefix k) [
      | false ↦ ok (record { batch = []; swept = 0; unindexed = 0 })
      | true ↦ do
        rest ← sweep_rows prefix s rows
        ok (if is_expired v then sweep_one prefix k s rest else rest)
    ]

    -- The count row of a bounded kind.
    abbrev count_row : Text → State → Swept → List Op
    count_row prefix s swept =
        if ltb 0 swept.unindexed
        then put (fifo_count_key prefix)
            (to_be_bytes (readthrough_count D prefix s - swept.unindexed))
          ∷ []
        else []

    unfoldable pub sweep_prefix : Text → Exec State ℕ
    unfolding sweep_rows fifo_count_key to_be_bytes readthrough_count
    sweep_prefix prefix s = elim (sweep_rows prefix s (D.iterator s prefix)) [
      | err e ↦ (err e, s)
      | panic ↦ (panic, s)
      | ok swept ↦
          if swept.swept == 0
          then (ok 0, s)
          else (elim (D.write s (swept.batch ++ count_row prefix s swept)) [
            | none ↦ (err internal_error, s)
            | some s' ↦ (ok swept.swept, s')
          ])
    ]
