-- ===== src/Store/Exec.antt =====
-- An operation of the store: it returns a result and the state that it leaves behind, also where it
-- fails.
pub mod Laws
use pccs_rs.Common.{Option, none, some, List, ◌∷◌, []}
use pccs_rs.Common.Result.{Result, ok, err, panic}
use pccs_rs.Common.Text.{Text}
use pccs_rs.Errors.{PccsError, internal_error}
use pccs_rs.Store.Database.{Database, Op, put, Codec}

abbrev pub Exec : Type 0 → Type 0 → Type 0
Exec S A = S → Result PccsError A × S

module _ {S : Type 0} where
  abbrev pub pure : {A : Type 0} → A → Exec S A
  pure a s = (ok a, s)

  abbrev pub raise : {A : Type 0} → PccsError → Exec S A
  raise e s = (err e, s)

  abbrev pub lift : {A : Type 0} → Result PccsError A → Exec S A
  lift r s = (r, s)

  abbrev pub gets : {A : Type 0} → (S → A) → Exec S A
  gets f s = (ok (f s), s)

  abbrev proceed : {A B : Type 0} → Result PccsError A → (A → Exec S B) → Exec S B
  proceed (ok a) f s = f a s
  proceed (err e) f s = (err e, s)
  proceed panic f s = (panic, s)

  infixl 5 ◌>>=◌ ◌>>◌
  abbrev pub ◌>>=◌ : {A B : Type 0} → Exec S A → (A → Exec S B) → Exec S B
  ◌>>=◌ m f s = proceed (m s).0 f (m s).1

  abbrev pub ◌>>◌ : {A B : Type 0} → Exec S A → Exec S B → Exec S B
  m >> k = m >>= λ _. k

-- `.ok().flatten()`: an error of a read counts as a missing record.
abbrev pub flatten : {A : Type 0} → Option (Option A) → Option A
flatten none = none
flatten (some found) = found

-- The text of a key; a digest always exists.
abbrev pub digested : Option Text → Text
digested none = []
digested (some key) = key

-- A record's bytes for a batch.
abbrev pub serialize : {A : Type 0} → Codec A → A → Result PccsError Text
serialize C a = elim (C.to_vec a) [ none ↦ err internal_error | some bytes ↦ ok bytes ]

module _ (D : Database) where
  open D use {State}

  -- `get_json` and `read_json`.
  unfoldable pub read_json : {A : Type 0} → Codec A → Text → State → Option A
  read_json C key s = elim (flatten (D.get s key)) [ none ↦ none | some bytes ↦ C.from_slice bytes ]

  unfoldable pub write_batch : List Op → Exec State (Unit {0})
  write_batch ops s = elim (D.write s ops) [
    | none ↦ (err internal_error, s)
    | some s' ↦ (ok tt, s')
  ]

  unfoldable pub put_json : {A : Type 0} → Codec A → Text → A → Exec State (Unit {0})
  unfolding write_batch
  put_json C key a = do bytes ← lift (serialize C a); write_batch (put key bytes ∷ [])
