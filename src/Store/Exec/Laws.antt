-- ===== src/Store/Exec/Laws.antt =====
-- What operations of the store leave behind: batches that are written whole or not at all.
use pccs_rs.Common.{
  ◌≡◌, refl, ◌⊎◌, List, [], ◌∷◌, ◌++◌, Option, none, some, arith, if◌then◌else◌, Option-cases, inl,
  inr,
}
use pccs_rs.Common.Result.{Result, ok, err, panic, Result-cases}
use pccs_rs.Common.Text.{Text, text_eq, text_eq_iff}
use pccs_rs.Errors.{PccsError}
use pccs_rs.Store.Database.{Database, Reliable, Op, put, delete, after, Codec}
use pccs_rs.Store.Exec.{Exec, pure, lift, gets, ◌>>=◌, ◌>>◌, write_batch, read_json}

-- An operation that does not succeed leaves the state as it was.
abbrev pub Atomic : {S A : Type 0} → Exec S A → Type 0
Atomic {S} {A} m =
    (s s' : S) (r : Result PccsError A) → m s ≡ (r, s') → (s' ≡ s) ⊎ ((a : A) × (r ≡ ok a))

module _ {S : Type 0} where
  pub pure-Atomic : {A : Type 0} (a : A) → Atomic {S = S} (pure a)
  pure-Atomic a s s' r h = ground arith

  -- A read, or a computation that may fail, before an operation.
  pub gets-Atomic :
      {A B : Type 0} (f : S → A) (k : A → Exec S B)
      → ((a : A) → Atomic (k a))
      → Atomic (gets f >>= k)
  gets-Atomic f k h s s' r e = h (f s) s s' r e

  pub lift-Atomic :
      {A B : Type 0} (m : Result PccsError A) (k : A → Exec S B)
      → ((a : A) → Atomic (k a))
      → Atomic (lift m >>= k)
  lift-Atomic (ok a) k h s s' r e = h a s s' r e
  lift-Atomic (err x) k h s s' r e = ground arith
  lift-Atomic panic k h s s' r e = ground arith

  -- What follows a write only returns.
  pub return-Atomic : {A B : Type 0} (m : Exec S A) (b : B) → Atomic m → Atomic (m >> pure b)
  return-Atomic m b h s s' r e =
      let (x, t) = m s in
      elim (Result-cases x) [
        | inl (a, done) ↦ inr (b, ground arith)
        | inr (inl (z, bad)) ↦ elim (h s t x refl) [
          | inl same ↦ inl (ground arith)
          | inr (a, done) ↦ absurd (ground arith)
        ]
        | inr (inr broken) ↦ elim (h s t x refl) [
          | inl same ↦ inl (ground arith)
          | inr (a, done) ↦ absurd (ground arith)
        ]
      ]

pub write_batch-Atomic : (D : Database) (ops : List Op) → Atomic (write_batch D ops)
unfolding write_batch
write_batch-Atomic D ops s s' r h = elim (Option-cases (D.write s ops)) [
  | inl out ↦ inl (ground arith)
  | inr (t, done) ↦ inr (tt, ground arith)
]

pub write_batch-inv :
    (D : Database) (ops : List Op) (s s' : D.State)
    → write_batch D ops s ≡ (ok tt, s')
    → D.write s ops ≡ some s'
unfolding write_batch
write_batch-inv D ops s s' h = elim (Option-cases (D.write s ops)) [
  | inl out ↦ absurd (ground arith)
  | inr (t, done) ↦ ground arith
]

pub after-append :
    (ops more : List Op) (key : Text) (old : Option Text)
    → after (ops ++ more) key old ≡ after more key (after ops key old)
after-append [] more key old = refl
after-append (put k v ∷ ops) more key old =
    after-append ops more key (if text_eq k key then some v else old)
after-append (delete k ∷ ops) more key old =
    after-append ops more key (if text_eq k key then none else old)

-- What the last operation of a batch puts is read.
pub read_json-write_last :
    (D : Database) (R : Reliable D) {A : Type 0} (C : Codec A) (ops : List Op) (key bytes : Text)
    (s s' : D.State)
    → D.write s (ops ++ put key bytes ∷ []) ≡ some s'
    → read_json D C key s' ≡ C.from_slice bytes
unfolding read_json
read_json-write_last D R C ops key bytes s s' done = ground (
  arith,
  R.get-content s' key,
  R.content-write s s' (ops ++ put key bytes ∷ []) key done,
  after-append ops (put key bytes ∷ []) key (R.content s key),
  text_eq_iff key key,
)

-- A batch that was computed and written.
pub lift-write_batch-inv :
    (D : Database) (m : Result PccsError (List Op)) (s s' : D.State)
    → (lift m >>= write_batch D) s ≡ (ok tt, s')
    → (ops : List Op) × (m ≡ ok ops) × (D.write s ops ≡ some s')
lift-write_batch-inv D (ok ops) s s' h = (ops, refl, write_batch-inv D ops s s' h)
lift-write_batch-inv D (err e) s s' h = absurd (ground arith)
lift-write_batch-inv D panic s s' h = absurd (ground arith)
