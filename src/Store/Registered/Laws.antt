-- ===== src/Store/Registered/Laws.antt =====
-- src/store.rs: what a drain of the queue returns and deletes.
use pccs_rs.Common.{
  ℕ, ◌≡◌, refl, ◌∙◌, Bool, false, ◌&&◌, ◌||◌, List, [], ◌∷◌, Option, none, some, arith,
  if◌then◌else◌, ◌==◌, Option-cases, inl, inr,
}
use pccs_rs.Common.Result.{ok}
use pccs_rs.Common.Text.{Text, codes, text_eq}
use pccs_rs.Store.Database.{Database, Reliable, Codec, RoundTrips, after}
use pccs_rs.Store.Records.{RegisteredPlatform, Formats}
use pccs_rs.Store.Exec.{read_json, write_batch}
use pccs_rs.Store.Exec.Laws.{Atomic, return-Atomic, write_batch-Atomic}
use pccs_rs.Store.Reads.Laws.{read_json-put_json}
use pccs_rs.Store.Scans.{scan_prefix, decode_all}
use pccs_rs.Store.Registered.{taken, take_registered, register_platform, normalize_reg, preg_key}

-- The registrations in a state, in order.
abbrev pub in_state : ℕ → List RegisteredPlatform → List RegisteredPlatform
in_state state [] = []
in_state state (p ∷ ps) = if p.state == state then p ∷ in_state state ps else in_state state ps

-- Whether a row is a registration in a state.
abbrev pub is_due : Codec RegisteredPlatform → ℕ → Text → Bool
is_due C state v = elim (C.from_slice v) [ none ↦ Bool.false | some p ↦ p.state == state ]

-- Whether a key is that of a row in a state.
abbrev pub due_at : Codec RegisteredPlatform → ℕ → Text → List (Text × Text) → Bool
due_at C state key [] = false
due_at C state key ((k, v) ∷ rest) = text_eq k key && is_due C state v || due_at C state key rest

taken-in_state :
    (C : Codec RegisteredPlatform) (state : ℕ) (rows : List (Text × Text))
    → (taken C state rows).0 ≡ in_state state (decode_all C rows)
unfolding taken decode_all
taken-in_state C state [] = refl
taken-in_state C state ((k, v) ∷ rest) = elim (Option-cases (C.from_slice v)) [
  | inl out ↦ ground (arith, out, taken-in_state C state rest)
  | inr (p, read) ↦ ground (arith, read, taken-in_state C state rest)
]

after-taken :
    (C : Codec RegisteredPlatform) (state : ℕ) (rows : List (Text × Text)) (key : Text)
    (old : Option Text)
    → after (taken C state rows).1 key old ≡ (if due_at C state key rows then none else old)
unfolding taken
after-taken C state [] key old = refl
after-taken C state ((k, v) ∷ rest) key old = elim (Option-cases (C.from_slice v)) [
  | inl out ↦ ground (arith, out, after-taken C state rest key old)
  | inr (p, read) ↦
      ground (arith, read, after-taken C state rest key old, after-taken C state rest key none)
]

module _ (D : Database) {V : Type 0} (F : Formats V) where
  -- A drain of the queue that fails leaves the store as it was.
  pub take_registered-Atomic :
      (lossy : Text → Text) (state : ℕ) → Atomic (take_registered D F lossy state)
  unfolding take_registered
  take_registered-Atomic lossy state s =
      return-Atomic
        (write_batch D (taken F.registered state (scan_prefix D lossy (codes "preg/") s)).1) _
        (write_batch-Atomic D _) s

  module _ (R : Reliable D) where
    -- A drain of the queue returns the registrations in the state that the scan finds, in its order,
    -- and deletes the keys of exactly those rows.
    pub take_registered_lem :
        (lossy : Text → Text) (state : ℕ) (s s' : D.State) (ps : List RegisteredPlatform)
        → take_registered D F lossy state s ≡ (ok ps, s')
        → let rows = scan_prefix D lossy (codes "preg/") s in
          (ps ≡ in_state state (decode_all F.registered rows))
          × ((key : Text)
              → R.content s' key
                ≡ (if due_at F.registered state key rows then none else R.content s key))
    unfolding take_registered write_batch
    take_registered_lem lossy state s s' ps h =
        let rows = scan_prefix D lossy (codes "preg/") s in
        let batch = (taken F.registered state rows).1 in
        elim (Option-cases (D.write s batch)) [
          | inl out ↦ absurd (ground arith)
          | inr (t, done) ↦ (
            ground (arith, taken-in_state F.registered state rows),
            λ key.
                R.content-write s s' batch key (ground arith)
                ∙ after-taken F.registered state rows key (R.content s key),
          )
        ]

    -- A registration is found under its key, in upper case.
    register_platform_lem :
        (p : RegisteredPlatform) (s s' : D.State)
        → RoundTrips F.registered
        → register_platform D F p s ≡ (ok tt, s')
        → read_json D F.registered (preg_key (normalize_reg p)) s' ≡ some (normalize_reg p)
    unfolding register_platform
    register_platform_lem p s s' trips h =
        read_json-put_json D R F.registered (preg_key (normalize_reg p)) (normalize_reg p) s s'
          trips h
