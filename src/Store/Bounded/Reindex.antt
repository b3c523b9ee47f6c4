-- ===== src/Store/Bounded/Reindex.antt =====
-- src/store.rs: the index of bounded kinds that were written before there was one.
use pccs_rs.Common.{
  ℕ, ◌+◌, ◌*◌, ◌-◌, ◌^◌, Bool, true, false, ◌&&◌, ◌||◌, List, [], ◌∷◌, ◌++◌, Option, none, some,
  if◌then◌else◌, ◌==◌, ltb, length,
}
use pccs_rs.Common.Result.{ok, err}
use pccs_rs.Common.Text.{Text, codes}
use pccs_rs.Errors.{internal_error}
use pccs_rs.Store.Database.{Database, Op, put}
use pccs_rs.Store.Exec.{Exec, ◌>>◌}
use pccs_rs.Store.Scans.{scan_prefix}
use pccs_rs.Store.Bounded.{fifo_order_key, fifo_pos_key, fifo_count_key, to_be_bytes}

-- The time of a record and its key.
abbrev Entry : Type 0
Entry = ℕ × Text

-- The order of pairs: by time, then by the bytes of the key.
abbrev text_le : Text → Text → Bool
text_le [] t = true
text_le (a ∷ s) [] = false
text_le (a ∷ s) (b ∷ t) = ltb a b || (a == b) && text_le s t

abbrev entry_le : Entry → Entry → Bool
entry_le (m, s) (n, t) = ltb m n || (m == n) && text_le s t

-- `entries.sort()`.
abbrev insert_entry : Entry → List Entry → List Entry
insert_entry e [] = e ∷ []
insert_entry e (f ∷ fs) = if entry_le e f then e ∷ f ∷ fs else f ∷ insert_entry e fs

unfoldable pub sort_entries : List Entry → List Entry
sort_entries [] = []
sort_entries (e ∷ es) = insert_entry e (sort_entries es)

-- `saturating_mul` and `saturating_add` of `u64`.
abbrev saturated : ℕ → ℕ
saturated n = if ltb n (2 ^ 64) then n else 2 ^ 64 - 1

unfoldable pub entry_time : ℕ → ℕ → ℕ
entry_time fetched_at i = saturated (saturated (fetched_at * 1000000) + i)

-- The rows of the entries, numbered from `i` on.
unfoldable pub index_rows : Text → ℕ → List Entry → List Op
unfolding entry_time fifo_order_key fifo_pos_key to_be_bytes
index_rows kind i [] = []
index_rows kind i ((fetched_at, key) ∷ entries) =
    put (fifo_order_key kind (entry_time fetched_at i) key) []
    ∷ put (fifo_pos_key key) (to_be_bytes (entry_time fetched_at i))
    ∷ index_rows kind (i + 1) entries

-- `stamp` reads the time of a record, `none` where it is no JSON.
abbrev entries_of : (Text → Option ℕ) → List (Text × Text) → List Entry
entries_of stamp [] = []
entries_of stamp ((key, value) ∷ rows) =
    (elim (stamp value) [ none ↦ 0 | some at ↦ at ], key) ∷ entries_of stamp rows

-- `lossy` is `String::from_utf8_lossy`.
module _ (D : Database) (lossy : Text → Text) (stamp : Text → Option ℕ) where
  open D use {State}

  -- The error's text is left out.
  unfoldable pub index_kind : Text → Exec State (Unit {0})
  unfolding sort_entries index_rows scan_prefix fifo_count_key to_be_bytes
  index_kind kind s = elim (D.get s (fifo_count_key kind)) [
    | none ↦ (err internal_error, s)
    | some found ↦ elim found [
      | some count ↦ (ok tt, s)
      | none ↦ elim (sort_entries (entries_of stamp (scan_prefix D lossy kind s))) [
        | [] ↦ (ok tt, s)
        | e ∷ es ↦
            elim (D.write s (
              index_rows kind 0 (e ∷ es)
              ++ put (fifo_count_key kind) (to_be_bytes (length (e ∷ es))) ∷ [])) [
                | none ↦ (err internal_error, s)
                | some s' ↦ (ok tt, s')
              ]
      ]
    ]
  ]

  unfoldable pub index_unindexed_entries : Exec State (Unit {0})
  unfolding index_kind
  index_unindexed_entries = do
    index_kind (codes "amd-kds/")
    index_kind (codes "nvidia-rim/")
    index_kind (codes "nvidia-ocsp/")
