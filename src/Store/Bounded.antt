-- ===== src/Store/Bounded.antt =====
-- src/store.rs: the bounded kinds of records, with an index of the order in which they were written.
pub mod Laws
pub mod Sweep
pub mod Reindex
use pccs_rs.Common.{
  ℕ, zero, suc, ◌+◌, ◌*◌, ◌-◌, ◌/◌, ◌%◌, ◌^◌, Bool, true, false, not, ◌&&◌, ◌||◌, List, [], ◌∷◌,
  ◌++◌, Option, none, some, if◌then◌else◌, ◌==◌, ltb, leb, length, drop,
}
use pccs_rs.Common.Result.{Result, ok, err, panic, ◌>>=◌, ok_or}
use pccs_rs.Common.Text.{Text, codes, text_eq}
use pccs_rs.Errors.{PccsError, internal_error}
use pccs_rs.Keys
use pccs_rs.Validate.Strings.{strip_prefix}
use pccs_rs.Store.Database.{Database, Codec, Op, put, delete}
use pccs_rs.Store.Records.{AmdKdsRecord, NvidiaOcspRecord, Formats}
use pccs_rs.Store.Exec.{Exec, digested, flatten, serialize}
use pccs_rs.Store.Scans.{starts_with}

unfoldable pub fifo_order_prefix : Text → Text
fifo_order_prefix kind = codes "fifo/" ++ kind

-- `to_be_bytes` of a `u64`, and its inverse.
abbrev be_loop : ℕ → ℕ → Text → Text
be_loop zero n out = out
be_loop (suc k) n out = be_loop k (n / 256) (n % 256 ∷ out)

unfoldable pub to_be_bytes : ℕ → Text
to_be_bytes n = be_loop 8 n []

abbrev from_be : ℕ → Text → ℕ
from_be acc [] = acc
from_be acc (b ∷ s) = from_be (acc * 256 + b) s

unfoldable pub be_u64 : Text → Option ℕ
be_u64 bytes = if length bytes == 8 then some (from_be 0 bytes) else none

unfoldable pub fifo_order_key : Text → ℕ → Text → Text
unfolding fifo_order_prefix to_be_bytes
fifo_order_key kind written_at entry_key =
    fifo_order_prefix kind ++ (to_be_bytes written_at ++ entry_key)

unfoldable pub fifo_pos_key : Text → Text
fifo_pos_key entry_key = codes "fifo-pos/" ++ entry_key

unfoldable pub fifo_count_key : Text → Text
fifo_count_key kind = codes "fifo-count/" ++ kind

-- The evictions among the rows of the index: the batch that deletes them, and the count it leaves.
unfoldable pub evict :
    Text → Text → ℕ → ℕ → List (Option (Text × Text)) → Result PccsError (List Op × ℕ)
unfolding fifo_pos_key
evict prefix entry excess count [] = ok ([], count)
evict prefix entry excess count (none ∷ rows) = err internal_error
evict prefix entry excess count (some (order_key, v) ∷ rows) =
    elim (excess == 0 || not (starts_with prefix order_key)) [
      | true ↦ ok ([], count)
      | false ↦ elim (ltb (length order_key) (length prefix + 8)) [
        | true ↦ evict prefix entry excess count rows
        | false ↦
            let victim = drop (length prefix + 8) order_key in
            elim (text_eq victim entry) [
              | true ↦ evict prefix entry excess count rows
              | false ↦ do
                (batch, left) ← evict prefix entry (excess - 1) (count - 1) rows
                ok (delete victim ∷ delete (fifo_pos_key victim) ∷ delete order_key ∷ batch, left)
            ]
      ]
    ]

-- The row of the index that a rewrite replaces, and the count of a new entry.
abbrev superseded : Text → Text → ℕ → Option Text → List Op × ℕ
superseded kind entry count none = ([], (count + 1) % 2 ^ 64)
superseded kind entry count (some old) = elim (be_u64 old) [
  | none ↦ ([], count)
  | some written_at ↦ (delete (fifo_order_key kind written_at entry) ∷ [], count)
]

-- The time of a write: later than the last one handed out.
unfoldable pub next_written_at : ℕ → ℕ → ℕ
next_written_at now last =
    let later = if leb (2 ^ 64) (last + 1) then last else last + 1 in
    if ltb now later then later else now

module _ (D : Database) where
  open D use {State}

  unfoldable pub readthrough_count : Text → State → ℕ
  unfolding fifo_count_key be_u64
  readthrough_count kind s = elim (flatten (D.get s (fifo_count_key kind))) [
    | none ↦ 0
    | some bytes ↦ elim (be_u64 bytes) [ none ↦ 0 | some n ↦ n ]
  ]

  abbrev evictions : Text → Text → ℕ → ℕ → State → Result PccsError (List Op × ℕ)
  evictions kind entry max count s =
      if ltb max count
      then evict (fifo_order_prefix kind) entry (count - max) count
          (D.iterator s (fifo_order_prefix kind))
      else ok ([], count)

  -- The batch of a write, at a time and with the given bytes.
  unfoldable pub bounded_batch : Text → Text → Text → ℕ → ℕ → State → Result PccsError (List Op)
  unfolding readthrough_count fifo_pos_key fifo_order_key to_be_bytes be_u64 fifo_order_prefix evict
      fifo_count_key
  bounded_batch kind entry bytes written_at max s = do
    old ← ok_or (D.get s (fifo_pos_key entry)) internal_error
    let (front, count) = superseded kind entry (readthrough_count kind s) old
    (evicted, left) ← evictions kind entry max count s
    ok (
        front
        ++ put entry bytes
          ∷ put (fifo_pos_key entry) (to_be_bytes written_at)
          ∷ put (fifo_order_key kind written_at entry) []
          ∷ (evicted ++ put (fifo_count_key kind) (to_be_bytes left) ∷ []))

  -- The second part of the state is the last time handed out, kept in `fifo_lock`; `now` is the clock
  -- in microseconds.
  unfoldable pub put_bounded :
      {A : Type 0} → Codec A → ℕ → ℕ → Text → Text → A → Exec (State × ℕ) (Unit {0})
  unfolding bounded_batch next_written_at
  put_bounded C max now kind entry a (s, last) = elim (serialize C a) [
    | err e ↦ (err e, (s, last))
    | panic ↦ (panic, (s, last))
    | ok bytes ↦
        let written_at = next_written_at now last in
        elim (bounded_batch kind entry bytes written_at max s) [
          | err e ↦ (err e, (s, written_at))
          | panic ↦ (panic, (s, written_at))
          | ok ops ↦ elim (D.write s ops) [
            | none ↦ (err internal_error, (s, written_at))
            | some s' ↦ (ok tt, (s', written_at))
          ]
        ]
  ]

  -- The batch that removes the rows of an entry's index, if it has any.
  unfoldable pub unindex : Text → Text → State → Option (List Op)
  unfolding fifo_pos_key be_u64 fifo_order_key
  unindex kind entry s = elim (flatten (D.get s (fifo_pos_key entry))) [
    | none ↦ none
    | some pos ↦ elim (be_u64 pos) [
      | none ↦ some (delete (fifo_pos_key entry) ∷ [])
      | some written_at ↦
          some (delete (fifo_order_key kind written_at entry) ∷ delete (fifo_pos_key entry) ∷ [])
    ]
  ]

  abbrev bounded_kind : Text → Option Text
  bounded_kind key =
      if starts_with (codes "amd-kds/") key
      then some (codes "amd-kds/")
      else if starts_with (codes "nvidia-rim/") key
      then some (codes "nvidia-rim/")
      else if starts_with (codes "nvidia-ocsp/") key
      then some (codes "nvidia-ocsp/")
      else none

  abbrev pub written : State → List Op → Result PccsError (Unit {0}) × State
  written s ops = elim (D.write s ops) [ none ↦ (err internal_error, s) | some s' ↦ (ok tt, s') ]

  unfoldable pub delete_key : Text → Exec State (Unit {0})
  unfolding unindex readthrough_count fifo_count_key to_be_bytes
  delete_key key s = elim (bounded_kind key) [
    | none ↦ written s (delete key ∷ [])
    | some kind ↦ elim (unindex kind key s) [
      | none ↦ written s (delete key ∷ [])
      | some rows ↦ written s (
          delete key
          ∷ (rows ++ put (fifo_count_key kind) (to_be_bytes (readthrough_count kind s - 1)) ∷ []))
    ]
  ]

  module _ {V : Type 0} (F : Formats V) where
    unfoldable pub put_amd_kds : ℕ → ℕ → AmdKdsRecord → Exec (State × ℕ) (Unit {0})
    unfolding put_bounded
    put_amd_kds max now rec =
        put_bounded F.amd_kds max now (codes "amd-kds/") (digested (Keys.amd_kds rec.url)) rec

    unfoldable pub put_nvidia_rim : ℕ → ℕ → AmdKdsRecord → Exec (State × ℕ) (Unit {0})
    unfolding put_bounded
    put_nvidia_rim max now rec =
        put_bounded F.amd_kds max now (codes "nvidia-rim/") (digested (Keys.nvidia_rim rec.url)) rec

    unfoldable pub put_nvidia_ocsp : ℕ → ℕ → NvidiaOcspRecord → Exec (State × ℕ) (Unit {0})
    unfolding put_bounded
    put_nvidia_ocsp max now rec =
        put_bounded F.nvidia_ocsp max now (codes "nvidia-ocsp/") (Keys.nvidia_ocsp rec.cache_key)
          rec
