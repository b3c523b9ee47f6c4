-- ===== src/Selection/Buckets.antt =====
-- src/selection.rs: the buckets of certificates, one for each TCB level, and their sort. A bucket
-- holds the indices of its certificates. Each loop of the sort is a function of its own over its
-- variables, with a bound on its rounds that Sorting.antt shows to be enough.
pub mod Sorting
use pccs_rs.Common.{
  ℕ, zero, suc, ◌+◌, ◌-◌, ◌/◌, ◌^◌, Bool, true, false, not, ◌&&◌, List, [], ◌∷◌, ◌++◌, reverse,
  Option, none, some, ltb, ◌==◌, if◌then◌else◌, length, take, drop, get_elem?,
}
use pccs_rs.Common.Result.{Result, ok, err, panic, ◌>>=◌, ok_or, or_panic, collect}
use pccs_rs.Common.Text.{Text, codes}
use pccs_rs.Common.Int.{ℤ, pos, is_negative, is_nonneg}
use pccs_rs.Common.Json.{JsonApi}
use pccs_rs.Selection.Error.{SelectionError, empty_tcb_levels, invalid_tcb_levels}
use pccs_rs.Selection.Tcb.{Tcb, TcbNonComparable, compare, new}
use pccs_rs.Selection.Input.{level_cpusvn}

pub record Bucket : Type 0 where
  pub tcb : Option Tcb
  pub certs : List ℕ

-- `unwrap_or(0)`.
abbrev score : Result TcbNonComparable ℤ → ℤ
score (ok n) = n
score (err _) = pos 0
score panic = pos 0

-- The comparator `(x, y) => y.tcb.compare(x.tcb)`.
unfoldable pub cmp : Bucket → Bucket → ℤ
cmp x y = elim x.tcb [
  | none ↦ pos 0
  | some xt ↦ elim y.tcb [ none ↦ pos 0 | some yt ↦ score (compare yt xt) ]
]

-- `cmp(&buckets[i], &buckets[j])`.
unfoldable pub cmp_at : List Bucket → ℕ → ℕ → Result SelectionError ℤ
unfolding cmp
cmp_at buckets i j = do
  x ← or_panic (get_elem? buckets i)
  y ← or_panic (get_elem? buckets j)
  ok (cmp x y)

-- `while run < len && goes_on(cmp(&buckets[run], &buckets[run - 1])) { run += 1 }`.
unfoldable pub extend_run : ℕ → (ℤ → Bool) → List Bucket → ℕ → Result SelectionError ℕ
unfolding cmp_at
extend_run zero goes_on buckets run = panic
extend_run (suc fuel) goes_on buckets run =
    let rest = extend_run fuel goes_on buckets (run + 1) in
    if not (ltb run (length buckets))
    then ok run
    else (do n ← cmp_at buckets run (run - 1); if goes_on n then rest else ok run)

-- The initial run: its length, and the array with a descending run reversed.
unfoldable pub make_run_ascending : List Bucket → Result SelectionError (ℕ × List Bucket)
unfolding extend_run
make_run_ascending buckets = do
  n ← cmp_at buckets 1 0
  if is_negative n
      then (do
        run ← extend_run (length buckets) is_negative buckets 2
        ok (run, reverse (take run buckets) ++ drop run buckets))
      else (do run ← extend_run (length buckets) is_nonneg buckets 1; ok (run, buckets))

-- The binary search for the place of `buckets[start]`.
unfoldable pub insertion_point : ℕ → List Bucket → ℕ → ℕ → ℕ → Result SelectionError ℕ
unfolding cmp_at
insertion_point zero buckets start left right = panic
insertion_point (suc fuel) buckets start left right =
    let mid = left + (right - left) / 2 in
    let lower = insertion_point fuel buckets start left mid in
    let upper = insertion_point fuel buckets start (mid + 1) right in
    if not (ltb left right)
    then ok left
    else (do n ← cmp_at buckets start mid; if is_negative n then lower else upper)

-- `buckets[left..=start].rotate_right(1)`.
unfoldable pub rotate_into : List Bucket → ℕ → ℕ → Result SelectionError (List Bucket)
rotate_into buckets left start = do
  pivot ← or_panic (get_elem? buckets start)
  if ltb start left
      then panic
      else ok (
          take left buckets
          ++ pivot ∷ (take (start - left) (drop left buckets) ++ drop (start + 1) buckets))

-- `for start in run..len`, `rounds` of it left.
unfoldable pub insert_from : ℕ → ℕ → List Bucket → Result SelectionError (List Bucket)
unfolding insertion_point rotate_into
insert_from zero start buckets = ok buckets
insert_from (suc rounds) start buckets = do
  left ← insertion_point (suc start) buckets start 0 start
  buckets' ← rotate_into buckets left start
  insert_from rounds (start + 1) buckets'

unfoldable pub v8_sort_desc : List Bucket → Result SelectionError (List Bucket)
unfolding make_run_ascending insert_from
v8_sort_desc buckets = if ltb (length buckets) 2 then ok buckets else (do
  (run, ascending) ← make_run_ascending buckets
  insert_from (length buckets - run) run ascending)

module _ (J : JsonApi) where
  open J use {Value, get, as_u64, as_array}

  abbrev to_u32 : Option ℕ → Option ℕ
  to_u32 none = none
  to_u32 (some n) = if ltb n (2 ^ 32) then some n else none

  abbrev pub get_as {ℓ} : {A : Type ℓ} → (Value → Option A) → Value → Text → Option A
  get_as read v key = elim (get v key) [ none ↦ none | some x ↦ read x ]

  unfoldable pub level_bucket : Value → Result SelectionError Bucket
  level_bucket level = do
    tcb ← ok_or (get level (codes "tcb")) invalid_tcb_levels
    cpusvn ← ok_or (level_cpusvn J tcb) invalid_tcb_levels
    pcesvn ← ok_or (get_as as_u64 tcb (codes "pcesvn")) invalid_tcb_levels
    svn ← ok_or (to_u32 (some pcesvn)) invalid_tcb_levels
    t ← new cpusvn svn
    ok (record { tcb = some t; certs = [] })

  unfoldable pub create_buckets : Value → Result SelectionError (List Bucket)
  unfolding level_bucket v8_sort_desc
  create_buckets tcb_info = do
    levels ← ok_or (get_as as_array tcb_info (codes "tcbLevels")) empty_tcb_levels
    buckets ← collect level_bucket levels
    v8_sort_desc buckets
