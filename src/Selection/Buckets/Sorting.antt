-- ===== src/Selection/Buckets/Sorting.antt =====
-- src/selection.rs: the indices of `v8_sort_desc`, and the buckets it returns.
use mathlib.Core.List.{Perm, reverse_perm}
use mathlib.Core.List.Perm
use pccs_rs.Common.{
  ℕ, zero, suc, ◌+◌, ◌-◌, ◌/◌, ◌≤◌, ◌<◌, ◌≡◌, refl, ap, subst, Bool, List, [], ◌∷◌, ◌++◌, reverse,
  some, arith, ltb, length, take, drop, get_elem?, inl, inr, Bool-cases, get_elem?_lt,
  length-append, length-reverse, length-take, length-drop, take-append-drop,
}
use native.Mathlib.Numerals.{add-one}
use pccs_rs.Common.Result.{Result, ok}
use pccs_rs.Common.Int.{ℤ, is_negative, is_nonneg}
use pccs_rs.Selection.Error.{SelectionError}
use pccs_rs.Selection.Buckets.{
  Bucket, cmp, cmp_at, extend_run, make_run_ascending, insertion_point, rotate_into, insert_from,
  v8_sort_desc,
}

cmp_at_total :
    (bs : List Bucket) (i j : ℕ) → i < length bs → j < length bs → (n : ℤ) × (cmp_at bs i j ≡ ok n)
unfolding cmp_at
cmp_at_total bs i j h k =
    let (x, ex) = get_elem?_lt bs i h in
    let (y, ey) = get_elem?_lt bs j k in (cmp x y, rw (ex, ey) refl)

extend_run_total :
    (fuel : ℕ) (goes_on : ℤ → Bool) (bs : List Bucket) (run : ℕ)
    → 1 ≤ run
    → run ≤ length bs
    → length bs < run + fuel
    → (r : ℕ) × (extend_run fuel goes_on bs run ≡ ok r) × (run ≤ r) × (r ≤ length bs)
unfolding extend_run
extend_run_total zero goes_on bs run low high enough = absurd (omega arith)
extend_run_total (suc fuel) goes_on bs run low high enough =
    elim (Bool-cases (ltb run (length bs))) [
      | inl more ↦
          let (n, compared) = cmp_at_total bs run (run - 1) (ground arith) (ground arith) in
          elim (Bool-cases (goes_on n)) [
            | inl longer ↦
                let (r, e, less, fit) =
                  extend_run_total fuel goes_on bs (run + 1) (omega arith) (ground arith)
                    (omega arith) in
                (r, ground arith, omega arith, fit)
            | inr stop ↦ (run, ground arith, omega arith, high)
          ]
      | inr end ↦ (run, ground arith, omega arith, high)
    ]

insertion_point_total :
    (fuel : ℕ) (bs : List Bucket) (start left right : ℕ)
    → start < length bs
    → left ≤ right
    → right ≤ start
    → right < left + fuel
    → (p : ℕ) × (insertion_point fuel bs start left right ≡ ok p) × (left ≤ p) × (p ≤ right)
unfolding insertion_point
insertion_point_total zero bs start left right s lr r enough = absurd (omega arith)
insertion_point_total (suc fuel) bs start left right s lr r enough =
    elim (Bool-cases (ltb left right)) [
      | inl more ↦
          let mid = left + (right - left) / 2 in
          let below : mid < right = ground arith in
          let (n, compared) = cmp_at_total bs start mid s (omega arith) in
          elim (Bool-cases (is_negative n)) [
            | inl lower ↦
                let (p, e, low, high) =
                  insertion_point_total fuel bs start left mid s (omega arith) (omega arith)
                    (omega arith) in
                (p, ground arith, low, omega arith)
            | inr upper ↦
                let (p, e, low, high) =
                  insertion_point_total fuel bs start (mid + 1) right s (omega arith) r
                    (omega arith) in
                (p, ground arith, omega arith, high)
          ]
      | inr end ↦ (left, ground arith, omega arith, lr)
    ]

perm_pull {ℓ} :
    {A : Type ℓ} (k : ℕ) (xs : List A) (x : A)
    → get_elem? xs k ≡ some x
    → Perm (x ∷ (take k xs ++ drop (suc k) xs)) xs
perm_pull k [] x e = cc
perm_pull zero (y ∷ ys) x e = let same : x ≡ y = cc in rw same (Perm.refl _)
perm_pull (suc k) (y ∷ ys) x e = Perm.trans (Perm.swap _ _ _) (Perm.cons y (perm_pull k ys x e))

-- A rotation of the part from `left` to `left + k` moves one element to the front of the part.
perm_rotate {ℓ} :
    {A : Type ℓ} (left k s : ℕ) (xs : List A) (x : A)
    → s ≡ left + k
    → get_elem? xs s ≡ some x
    → Perm (take left xs ++ x ∷ (take k (drop left xs) ++ drop (suc s) xs)) xs
perm_rotate left k s [] x h e = cc
perm_rotate zero k s (y ∷ ys) x h e =
    let same : s ≡ k = omega arith in rw same (perm_pull k (y ∷ ys) x (rw (← same) e))
perm_rotate (suc left) k zero (y ∷ ys) x h e = absurd (omega arith)
perm_rotate (suc left) k (suc s) (y ∷ ys) x h e =
    Perm.cons y (perm_rotate left k s ys x (omega arith) e)

-- What a step of the sort keeps: its result is there, with the same buckets and as many.
abbrev Keeps : Result SelectionError (List Bucket) → List Bucket → Type 0
Keeps r bs = (out : List Bucket) × (r ≡ ok out) × Perm out bs × (length out ≡ length bs)

rotate_into-Keeps :
    (bs : List Bucket) (left start : ℕ)
    → left ≤ start
    → start < length bs
    → Keeps (rotate_into bs left start) bs
unfolding rotate_into
rotate_into-Keeps bs left start h k =
    let (x, ex) = get_elem?_lt bs start k in
    let moved = take (start - left) (drop left bs) in
    (
      take left bs ++ x ∷ (moved ++ drop (start + 1) bs),
      ground (arith, ex),
      rw add-one (perm_rotate left (start - left) start bs x (omega arith) ex),
      omega (
        arith,
        length-append (take left bs) (x ∷ (moved ++ drop (start + 1) bs)),
        length-append moved (drop (start + 1) bs),
        length-take left bs,
        length-take (start - left) (drop left bs),
        length-drop left bs,
        length-drop (start + 1) bs,
      ),
    )

insert_from-Keeps :
    (rounds start : ℕ) (bs : List Bucket)
    → start + rounds ≤ length bs
    → Keeps (insert_from rounds start bs) bs
unfolding insert_from
insert_from-Keeps zero start bs h = (bs, refl, Perm.refl bs, refl)
insert_from-Keeps (suc rounds) start bs h =
    let (left, found, low, high) =
      insertion_point_total (suc start) bs start 0 start (omega arith) (omega arith) (omega arith)
        (omega arith) in
    let (bs', rotated, perm, len) = rotate_into-Keeps bs left start high (omega arith) in
    let (out, sorted, perm', len') = insert_from-Keeps rounds (start + 1) bs' (omega arith) in
    (out, rw (found, rotated, sorted) refl, Perm.trans perm' perm, omega arith)

reverse_prefix :
    (run : ℕ) (bs : List Bucket)
    → Perm (reverse (take run bs) ++ drop run bs) bs
      × (length (reverse (take run bs) ++ drop run bs) ≡ length bs)
reverse_prefix run bs = (
  subst (Perm (reverse (take run bs) ++ drop run bs)) (take-append-drop run bs)
      (Perm.append_right (drop run bs) (reverse_perm (take run bs))),
  omega (
    arith,
    length-append (reverse (take run bs)) (drop run bs),
    length-reverse (take run bs),
    length-append (take run bs) (drop run bs),
    ap length (take-append-drop run bs),
  ),
)

make_run_total :
    (bs : List Bucket)
    → 2 ≤ length bs
    → (r : ℕ) × (out : List Bucket) × (make_run_ascending bs ≡ ok (r, out))
      × (r ≤ length bs)
      × Perm out bs
      × (length out ≡ length bs)
unfolding make_run_ascending
make_run_total bs h =
    let (n, compared) = cmp_at_total bs 1 0 (omega arith) (omega arith) in
    elim (Bool-cases (is_negative n)) [
      | inl down ↦
          let (r, e, low, high) =
            extend_run_total (length bs) is_negative bs 2 (omega arith) (omega arith)
              (omega arith) in
          let (perm, len) = reverse_prefix r bs in
          (r, reverse (take r bs) ++ drop r bs, rw (compared, down, e) refl, high, perm, len)
      | inr up ↦
          let (r, e, low, high) =
            extend_run_total (length bs) is_nonneg bs 1 (omega arith) (omega arith) (omega arith) in
          (r, bs, rw (compared, up, e) refl, high, Perm.refl bs, refl)
    ]

-- The sort always ends, without an index out of bounds, whatever the comparator says of the TCBs
-- (it is no total order), and its result is a permutation of the buckets.
pub v8_sort_desc-perm :
    (bs : List Bucket)
    → (out : List Bucket) × (v8_sort_desc bs ≡ ok out) × Perm out bs × (length out ≡ length bs)
unfolding v8_sort_desc
v8_sort_desc-perm bs = elim (Bool-cases (ltb (length bs) 2)) [
  | inl short ↦ (bs, rw short refl, Perm.refl bs, refl)
  | inr long ↦
      let (r, mid, made, high, perm, len) = make_run_total bs (ground arith) in
      let (out, sorted, perm', len') = insert_from-Keeps (length bs - r) r mid (omega arith) in
      (out, rw (long, made, sorted) refl, Perm.trans perm' perm, omega arith)
]
