-- ===== src/Selection/Tcb/Order.antt =====
-- src/selection.rs: `Tcb::compare` and the componentwise order.
use pccs_rs.Common.{
  ℕ, zero, suc, ◌≤◌, ◌≡◌, sym, ◌↔◌, Bool, true, false, not, ◌&&◌, ◌||◌, List, [], ◌∷◌, arith, ltb,
  length,
}
use pccs_rs.Common.Result.{Result, ok, err, panic}
use pccs_rs.Common.Int.{ℤ, pos, negsuc}
use pccs_rs.Selection.Tcb.{
  Tcb, TcbNonComparable, tcb_non_comparable, compare_loop, compare, at_least,
}

-- Componentwise order, over the components that both have.
abbrev pub AllLe : List ℕ → List ℕ → Type 0
AllLe [] ys = Unit
AllLe (x ∷ xs) [] = Unit
AllLe (x ∷ xs) (y ∷ ys) = (x ≤ y) × AllLe xs ys

pub AllLe-trans :
    (xs ys zs : List ℕ) → length xs ≡ length ys → AllLe xs ys → AllLe ys zs → AllLe xs zs
AllLe-trans [] ys zs e h k = tt
AllLe-trans (x ∷ xs) [] zs e h k = absurd (omega arith)
AllLe-trans (x ∷ xs) (y ∷ ys) [] e h k = tt
AllLe-trans (x ∷ xs) (y ∷ ys) (z ∷ zs) e h k =
    (omega arith, AllLe-trans xs ys zs (omega arith) h.1 k.1)

left_flag :
    (l r : Bool) (xs ys : List ℕ)
    → ((compare_loop l r xs ys).0 ≡ false) ↔ ((l ≡ false) × AllLe ys xs)
unfolding compare_loop
left_flag l r [] [] = ground arith
left_flag l r [] (y ∷ ys) = ground arith
left_flag l r (x ∷ xs) [] = ground arith
left_flag l r (x ∷ xs) (y ∷ ys) =
    ground (arith, left_flag (l || ltb x y) (r || not (ltb x y) && ltb y x) xs ys)

right_flag :
    (l r : Bool) (xs ys : List ℕ)
    → ((compare_loop l r xs ys).1 ≡ false) ↔ ((r ≡ false) × AllLe xs ys)
unfolding compare_loop
right_flag l r [] [] = ground arith
right_flag l r [] (y ∷ ys) = ground arith
right_flag l r (x ∷ xs) [] = ground arith
right_flag l r (x ∷ xs) (y ∷ ys) =
    ground (arith, right_flag (l || ltb x y) (r || not (ltb x y) && ltb y x) xs ys)

-- The decision of the order is complete: each outcome stands for one relation of the components.
-- `ok 0` is equality of the compared components, `ok 1` means that `a` is above `b`, `ok -1` that it
-- is below, and the error that neither dominates.
pub compare_cases :
    (a b : Tcb)
    → let up : Type 0 = AllLe b.components a.components in
      let down : Type 0 = AllLe a.components b.components in
      ((compare a b ≡ ok (pos 0)) ↔ (up × down))
      × ((compare a b ≡ ok (pos 1)) ↔ (up × (¬ down)))
      × ((compare a b ≡ ok (negsuc 0)) ↔ ((¬ up) × down))
      × ((compare a b ≡ err tcb_non_comparable) ↔ ((¬ up) × (¬ down)))
unfolding compare
compare_cases a b =
    let l = left_flag false false a.components b.components in
    let r = right_flag false false a.components b.components in
    (ground (arith, l, r), ground (arith, l, r), ground (arith, l, r), ground (arith, l, r))

-- The callers' test "compared, and not lower" is componentwise domination.
pub compare-at_least_iff :
    (a b : Tcb) → (at_least (compare a b) ≡ true) ↔ AllLe b.components a.components
unfolding compare
compare-at_least_iff a b = ground (arith, left_flag false false a.components b.components)

abbrev pub opposite : Result TcbNonComparable ℤ → Result TcbNonComparable ℤ
opposite (ok (pos zero)) = ok (pos 0)
opposite (ok (pos (suc n))) = ok (negsuc n)
opposite (ok (negsuc n)) = ok (pos (suc n))
opposite (err e) = err e
opposite panic = panic

-- Exchanging the operands changes the sign and keeps the error.
pub compare_swap : (a b : Tcb) → compare b a ≡ opposite (compare a b)
unfolding compare
compare_swap a b = ground (
  arith,
  left_flag false false a.components b.components,
  right_flag false false a.components b.components,
  left_flag false false b.components a.components,
  right_flag false false b.components a.components,
)

-- Domination is transitive on TCBs of equal width.
pub compare_trans :
    (a b c : Tcb)
    → length b.components ≡ length c.components
    → at_least (compare a b) ≡ true
    → at_least (compare b c) ≡ true
    → at_least (compare a c) ≡ true
compare_trans a b c e h k = (compare-at_least_iff a c).1 (
    AllLe-trans c.components b.components a.components (sym e) ((compare-at_least_iff b c).0 k)
      ((compare-at_least_iff a b).0 h))
