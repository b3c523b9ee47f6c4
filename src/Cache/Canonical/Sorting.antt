-- ===== src/Cache/Canonical/Sorting.antt =====
-- src/cache.rs: the sorted pairs of a query.
use mathlib.Core.List.{Perm}
use mathlib.Core.List.Perm
use pccs_rs.Common.{
  ◌≡◌, refl, sym, ap, ◌∙◌, subst, true, false, ◌||◌, List, [], ◌∷◌, ◌++◌, if◌then◌else◌, arith, All,
  Bool-cases, inl, inr,
}
use pccs_rs.Common.Text.{Text, text_eq}
use pccs_rs.Cache.Canonical.{text_lt, has_key, insert_pair, sort_pairs}

text_lt_trans : (s t u : Text) → text_lt s t ≡ true → text_lt t u ≡ true → text_lt s u ≡ true
text_lt_trans s t [] h k = ground arith
text_lt_trans s [] (c ∷ u) h k = absurd (ground arith)
text_lt_trans [] (b ∷ t) (c ∷ u) h k = refl
text_lt_trans (a ∷ s) (b ∷ t) (c ∷ u) h k = ground (arith, text_lt_trans s t u)

-- Texts are equal or in order.
text_lt_total : (s t : Text) → text_lt s t ≡ false → text_eq t s ≡ false → text_lt t s ≡ true
text_lt_total [] [] h k = absurd (ground arith)
text_lt_total (a ∷ s) [] h k = refl
text_lt_total [] (b ∷ t) h k = absurd (ground arith)
text_lt_total (a ∷ s) (b ∷ t) h k = ground (arith, text_lt_total s t)

text_eq_swap : (s t : Text) → text_eq s t ≡ text_eq t s
text_eq_swap [] [] = refl
text_eq_swap [] (b ∷ t) = refl
text_eq_swap (a ∷ s) [] = refl
text_eq_swap (a ∷ s) (b ∷ t) = ground (arith, text_eq_swap s t)

abbrev Above : Text → Text × Text → Type 0
Above k y = text_lt k y.0 ≡ true

-- The keys increase.
abbrev pub Strict : List (Text × Text) → Type 0
Strict [] = Unit
Strict (x ∷ xs) = All (Above x.0) xs × Strict xs

-- No key occurs twice.
abbrev pub Fresh : List (Text × Text) → Type 0
Fresh [] = Unit
Fresh (x ∷ xs) = (has_key x.0 xs ≡ false) × Fresh xs

pub insert_pair-All :
    (P : Text × Text → Type 0) (x : Text × Text) (xs : List (Text × Text))
    → P x
    → All P xs
    → All P (insert_pair x xs)
insert_pair-All P x [] p ps = (p, tt)
insert_pair-All P x (y ∷ ys) p ps = elim (Bool-cases (text_lt y.0 x.0)) [
  | inl before ↦
      subst (λ b. All P (if b then y ∷ insert_pair x ys else x ∷ y ∷ ys)) (sym before)
        (ps.0, insert_pair-All P x ys p ps.1)
  | inr after ↦
      subst (λ b. All P (if b then y ∷ insert_pair x ys else x ∷ y ∷ ys)) (sym after) (p, ps)
]

pub sort_pairs-All :
    (P : Text × Text → Type 0) (xs : List (Text × Text)) → All P xs → All P (sort_pairs xs)
unfolding sort_pairs
sort_pairs-All P [] ps = tt
sort_pairs-All P (x ∷ xs) ps = insert_pair-All P x (sort_pairs xs) ps.0 (sort_pairs-All P xs ps.1)

insert_pair-Perm : (x : Text × Text) (xs : List (Text × Text)) → Perm (insert_pair x xs) (x ∷ xs)
insert_pair-Perm x [] = Perm.refl (x ∷ [])
insert_pair-Perm x (y ∷ ys) = elim (Bool-cases (text_lt y.0 x.0)) [
  | inl before ↦ rw before (Perm.trans (Perm.cons y (insert_pair-Perm x ys)) (Perm.swap _ _ _))
  | inr after ↦ rw after (Perm.refl (x ∷ y ∷ ys))
]

-- Sorting loses and invents no pair.
pub sort_pairs-Perm : (xs : List (Text × Text)) → Perm (sort_pairs xs) xs
unfolding sort_pairs
sort_pairs-Perm [] = Perm.refl []
sort_pairs-Perm (x ∷ xs) =
    Perm.trans (insert_pair-Perm x (sort_pairs xs)) (Perm.cons x (sort_pairs-Perm xs))

Above-trans :
    (k l : Text) (ys : List (Text × Text))
    → text_lt k l ≡ true
    → All (Above l) ys
    → All (Above k) ys
Above-trans k l [] h hs = tt
Above-trans k l (y ∷ ys) h hs = (text_lt_trans k l y.0 h hs.0, Above-trans k l ys h hs.1)

insert_pair-Strict :
    (x : Text × Text) (xs : List (Text × Text))
    → Strict xs
    → has_key x.0 xs ≡ false
    → Strict (insert_pair x xs)
insert_pair-Strict x [] s f = (tt, tt)
insert_pair-Strict x (y ∷ ys) s f = elim (Bool-cases (text_lt y.0 x.0)) [
  | inl before ↦
      subst (λ b. Strict (if b then y ∷ insert_pair x ys else x ∷ y ∷ ys)) (sym before)
        (insert_pair-All (Above y.0) x ys before s.0, insert_pair-Strict x ys s.1 (ground arith))
  | inr after ↦
      let first : text_lt x.0 y.0 ≡ true =
        text_lt_total y.0 x.0 after (ground (arith, text_eq_swap x.0 y.0)) in
      subst (λ b. Strict (if b then y ∷ insert_pair x ys else x ∷ y ∷ ys)) (sym after)
        ((first, Above-trans x.0 y.0 ys first s.0), s)
]

has_key-insert_pair :
    (k : Text) (x : Text × Text) (xs : List (Text × Text))
    → has_key k (insert_pair x xs) ≡ (text_eq x.0 k || has_key k xs)
has_key-insert_pair k x [] = refl
has_key-insert_pair k x (y ∷ ys) = ground (arith, has_key-insert_pair k x ys)

has_key-sort_pairs : (k : Text) (xs : List (Text × Text)) → has_key k (sort_pairs xs) ≡ has_key k xs
unfolding sort_pairs
has_key-sort_pairs k [] = refl
has_key-sort_pairs k (x ∷ xs) =
    has_key-insert_pair k x (sort_pairs xs) ∙ ap (λ b. text_eq x.0 k || b) (has_key-sort_pairs k xs)

-- Pairs without a repeated key are sorted into increasing keys.
pub sort_pairs-Strict : (xs : List (Text × Text)) → Fresh xs → Strict (sort_pairs xs)
unfolding sort_pairs
sort_pairs-Strict [] f = tt
sort_pairs-Strict (x ∷ xs) f =
    insert_pair-Strict x (sort_pairs xs) (sort_pairs-Strict xs f.1)
      (has_key-sort_pairs x.0 xs ∙ f.0)

has_key-snoc :
    (k : Text) (xs : List (Text × Text)) (x : Text × Text)
    → has_key k (xs ++ x ∷ []) ≡ (has_key k xs || text_eq x.0 k)
has_key-snoc k [] x = ground arith
has_key-snoc k (y ∷ ys) x = ground (arith, has_key-snoc k ys x)

-- A new key at the end.
pub Fresh-snoc :
    (xs : List (Text × Text)) (x : Text × Text)
    → Fresh xs
    → has_key x.0 xs ≡ false
    → Fresh (xs ++ x ∷ [])
Fresh-snoc [] x f h = (refl, tt)
Fresh-snoc (y ∷ ys) x f h = (
  ground (arith, has_key-snoc y.0 ys x, text_eq_swap x.0 y.0, f.0),
  Fresh-snoc ys x f.1 (ground arith),
)
