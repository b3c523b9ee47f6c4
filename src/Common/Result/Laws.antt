-- ===== src/Common/Result/Laws.antt =====
-- The laws of the result type that the components share: what a success went through, and no panic.
use pccs_rs.Common.Result.{Result, ok, err, panic, ◌>>=◌, >>=-eq-ok, ok_or, guard, collect}
use pccs_rs.Common.Lists.{All, In}
use mathlib.Core.Path.{◌≡◌, refl, sym, subst}
use mathlib.Core.Logic.{inl, inr, ◌≢◌}
use mathlib.Core.Bool.{Bool, true, false}
use mathlib.Core.Option.{Option, none, some}
use mathlib.Core.List.{List, [], ◌∷◌}

module _ {E : Type 0} where
  pub ok-injective : {A : Type 0} {a b : A} → ◌≡◌ {A = Result E A} (ok a) (ok b) → a ≡ b
  ok-injective h = cc

  pub >>=-ne-panic :
      {A B : Type 0} (m : Result E A) (f : A → Result E B)
      → m ≢ panic
      → ((a : A) → m ≡ ok a → f a ≢ panic)
      → (m >>= f) ≢ panic
  >>=-ne-panic (ok a) f h k = k a refl
  >>=-ne-panic (err e) f h k = λ p. cc
  >>=-ne-panic panic f h k = absurd (h refl)

  pub ok_or-ne-panic : {A : Type 0} (o : Option A) (e : E) → ok_or o e ≢ panic
  ok_or-ne-panic none e = λ p. cc
  ok_or-ne-panic (some a) e = λ p. cc

  pub guard-ne-panic : (b : Bool) (e : E) → guard b e ≢ panic
  guard-ne-panic true e = λ p. cc
  guard-ne-panic false e = λ p. cc

  pub guard-eq-ok : (b : Bool) (e : E) → guard b e ≡ ok tt → b ≡ true
  guard-eq-ok true e h = refl
  guard-eq-ok false e h = cc

  pub collect-ne-panic :
      {A B : Type 0} (f : A → Result E B) (xs : List A)
      → ((x : A) → f x ≢ panic)
      → collect f xs ≢ panic
  collect-ne-panic f [] h = λ p. cc
  collect-ne-panic f (x ∷ xs) h =
      >>=-ne-panic (f x) _ (h x)
        (λ y _. >>=-ne-panic (collect f xs) _ (collect-ne-panic f xs h) (λ ys _ p. cc))

  -- A collection that succeeds has collected its head and its tail.
  pub collect-cons :
      {A B : Type 0} (f : A → Result E B) (x : A) (xs : List A) (ys : List B)
      → collect f (x ∷ xs) ≡ ok ys
      → (y : B) × (zs : List B) × (f x ≡ ok y) × (collect f xs ≡ ok zs) × (ys ≡ y ∷ zs)
  collect-cons f x xs ys e =
      let (y, ey, e') = >>=-eq-ok (f x) (λ y. collect f xs >>= λ zs. ok (y ∷ zs)) e in
      let (zs, ez, e'') = >>=-eq-ok (collect f xs) (λ zs. ok (y ∷ zs)) e' in
      (y, zs, ey, ez, sym (ok-injective e''))

  -- What holds of every result holds of all that is collected.
  pub collect-All :
      {A B : Type 0} (f : A → Result E B) (P : B → Type 0)
      → ((x : A) (y : B) → f x ≡ ok y → P y)
      → (xs : List A) (ys : List B) → collect f xs ≡ ok ys
      → All P ys
  collect-All f P h [] ys e = subst (All P) (ok-injective e) tt
  collect-All f P h (x ∷ xs) ys e =
      let (y, zs, ey, ez, same) = collect-cons f x xs ys e in
      rw same (h x y ey, collect-All f P h xs zs ez)

  -- Everything that is collected comes from an element of the list.
  pub collect-In :
      {A B : Type 0} (f : A → Result E B) (xs : List A) (ys : List B) (y : B)
      → collect f xs ≡ ok ys
      → In y ys
      → (x : A) × In x xs × (f x ≡ ok y)
  collect-In f [] ys y e m = absurd (subst (In y) (sym (ok-injective e)) m)
  collect-In f (x ∷ xs) ys y e m =
      let (z, zs, ez, ezs, same) = collect-cons f x xs ys e in
      let m' : In y (z ∷ zs) = subst (In y) same m in
      elim m' [
        | inl eq ↦ (x, inl refl, rw eq ez)
        | inr there ↦ let (w, mem, ew) = collect-In f xs zs y ezs there in (w, inr mem, ew)
      ]
