-- ===== src/Base/Sort.antt =====
-- `ORDER BY` and `sorted`: a stable sort by a Boolean order.
use mathlib.Core.Path.{◌≡◌, refl}
use mathlib.Core.Logic.{◌≢◌, inl, inr}
use mathlib.Core.Bool.{Bool, true, false, ◌||◌}
use mathlib.Core.List.{List, [], ◌∷◌}
use Prim.Native.Nat.{ℕ, ◌≤◌}
use native.Mathlib.Omega.{arith}
use meshonator.Base.Equality.{if◌then◌else◌, leb, Bool-cases}
use meshonator.Base.Lists.{All, any, count_by}

module _ {ℓ} {A : Type ℓ} (before : A → A → Bool) where
  -- in front of the first element that `x` may stand before
  unfoldable pub insert_by : A → List A → List A
  insert_by x [] = x ∷ []
  insert_by x (y ∷ ys) = if before x y then x ∷ y ∷ ys else y ∷ insert_by x ys

  unfoldable pub sort_by : List A → List A
  sort_by [] = []
  sort_by (x ∷ xs) = insert_by x (sort_by xs)

  insert_by-ne-nil : (x : A) (ys : List A) → insert_by x ys ≢ []
  unfolding insert_by
  insert_by-ne-nil x [] h = cc
  insert_by-ne-nil x (y ∷ ys) h = ground arith

  pub sort_by-eq-nil : (xs : List A) → sort_by xs ≡ [] → xs ≡ []
  unfolding sort_by
  sort_by-eq-nil [] h = refl
  sort_by-eq-nil (x ∷ xs) h = absurd (insert_by-ne-nil x (sort_by xs) h)

  count_by-insert_by :
      (p : A → Bool) (x : A) (ys : List A) → count_by p (insert_by x ys) ≡ count_by p (x ∷ ys)
  unfolding insert_by
  count_by-insert_by p x [] = refl
  count_by-insert_by p x (y ∷ ys) = ground (arith, count_by-insert_by p x ys)

  -- sorting drops and adds nothing: every test passes as often as before
  pub count_by-sort_by : (p : A → Bool) (xs : List A) → count_by p (sort_by xs) ≡ count_by p xs
  unfolding sort_by
  count_by-sort_by p [] = refl
  count_by-sort_by p (x ∷ xs) =
      omega (arith, count_by-insert_by p x (sort_by xs), count_by-sort_by p xs)

  any-insert_by : (p : A → Bool) (x : A) (ys : List A) → any p (insert_by x ys) ≡ (p x || any p ys)
  unfolding insert_by
  any-insert_by p x [] = refl
  any-insert_by p x (y ∷ ys) = ground (arith, any-insert_by p x ys)

  pub any-sort_by : (p : A → Bool) (xs : List A) → any p (sort_by xs) ≡ any p xs
  unfolding sort_by
  any-sort_by p [] = refl
  any-sort_by p (x ∷ xs) = ground (arith, any-insert_by p x (sort_by xs), any-sort_by p xs)

  module _ {κ} (P : A → Type κ) where
    insert_by-All : (x : A) (ys : List A) → P x → All P ys → All P (insert_by x ys)
    unfolding insert_by
    insert_by-All x [] px h = (px, tt)
    insert_by-All x (y ∷ ys) px (py, h) = ground (arith, insert_by-All x ys px h)

    pub sort_by-All : (xs : List A) → All P xs → All P (sort_by xs)
    unfolding sort_by
    sort_by-All [] h = tt
    sort_by-All (x ∷ xs) (px, h) = insert_by-All x (sort_by xs) px (sort_by-All xs h)

-- Sorted by a number, smallest first.
module _ {A : Type 0} (key : A → ℕ) where
  abbrev pub Increasing : List A → Type 0
  Increasing [] = Unit
  Increasing (x ∷ xs) = All (λ y. key x ≤ key y) xs × Increasing xs

  insert_by-least :
      (x y : A) (ys : List A)
      → All (λ z. key x ≤ key z) ys
      → key x ≤ key y
      → All (λ z. key x ≤ key z) (insert_by (λ a b. leb (key a) (key b)) y ys)
  insert_by-least x y ys h e = insert_by-All _ (λ z. key x ≤ key z) y ys e h

  least_of_least :
      (x y : A) (ys : List A)
      → key x ≤ key y
      → All (λ z. key y ≤ key z) ys
      → All (λ z. key x ≤ key z) ys
  least_of_least x y [] e h = tt
  least_of_least x y (z ∷ zs) e (hz, h) = (omega arith, least_of_least x y zs e h)

  insert_by-Increasing :
      (x : A) (ys : List A)
      → Increasing ys
      → Increasing (insert_by (λ a b. leb (key a) (key b)) x ys)
  unfolding insert_by
  insert_by-Increasing x [] h = (tt, tt)
  insert_by-Increasing x (y ∷ ys) (hy, h) =
      ground (arith, insert_by-least y x ys hy, least_of_least x y ys, insert_by-Increasing x ys h)

  pub sort_by-Increasing : (xs : List A) → Increasing (sort_by (λ a b. leb (key a) (key b)) xs)
  unfolding sort_by
  sort_by-Increasing [] = tt
  sort_by-Increasing (x ∷ xs) =
      insert_by-Increasing x (sort_by (λ a b. leb (key a) (key b)) xs) (sort_by-Increasing xs)

-- Sorted by a relation that the Boolean order decides one way or the other.
abbrev pub OrderedBy : {A : Type 0} → (A → A → Type 0) → List A → Type 0
OrderedBy R [] = Unit
OrderedBy R (x ∷ xs) = All (R x) xs × OrderedBy R xs

module _ {A : Type 0} (R : A → A → Type 0) (trans : (x y z : A) → R x y → R y z → R x z) where
  All-R : (x y : A) (ys : List A) → R x y → All (R y) ys → All (R x) ys
  All-R x y [] e h = tt
  All-R x y (z ∷ zs) e (hz, h) = (trans x y z e hz, All-R x y zs e h)

  module _ (before : A → A → Bool) (yes_R : (x y : A) → before x y ≡ true → R x y)
      (no_R : (x y : A) → before x y ≡ false → R y x) where
    insert_by-OrderedBy :
        (x : A) (ys : List A) → OrderedBy R ys → OrderedBy R (insert_by before x ys)
    unfolding insert_by
    insert_by-OrderedBy x [] h = (tt, tt)
    insert_by-OrderedBy x (y ∷ ys) (hy, h) = elim (Bool-cases (before x y)) [
      | inl e ↦ rw e ((yes_R x y e, All-R x y ys (yes_R x y e) hy), (hy, h))
      | inr e ↦ rw e (insert_by-All before (R y) x ys (no_R x y e) hy, insert_by-OrderedBy x ys h)
    ]

    pub sort_by-OrderedBy : (xs : List A) → OrderedBy R (sort_by before xs)
    unfolding sort_by
    sort_by-OrderedBy [] = tt
    sort_by-OrderedBy (x ∷ xs) = insert_by-OrderedBy x (sort_by before xs) (sort_by-OrderedBy xs)
