-- ===== src/Base/Member.antt =====
-- Membership by recursion, keys that occur once, and how sorting, filtering and cutting treat them.
use Prim.Native.Nat.{ℕ}
use mathlib.Core.Path.{◌≡◌, refl, sym}
use mathlib.Core.Logic.{◌≢◌, ◌⊎◌, inl, inr}
use mathlib.Core.Bool.{Bool, true}
use mathlib.Core.List.{List, [], ◌∷◌}
use mathlib.Core.Option.{some}
use native.Mathlib.Omega.{arith}
use meshonator.Base.Equality.{◌==◌, nat_eq, Bool-cases}
use meshonator.Base.Lists.{All, filter_by, find?, count_by}
use meshonator.Base.Sort.{sort_by, insert_by}

module _ {A : Type 0} where
  abbrev pub In : A → List A → Type 0
  In x [] = ⊥
  In x (y ∷ ys) = (x ≡ y) ⊎ In x ys

  pub In-filter_by :
      (p : A → Bool) (x : A) (xs : List A) → In x (filter_by p xs) → In x xs × (p x ≡ true)
  In-filter_by p x [] h = elim h [ ]
  In-filter_by p x (y ∷ ys) h = ground (arith, In-filter_by p x ys)

  filter_by-In : (p : A → Bool) (x : A) (xs : List A) → In x xs → p x ≡ true → In x (filter_by p xs)
  filter_by-In p x [] h e = elim h [ ]
  filter_by-In p x (y ∷ ys) h e = ground (arith, filter_by-In p x ys)

  pub All-at : (P : A → Type 0) (x : A) (xs : List A) → All P xs → In x xs → P x
  All-at P x [] a h = elim h [ ]
  All-at P x (y ∷ ys) a (inl e) = rw e a.0
  All-at P x (y ∷ ys) a (inr h) = All-at P x ys a.1 h

  pub All-build : (P : A → Type 0) (xs : List A) → ((x : A) → In x xs → P x) → All P xs
  All-build P [] h = tt
  All-build P (y ∷ ys) h = (h y (inl refl), All-build P ys (λ x m. h x (inr m)))

  module _ (before : A → A → Bool) where
    In-insert_by : (x y : A) (ys : List A) → In x (insert_by before y ys) → (x ≡ y) ⊎ In x ys
    unfolding insert_by
    In-insert_by x y [] h = h
    In-insert_by x y (z ∷ zs) h = ground (arith, In-insert_by x y zs)

    pub In-sort_by : (x : A) (xs : List A) → In x (sort_by before xs) → In x xs
    unfolding sort_by
    In-sort_by x [] h = h
    In-sort_by x (y ∷ ys) h = elim (In-insert_by x y (sort_by before ys) h) [
      | inl e ↦ inl e
      | inr m ↦ inr (In-sort_by x ys m)
    ]

    insert_by-In : (x y : A) (ys : List A) → (x ≡ y) ⊎ In x ys → In x (insert_by before y ys)
    unfolding insert_by
    insert_by-In x y [] h = h
    insert_by-In x y (z ∷ zs) h = ground (arith, insert_by-In x y zs)

    pub sort_by-In : (x : A) (xs : List A) → In x xs → In x (sort_by before xs)
    unfolding sort_by
    sort_by-In x [] h = h
    sort_by-In x (y ∷ ys) (inl e) = insert_by-In x y (sort_by before ys) (inl e)
    sort_by-In x (y ∷ ys) (inr m) = insert_by-In x y (sort_by before ys) (inr (sort_by-In x ys m))

  -- rows by key: the key is a number that no two rows share
  module _ (key : A → ℕ) where
    abbrev pub DistinctBy : List A → Type 0
    DistinctBy [] = Unit
    DistinctBy (x ∷ xs) = All (λ y. key y ≢ key x) xs × DistinctBy xs

    pub find?-of_In :
        (x : A) (xs : List A) → DistinctBy xs → In x xs → find? (λ y. key y == key x) xs ≡ some x
    find?-of_In x [] d h = elim h [ ]
    find?-of_In x (y ∷ ys) d (inl e) = ground arith
    find?-of_In x (y ∷ ys) d (inr h) =
        ground (arith, find?-of_In x ys d.1 h, All-at (λ z. key z ≢ key y) x ys d.0 h)

    -- a test that only the key `k` passes holds of no row, if no row has the key
    count_by-absent :
        (p : A → Bool) (k : ℕ) (xs : List A)
        → ((x : A) → p x ≡ true → key x ≡ k)
        → All (λ y. key y ≢ k) xs
        → count_by p xs ≡ 0
    count_by-absent p k [] only h = refl
    count_by-absent p k (x ∷ xs) only (hx, h) =
        ground (arith, only x, count_by-absent p k xs only h)

    -- and of one row, if a row that passes it is there
    pub count_by-of_In :
        (p : A → Bool) (x : A) (xs : List A)
        → ((y : A) → p y ≡ true → key y ≡ key x)
        → DistinctBy xs
        → In x xs
        → p x ≡ true
        → count_by p xs ≡ 1
    count_by-of_In p x [] only d h e = elim h [ ]
    count_by-of_In p x (y ∷ ys) only d (inl same) e =
        ground (arith, count_by-absent p (key x) ys only (rw same d.0))
    count_by-of_In p x (y ∷ ys) only d (inr h) e = elim (Bool-cases (p y)) [
      | inl passes ↦ absurd (All-at (λ z. key z ≢ key y) x ys d.0 h (sym (only y passes)))
      | inr fails ↦ rw fails (omega (arith, count_by-of_In p x ys only d.1 h e))
    ]
