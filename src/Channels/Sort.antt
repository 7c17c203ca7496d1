-- ===== src/Channels/Sort.antt =====
-- Sorting the rows keeps every row and orders them by index.
use meshonator.Base.{
  ◌≡◌, ◌≢◌, refl, ◌∙◌, Bool-cases, inl, inr, true, false, none, some, [], ◌∷◌, arith, ◌==◌,
  if◌then◌else◌,
}
use meshonator.Base.Assoc.{lookup, NodupKeys}
use meshonator.Base.Int.{ℤ, ◌<ℤ◌, int_eq, eq_of_parts, leb_ℤ}
use meshonator.Json.{Fields}
use meshonator.Channels.{Rows, insert_sorted, sorted}

-- the first index of the rows, if there is one, is above `i`
abbrev Above : ℤ → Rows → Type 0
Above i [] = Unit
Above i ((j, _) ∷ _) = i <ℤ j

-- strictly increasing indices
abbrev pub IsIncreasing : Rows → Type 0
IsIncreasing [] = Unit
IsIncreasing ((i, _) ∷ rows) = Above i rows × IsIncreasing rows

lookup-insert_sorted :
    (k i : ℤ) (row : Fields) (rows : Rows)
    → lookup i rows ≡ none
    → lookup k (insert_sorted i row rows) ≡ (if k == i then some row else lookup k rows)
unfolding lookup insert_sorted
lookup-insert_sorted k i row [] h = ground arith
lookup-insert_sorted k i row ((j, r) ∷ rows) h = ground (arith, lookup-insert_sorted k i row rows)

pub lookup-sorted : (k : ℤ) (rows : Rows) → NodupKeys rows → lookup k (sorted rows) ≡ lookup k rows
unfolding lookup sorted
lookup-sorted k [] u = refl
lookup-sorted k ((i, row) ∷ rows) (fresh, u) =
    lookup-insert_sorted k i row (sorted rows) (lookup-sorted i rows u ∙ fresh)
    ∙ ground (arith, lookup-sorted k rows u)

insert_sorted-Above :
    (k i : ℤ) (row : Fields) (rows : Rows)
    → k <ℤ i
    → Above k rows
    → Above k (insert_sorted i row rows)
unfolding insert_sorted
insert_sorted-Above k i row [] h a = h
insert_sorted-Above k i row ((j, r) ∷ rows) h a = ground arith

lookup-cons_none :
    (i j : ℤ) (r : Fields) (rows : Rows)
    → lookup i ((j, r) ∷ rows) ≡ none
    → (i ≢ j) × (lookup i rows ≡ none)
unfolding lookup
lookup-cons_none i j r rows h = ground arith

lt_of_leb : (i j : ℤ) → leb_ℤ i j ≡ true → i ≢ j → i <ℤ j
lt_of_leb i j h ne = ground (arith, eq_of_parts i j)

lt_of_not_leb : (i j : ℤ) → leb_ℤ i j ≡ false → j <ℤ i
lt_of_not_leb i j h = ground arith

insert_sorted-IsIncreasing :
    (i : ℤ) (row : Fields) (rows : Rows)
    → lookup i rows ≡ none
    → IsIncreasing rows
    → IsIncreasing (insert_sorted i row rows)
unfolding lookup insert_sorted
insert_sorted-IsIncreasing i row [] h s = (tt, tt)
insert_sorted-IsIncreasing i row ((j, r) ∷ rows) h s =
    let apart = lookup-cons_none i j r rows h in
    elim (Bool-cases (leb_ℤ i j)) [
      | inl before ↦ rw before (lt_of_leb i j before apart.0, s)
      | inr after ↦ rw after (
        insert_sorted-Above j i row rows (lt_of_not_leb i j after) s.0,
        insert_sorted-IsIncreasing i row rows apart.1 s.1,
      )
    ]

pub sorted-IsIncreasing : (rows : Rows) → NodupKeys rows → IsIncreasing (sorted rows)
unfolding sorted
sorted-IsIncreasing [] u = tt
sorted-IsIncreasing ((i, row) ∷ rows) (fresh, u) =
    insert_sorted-IsIncreasing i row (sorted rows) (lookup-sorted i rows u ∙ fresh)
      (sorted-IsIncreasing rows u)
