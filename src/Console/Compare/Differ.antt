-- ===== src/Console/Compare/Differ.antt =====
-- What holds of every row that a comparison reports, and the comparison of a value with itself.
use meshonator.Base.{◌≡◌, refl, String, List, [], ◌∷◌, ◌++◌, string_eq, All, All-append}
use meshonator.Base.Sort.{sort_by, sort_by-All}
use meshonator.Base.Text.{text_leb}
use meshonator.Json.{
  Value, null, bool, int, float, str, arr, obj, Fields, end, field, IsWf, IsWfFields,
}
use meshonator.Json.Equal.{same_self, Within, Within-head, Within-tail}
use meshonator.Console.Nested.{or_null}
use meshonator.Console.Compare.{
  Diff, child_path, compare_leaf, compare_missing, concat_rows, in_key_order, compare_values,
  compare_entries,
}

-- a row of differences that are all of a kind
abbrev pub RowOf : (Diff → Type 0) → String × List Diff → Type 0
RowOf P row = All P row.1

concat_rows-All :
    (P : Diff → Type 0) (rows : List (String × List Diff))
    → All (RowOf P) rows
    → All P (concat_rows rows)
unfolding concat_rows
concat_rows-All P [] h = tt
concat_rows-All P ((k, diffs) ∷ rows) (first, rest) =
    All-append P diffs (concat_rows rows) first (concat_rows-All P rows rest)

pub in_key_order-All :
    (P : Diff → Type 0) (rows : List (String × List Diff))
    → All (RowOf P) rows
    → All P (in_key_order rows)
unfolding in_key_order
in_key_order-All P rows h =
    concat_rows-All P (sort_by (λ a b. text_leb a.0 b.0) rows)
      (sort_by-All (λ a b. text_leb a.0 b.0) (RowOf P) rows h)

-- a difference that there is not
abbrev Never : Diff → Type 0
Never d = ⊥

All-Never : (diffs : List Diff) → All Never diffs → diffs ≡ []
All-Never [] h = refl
All-Never (d ∷ diffs) (bad, h) = absurd bad

leaf-Never : (v : Value) (path : String) → IsWf v → All Never (compare_leaf v v path)
unfolding compare_leaf
leaf-Never v path w = rw (same_self v w) tt

compare_missing-Never :
    (e d : Fields) (path : String)
    → IsWfFields e
    → Within e d
    → All (RowOf Never) (compare_missing e d path)
unfolding compare_missing
compare_missing-Never end d path w all = tt
compare_missing-Never (field k v e) d path w all =
    rw (Within-head k v e d all, compare_missing)
      (compare_missing-Never e d path w.2 (Within-tail k v e d w.1 all))

mutual
  unfolding compare_values or_null

  itself : (v : Value) (path : String) → IsWf v → All Never (compare_values v v path)
  itself (obj d) path w =
      in_key_order-All Never (compare_entries d d path ++ compare_missing d d path) (
        All-append (RowOf Never) (compare_entries d d path) (compare_missing d d path)
          (itself_entries d d path w (λ k v h. h)) (compare_missing-Never d d path w (λ k v h. h)))
  itself null path w = leaf-Never null path w
  itself (bool b) path w = leaf-Never (bool b) path w
  itself (int z) path w = leaf-Never (int z) path w
  itself (float m k) path w = leaf-Never (float m k) path w
  itself (str t) path w = leaf-Never (str t) path w
  itself (arr xs) path w = leaf-Never (arr xs) path w

  itself_entries :
      (d e : Fields) (path : String)
      → IsWfFields d
      → Within d e
      → All (RowOf Never) (compare_entries d e path)
  itself_entries end e path w all = tt
  itself_entries (field k v d) e path w all = (
    rw (Within-head k v d e all) (itself v (child_path path k) w.0),
    itself_entries d e path w.2 (Within-tail k v d e w.1 all),
  )

-- A configuration compared with itself has no differences.
compare_values_self : (v : Value) (path : String) → IsWf v → compare_values v v path ≡ []
compare_values_self v path w = All-Never (compare_values v v path) (itself v path w)
