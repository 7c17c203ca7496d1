-- ===== src/Console/Compare/Reported.antt =====
-- A comparison of configurations reports exactly the differences.
use mathlib.Core.Path.{subst}
use mathlib.Core.Option.{some-injective}
use meshonator.Base.{
  Bool, true, ◌∙◌, arith, ◌&&◌, ◌⊎◌, ap, sym, some, none, ◌≡◌, refl, String, false, List, [], ◌∷◌,
  ◌++◌, string_eq, All, All-append, Option-cases, Bool-cases, inl, inr,
}
use meshonator.Base.Member.{In, All-at, sort_by-In}
use meshonator.Json.Laws.{get-IsWf}
use meshonator.Base.Sort.{sort_by}
use meshonator.Base.Text.{text_leb}
use meshonator.Json.{Value, null, obj, Fields, end, field, get, IsWf, IsWfFields}
use meshonator.Json.Equal.{same, Within, Within-head, Within-tail}
use meshonator.Console.Nested.{or_null}
use meshonator.Console.Compare.{
  Diff, child_path, compare_leaf, compare_missing, concat_rows, in_key_order, compare_values,
  compare_entries,
}
use meshonator.Console.Compare.Differ.{RowOf, in_key_order-All}

abbrev is_dict : Value → Bool
is_dict (obj d) = true
is_dict v = false

-- The differences between two values that stand at a path: two values that are not both dicts and not
-- equal differ themselves; two dicts differ in what they hold under a key, or None where one of them
-- lacks it, at the path of the key.
pub data Reported : Value → Value → String → Diff → Type 0 where
  here :
      (source target : Value) (path : String)
      → (is_dict source && is_dict target) ≡ false
      → same source target ≡ false
      → Reported source target path (record { path = path; source = source; target = target })
  below :
      (d e : Fields) (k path : String) (diff : Diff)
      → Reported (or_null (get k d)) (or_null (get k e)) (child_path path k) diff
      → Reported (obj d) (obj e) path diff

leaf-Reported :
    (source target : Value) (path : String)
    → (is_dict source && is_dict target) ≡ false
    → All (Reported source target path) (compare_leaf source target path)
unfolding compare_leaf
leaf-Reported source target path apart = elim (Bool-cases (same source target)) [
  | inl e ↦ rw e tt
  | inr e ↦ rw (e, compare_leaf) (here source target path apart e, tt)
]

All-below :
    (d e : Fields) (k path : String) (v w : Value) (diffs : List Diff)
    → or_null (get k d) ≡ v
    → or_null (get k e) ≡ w
    → All (Reported v w (child_path path k)) diffs
    → All (Reported (obj d) (obj e) path) diffs
All-below d e k path v w [] hd he all = tt
All-below d e k path v w (x ∷ diffs) hd he (hx, all) = (
  below d e k path x (
      subst (λ t. Reported t (or_null (get k e)) (child_path path k) x) (sym hd)
        (subst (λ t. Reported v t (child_path path k) x) (sym he) hx)),
  All-below d e k path v w diffs hd he all,
)

missing-Reported :
    (e d all_e : Fields) (path : String)
    → IsWfFields e
    → Within e all_e
    → All (RowOf (Reported (obj d) (obj all_e) path)) (compare_missing e d path)
unfolding compare_missing or_null
missing-Reported end d all_e path w all = tt
missing-Reported (field k v e) d all_e path w all =
    let rest = missing-Reported e d all_e path w.2 (Within-tail k v e all_e w.1 all) in
    elim (Option-cases (get k d)) [
      | inl h ↦
          rw (h, compare_missing)
            (
              All-below d all_e k path null v (compare_leaf null v (child_path path k))
                  (ap or_null h) (ap or_null (Within-head k v e all_e all))
                  (leaf-Reported null v (child_path path k) refl),
              rest,
            )
      | inr (u, h) ↦ rw (h, compare_missing) rest
    ]

or_null-IsWf : (k : String) (d : Fields) → IsWfFields d → IsWf (or_null (get k d))
unfolding or_null
or_null-IsWf k d w = elim (Option-cases (get k d)) [
  | inl h ↦ rw h tt
  | inr (v, h) ↦ rw h (get-IsWf k d w h)
]

mutual
  unfolding compare_values or_null

  sides-Reported :
      (source target : Value) (path : String)
      → IsWf source
      → IsWf target
      → All (Reported source target path) (compare_values source target path)
  sides-Reported (obj d) (obj e) path wd we =
      in_key_order-All (Reported (obj d) (obj e) path)
        (compare_entries d e path ++ compare_missing e d path)
        (All-append (RowOf (Reported (obj d) (obj e) path)) (compare_entries d e path)
          (compare_missing e d path) (entries-Reported d e d path wd we (λ k v h. h))
          (missing-Reported e d e path we (λ k v h. h)))
  sides-Reported source target path ws wt = leaf-Reported source target path refl

  entries-Reported :
      (d e all_d : Fields) (path : String)
      → IsWfFields d
      → IsWfFields e
      → Within d all_d
      → All (RowOf (Reported (obj all_d) (obj e) path)) (compare_entries d e path)
  entries-Reported end e all_d path wd we all = tt
  entries-Reported (field k v d) e all_d path wd we all = (
    All-below all_d e k path v (or_null (get k e))
        (compare_values v (or_null (get k e)) (child_path path k))
        (ap or_null (Within-head k v d all_d all)) refl
        (sides-Reported v (or_null (get k e)) (child_path path k) wd.0 (or_null-IsWf k e we)),
    entries-Reported d e all_d path wd.2 we (Within-tail k v d all_d wd.1 all),
  )

In-append : {A : Type 0} (x : A) (xs ys : List A) → In x xs ⊎ In x ys → In x (xs ++ ys)
In-append x [] ys (inl h) = elim h [ ]
In-append x [] ys (inr h) = h
In-append x (y ∷ xs) ys (inl (inl e)) = inl e
In-append x (y ∷ xs) ys (inl (inr h)) = inr (In-append x xs ys (inl h))
In-append x (y ∷ xs) ys (inr h) = inr (In-append x xs ys (inr h))

In-concat_rows :
    (x : Diff) (row : String × List Diff) (rows : List (String × List Diff))
    → In row rows
    → In x row.1
    → In x (concat_rows rows)
unfolding concat_rows
In-concat_rows x row [] m h = elim m [ ]
In-concat_rows x row ((k, diffs) ∷ rows) (inl e) h =
    In-append x diffs (concat_rows rows) (inl (subst (λ r. In x r.1) e h))
In-concat_rows x row ((k, diffs) ∷ rows) (inr m) h =
    In-append x diffs (concat_rows rows) (inr (In-concat_rows x row rows m h))

In-in_key_order :
    (x : Diff) (row : String × List Diff) (rows : List (String × List Diff))
    → In row rows
    → In x row.1
    → In x (in_key_order rows)
unfolding in_key_order
In-in_key_order x row rows m h =
    In-concat_rows x row (sort_by (λ a b. text_leb a.0 b.0) rows)
      (sort_by-In (λ a b. text_leb a.0 b.0) row rows m) h

In-compare_entries :
    (k : String) (v : Value) (d e : Fields) (path : String)
    → get k d ≡ some v
    → In (k, compare_values v (or_null (get k e)) (child_path path k)) (compare_entries d e path)
unfolding compare_values get
In-compare_entries k v end e path h = cc
In-compare_entries k v (field j u d) e path h = elim (string_eq.dec k j) [
  | yes p ↦
      let found : get k (field j u d) ≡ some u = ground arith in
      let same_value : v ≡ u = some-injective v u (sym h ∙ found) in
      inl (
        ap (λ x. (k, compare_values x (or_null (get k e)) (child_path path k))) same_value
        ∙ ap (λ y. (y, compare_values u (or_null (get y e)) (child_path path y))) p)
  | no p ↦ inr (In-compare_entries k v d e path (ground arith))
]

In-compare_missing :
    (k : String) (w : Value) (e d : Fields) (path : String)
    → get k e ≡ some w
    → get k d ≡ none
    → In (k, compare_leaf null w (child_path path k)) (compare_missing e d path)
unfolding compare_missing get
In-compare_missing k w end d path h lacks = cc
In-compare_missing k w (field j u e) d path h lacks = elim (string_eq.dec k j) [
  | yes p ↦
      let found : get k (field j u e) ≡ some u = ground arith in
      let same_value : w ≡ u = some-injective w u (sym h ∙ found) in
      let lacks_too : get j d ≡ none = ap (λ y. get y d) (sym p) ∙ lacks in
      rw (lacks_too, compare_missing, In)
        (inl (
          ap (λ x. (k, compare_leaf null x (child_path path k))) same_value
          ∙ ap (λ y. (y, compare_leaf null u (child_path path y))) p))
  | no p ↦
      let later = In-compare_missing k w e d path (ground arith) lacks in
      elim (Option-cases (get j d)) [
        | inl g ↦ rw (g, compare_missing, In) (inr later)
        | inr (x, g) ↦ rw (g, compare_missing, In) later
      ]
]

leaf_of_apart :
    (v w : Value) (path : String)
    → (is_dict v && is_dict w) ≡ false
    → compare_values v w path ≡ compare_leaf v w path
unfolding compare_values
leaf_of_apart (obj d) (obj e) path h = cc
leaf_of_apart v w path h = refl

below_case :
    (d e : Fields) (k path : String) (diff : Diff)
    → In diff (compare_values (or_null (get k d)) (or_null (get k e)) (child_path path k))
    → (get k d ≡ none) ⊎ ((v : Value) × (get k d ≡ some v))
    → (get k e ≡ none) ⊎ ((w : Value) × (get k e ≡ some w))
    → In diff (compare_values (obj d) (obj e) path)
unfolding compare_values compare_leaf or_null same
below_case d e k path diff m (inr (v, hd)) _ =
    In-in_key_order diff (k, compare_values v (or_null (get k e)) (child_path path k))
      (compare_entries d e path ++ compare_missing e d path)
      (In-append _ (compare_entries d e path) (compare_missing e d path)
        (inl (In-compare_entries k v d e path hd)))
      (subst (λ o. In diff (compare_values (or_null o) (or_null (get k e)) (child_path path k))) hd
        m)
below_case d e k path diff m (inl hd) (inr (w, he)) =
    In-in_key_order diff (k, compare_leaf null w (child_path path k))
      (compare_entries d e path ++ compare_missing e d path)
      (In-append _ (compare_entries d e path) (compare_missing e d path)
        (inr (In-compare_missing k w e d path he hd)))
      (subst (λ o. In diff (compare_values null (or_null o) (child_path path k))) he
        (subst (λ o. In diff (compare_values (or_null o) (or_null (get k e)) (child_path path k)))
          hd m))
below_case d e k path diff m (inl hd) (inl he) = absurd (
    subst (λ o. In diff (compare_values null (or_null o) (child_path path k))) he
      (subst (λ o. In diff (compare_values (or_null o) (or_null (get k e)) (child_path path k))) hd
        m))

Reported-In :
    (v w : Value) (path : String) (diff : Diff)
    → Reported v w path diff
    → In diff (compare_values v w path)
unfolding compare_leaf
Reported-In _ _ _ _ (here v w path apart e) =
    rw (leaf_of_apart v w path apart) (rw (e, compare_leaf) (inl refl))
Reported-In _ _ _ _ (below d e k path diff r) =
    below_case d e k path diff
      (Reported-In (or_null (get k d)) (or_null (get k e)) (child_path path k) diff r)
      (Option-cases (get k d)) (Option-cases (get k e))

-- A comparison of two values in which no dict has a key twice reports exactly their differences:
-- every row that it returns is one, and it returns a row for each.
pub compare_values_lem :
    (source target : Value) (path : String) (diff : Diff)
    → IsWf source
    → IsWf target
    → (In diff (compare_values source target path) → Reported source target path diff)
      × (Reported source target path diff → In diff (compare_values source target path))
compare_values_lem source target path diff ws wt = (
  All-at (Reported source target path) diff (compare_values source target path)
      (sides-Reported source target path ws wt),
  Reported-In source target path diff,
)
