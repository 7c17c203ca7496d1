-- ===== src/Channels/Cells.antt =====
-- What stands under a key in the row of an index after a patch.
use mathlib.Core.Option.{none-ne-some}
use meshonator.Base.{
  ==_refl, ◌≢◌, ap, sym, Bool, true, false, ◌||◌, String, string_eq, option_eq, nat_eq, Bool-cases,
  ◌≡◌, refl, ◌∙◌, Option, none, some, arith, ◌==◌, if◌then◌else◌, Option-cases, inl, inr,
}
use meshonator.Base.Int.{ℤ, int_eq}
use meshonator.Json.Laws.{get-set}
use meshonator.Json.{
  bool, int, float, str, arr, null, get, dict_or_empty, end, field, Value, obj, Items, nil, cons,
  Fields,
}
use meshonator.Channels.{
  write_cell, is_settings_key, target_key, bare_row, index_of, write_row, start_row,
}
use meshonator.Channels.Patched.{patched_by, patched}

-- what the last entry of a dict under a key writes
abbrev last_get : String → Fields → Option Value
last_get k end = none
last_get k (field j v d) = elim (last_get k d) [
  | none ↦ if k == j then some v else none
  | some w ↦ some w
]

-- the entry of a row, if there is one
abbrev pub cell : String → Option Fields → Option Value
cell k none = none
cell k (some row) = get k row

-- a patch item that carries the index `i` replaces the entry, if it has one itself
abbrev cell_by : ℤ → String → Value → Option Value → Option Value
cell_by i k (obj item) old =
    if index_of item == some i then elim (last_get k item) [ none ↦ old | some v ↦ some v ] else old
cell_by i k item old = old

abbrev pub cell_after : ℤ → String → Items → Option Value → Option Value
cell_after i k nil old = old
cell_after i k (cons item rest) old = cell_after i k rest (cell_by i k item old)

-- the keys whose dicts are merged rather than replaced
abbrev pub merges_settings : String → Bool
merges_settings k = k == "settings" || k == "moduleSettings" || k == "module_settings"

module _ (merge : Fields → Fields → Fields) (k : String) (plain : merges_settings k ≡ false) where
  plain-target : (key : String) → is_settings_key key ≡ true → (k ≢ key) × (k ≢ target_key key)
  unfolding is_settings_key target_key
  plain-target key h = (ground arith, ground arith)

  get-write_cell :
      (key : String) (v : Value) (row : Fields)
      → get k (write_cell merge row key v) ≡ (if k == key then some v else get k row)
  unfolding write_cell
  get-write_cell key (obj d) row = elim (Bool-cases (is_settings_key key)) [
    | inl e ↦
        let (apart, apart_too) = plain-target key e in
        let written : Fields = merge (dict_or_empty (get (target_key key) row)) d in
        rw (e, write_cell) (ground (arith, get-set k (target_key key) (obj written) row))
    | inr e ↦ rw (e, write_cell) (get-set k key (obj d) row)
  ]
  get-write_cell key null row = get-set k key null row
  get-write_cell key (bool b) row = get-set k key (bool b) row
  get-write_cell key (int z) row = get-set k key (int z) row
  get-write_cell key (float m j) row = get-set k key (float m j) row
  get-write_cell key (str s) row = get-set k key (str s) row
  get-write_cell key (arr xs) row = get-set k key (arr xs) row

  get-write_row :
      (row item : Fields)
      → get k (write_row merge row item)
        ≡ (elim (last_get k item) [ none ↦ get k row | some v ↦ some v ])
  unfolding write_row
  get-write_row row end = refl
  get-write_row row (field key v item) =
      get-write_row (write_cell merge row key v) item ∙ ground (arith, get-write_cell key v row)

  last_get-of_get :
      (item : Fields) (v : Value) → get k item ≡ some v → (w : Value) × (last_get k item ≡ some w)
  unfolding get
  last_get-of_get end v h = cc
  last_get-of_get (field j u item) v h = elim (string_eq.dec k j) [
    | yes p ↦ elim (Option-cases (last_get k item)) [
      | inl e ↦ (u, rw e (ground arith))
      | inr (w, e) ↦ (w, rw e refl)
    ]
    | no p ↦ let (w, e) = last_get-of_get item v (ground arith) in (w, rw e refl)
  ]

  get-bare_row : (item : Fields) → last_get k item ≡ none → get k (bare_row item) ≡ none
  unfolding bare_row get
  get-bare_row item h = elim (Option-cases (get "index" item)) [
    | inl e ↦ rw (bare_row, e) refl
    | inr (v, e) ↦ elim (string_eq.dec k "index") [
      | yes p ↦
          let (w, found) = last_get-of_get item v (ap (λ x. get x item) p ∙ e) in
          absurd (none-ne-some w (sym h ∙ found))
      | no p ↦ rw (bare_row, e) (ground arith)
    ]
  ]

  get-started :
      (old : Option Fields) (item : Fields)
      → get k (write_row merge (start_row old item) item)
        ≡ (elim (last_get k item) [ none ↦ cell k old | some v ↦ some v ])
  unfolding start_row
  get-started none item =
      get-write_row (bare_row item) item ∙ elim (Option-cases (last_get k item)) [
        | inl e ↦ rw e (get-bare_row item e)
        | inr (v, e) ↦ rw e refl
      ]
  get-started (some row) item = get-write_row row item

  cell-patched_by :
      (i : ℤ) (item : Value) (old : Option Fields)
      → cell k (patched_by merge i item old) ≡ cell_by i k item (cell k old)
  unfolding patched_by
  cell-patched_by i (obj item) old = elim (Option-cases (index_of item)) [
    | inl e ↦ rw (e, patched_by) (ground arith)
    | inr (j, e) ↦ elim (int_eq.dec i j) [
      | yes p ↦ rw (e, patched_by, p) (ground (arith, ==_refl j, get-started old item))
      | no p ↦ rw (e, patched_by) (ground arith)
    ]
  ]
  cell-patched_by i _ old = refl

  pub cell-patched :
      (i : ℤ) (items : Items) (old : Option Fields)
      → cell k (patched merge i items old) ≡ cell_after i k items (cell k old)
  unfolding patched
  cell-patched i nil old = refl
  cell-patched i (cons item rest) old =
      cell-patched i rest (patched_by merge i item old)
      ∙ ap (cell_after i k rest) (cell-patched_by i item old)
