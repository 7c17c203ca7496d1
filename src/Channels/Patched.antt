-- ===== src/Channels/Patched.antt =====
-- The rows behind a merged channel list: each index is patched on its own, by the patch items that
-- carry that index, in their order.
use meshonator.Base.{
  string_eq, option_eq, nat_eq, ℕ, suc, ◌≡◌, refl, Option, none, some, [], arith, ◌==◌,
  if◌then◌else◌, Option-cases, inl, inr,
}
use meshonator.Base.Assoc.{lookup, insert, NodupKeys, lookup-insert, insert-NodupKeys}
use meshonator.Base.Int.{ℤ, pos, int_eq}
use meshonator.Json.{Value, obj, Items, nil, cons, Fields}
use meshonator.Json.Merge.{merge_dict}
use meshonator.Channels.{
  Rows, index_of, write_row, start_row, patch_item, patch_items, seed_positioned, channel_rows,
}

module _ (merge : Fields → Fields → Fields) where
  -- what one patch item does to the row of index `i`
  unfoldable pub patched_by : ℤ → Value → Option Fields → Option Fields
  patched_by i (obj item) old = elim (index_of item) [
    | none ↦ old
    | some j ↦ if i == j then some (write_row merge (start_row old item) item) else old
  ]
  patched_by i _ old = old

  -- the row of index `i` after a patch, from the row before it
  unfoldable pub patched : ℤ → Items → Option Fields → Option Fields
  patched i nil old = old
  patched i (cons item rest) old = patched i rest (patched_by i item old)

  patch_obj-NodupKeys :
      (item : Fields) (rows : Rows) → NodupKeys rows → NodupKeys (patch_item merge (obj item) rows)
  unfolding patch_item
  patch_obj-NodupKeys item rows u = elim (Option-cases (index_of item)) [
    | inl e ↦ rw (e, patch_item) u
    | inr (i, e) ↦
        rw (e, patch_item)
          (insert-NodupKeys i (write_row merge (start_row (lookup i rows) item) item) rows u)
  ]

  patch_item-NodupKeys :
      (item : Value) (rows : Rows) → NodupKeys rows → NodupKeys (patch_item merge item rows)
  unfolding patch_item
  patch_item-NodupKeys (obj item) rows u = patch_obj-NodupKeys item rows u
  patch_item-NodupKeys _ rows u = u

  patch_items-NodupKeys :
      (items : Items) (rows : Rows) → NodupKeys rows → NodupKeys (patch_items merge items rows)
  unfolding patch_items
  patch_items-NodupKeys nil rows u = u
  patch_items-NodupKeys (cons item rest) rows u =
      patch_items-NodupKeys rest (patch_item merge item rows) (patch_item-NodupKeys item rows u)

  lookup-patch_obj :
      (i : ℤ) (item : Fields) (rows : Rows)
      → lookup i (patch_item merge (obj item) rows) ≡ patched_by i (obj item) (lookup i rows)
  unfolding patch_item patched_by
  lookup-patch_obj i item rows = elim (Option-cases (index_of item)) [
    | inl e ↦ rw (e, patch_item, patched_by)
    | inr (j, e) ↦
        rw (e, patch_item, patched_by)
          (ground
            (arith, lookup-insert i j (write_row merge (start_row (lookup j rows) item) item) rows))
  ]

  lookup-patch_item :
      (i : ℤ) (item : Value) (rows : Rows)
      → lookup i (patch_item merge item rows) ≡ patched_by i item (lookup i rows)
  unfolding patch_item patched_by
  lookup-patch_item i (obj item) rows = lookup-patch_obj i item rows
  lookup-patch_item i _ rows = refl

  lookup-patch_items :
      (i : ℤ) (items : Items) (rows : Rows)
      → lookup i (patch_items merge items rows) ≡ patched i items (lookup i rows)
  unfolding patch_items patched
  lookup-patch_items i nil rows = refl
  lookup-patch_items i (cons item rest) rows =
      rw (← lookup-patch_item i item rows) (lookup-patch_items i rest (patch_item merge item rows))

seed_positioned-NodupKeys :
    (idx : ℕ) (items : Items) (rows : Rows)
    → NodupKeys rows
    → NodupKeys (seed_positioned idx items rows)
unfolding seed_positioned
seed_positioned-NodupKeys idx nil rows u = u
seed_positioned-NodupKeys idx (cons (obj item) rest) rows u =
    let i : ℤ = elim (index_of item) [ none ↦ pos idx | some i ↦ i ] in
    seed_positioned-NodupKeys (suc idx) rest (insert i item rows) (insert-NodupKeys i item rows u)
seed_positioned-NodupKeys idx (cons _ rest) rows u = seed_positioned-NodupKeys (suc idx) rest rows u

pub channel_rows-NodupKeys : (current patch : Items) → NodupKeys (channel_rows current patch)
unfolding channel_rows
channel_rows-NodupKeys current patch =
    patch_items-NodupKeys merge_dict patch (seed_positioned 0 current [])
      (seed_positioned-NodupKeys 0 current [] tt)

pub lookup-channel_rows :
    (current patch : Items) (i : ℤ)
    → lookup i (channel_rows current patch)
      ≡ patched merge_dict i patch (lookup i (seed_positioned 0 current []))
unfolding channel_rows
lookup-channel_rows current patch i =
    lookup-patch_items merge_dict i patch (seed_positioned 0 current [])
