-- ===== src/Channels.antt =====
-- The merges of channel lists: `_merge_channels` (operations/service.py), `_merge_channels_patch`
-- (jobs/queue.py) and `_merge_list_patch` (api/app.py), and the two `_channels_to_patch`, which
-- turn the channels of a node into a patch. A channel is a dict; `by_index` is a dict from the
-- channel's index to its row, here an association list in insertion order.
pub mod Sort
pub mod Patched
pub mod Cells
pub mod Rows
pub mod Agree
pub mod Clone
mod Tests
use meshonator.Base.{
  ℕ, zero, suc, String, Bool, Option, none, some, List, [], ◌∷◌, ◌||◌, not, ◌==◌, if◌then◌else◌,
  string_eq,
}
use meshonator.Base.Assoc.{Dict, lookup, insert, values}
use meshonator.Base.Int.{ℤ, pos, int_eq, leb_ℤ}
use meshonator.Base.Text.{strip, upper, is_empty}
use meshonator.Json.{
  Value, str, arr, obj, Items, nil, cons, Fields, end, field, get, set, as_int, dict_or_empty,
}
use meshonator.Json.Merge.{merge_dict, deep_merge_dict, merge_patch}

abbrev pub Rows : Type 0
Rows = Dict ℤ Fields

-- the number behind `item.get("index")`, if that is an int
unfoldable pub index_of : Fields → Option ℤ
index_of item = elim (get "index" item) [ none ↦ none | some v ↦ as_int v ]

-- `{"index": item["index"]}`
unfoldable pub bare_row : Fields → Fields
bare_row item = elim (get "index" item) [ none ↦ end | some v ↦ field "index" v end ]

is_settings_key : String → Bool
is_settings_key key = key == "settings" || key == "moduleSettings" || key == "module_settings"

target_key : String → String
target_key key =
    if key == "moduleSettings" || key == "module_settings" then "moduleSettings" else "settings"

-- one round of `for key, value in item.items()`
unfoldable pub write_cell : (Fields → Fields → Fields) → Fields → String → Value → Fields
unfolding is_settings_key target_key
write_cell merge row key (obj value) =
    if is_settings_key key
    then set (target_key key) (obj (merge (dict_or_empty (get (target_key key) row)) value)) row
    else set key (obj value) row
write_cell merge row key value = set key value row

-- the loop over an item's entries; `merge` is the merge of dicts that the caller uses
unfoldable pub write_row : (Fields → Fields → Fields) → Fields → Fields → Fields
write_row merge row end = row
write_row merge row (field key value rest) = write_row merge (write_cell merge row key value) rest

-- `by_index.get(index, {"index": index})`
unfoldable pub start_row : Option Fields → Fields → Fields
start_row none item = bare_row item
start_row (some row) item = row

-- one item of the patch
unfoldable pub patch_item : (Fields → Fields → Fields) → Value → Rows → Rows
patch_item merge (obj item) rows = elim (index_of item) [
  | none ↦ rows
  | some i ↦ insert i (write_row merge (start_row (lookup i rows) item) item) rows
]
patch_item merge _ rows = rows

unfoldable pub patch_items : (Fields → Fields → Fields) → Items → Rows → Rows
patch_items merge nil rows = rows
patch_items merge (cons item rest) rows = patch_items merge rest (patch_item merge item rows)

-- `sorted(by_index)`: the rows by index
unfoldable pub insert_sorted : ℤ → Fields → Rows → Rows
insert_sorted i row [] = (i, row) ∷ []
insert_sorted i row ((j, r) ∷ rows) =
    if leb_ℤ i j then (i, row) ∷ (j, r) ∷ rows else (j, r) ∷ insert_sorted i row rows

unfoldable pub sorted : Rows → Rows
sorted [] = []
sorted ((i, row) ∷ rows) = insert_sorted i row (sorted rows)

unfoldable pub to_items : Rows → Items
to_items [] = nil
to_items ((i, row) ∷ rows) = cons (obj row) (to_items rows)

-- `_merge_channels`: a channel of the current list with no int index stands at its position
unfoldable pub seed_positioned : ℕ → Items → Rows → Rows
seed_positioned idx nil rows = rows
seed_positioned idx (cons (obj item) rest) rows =
    seed_positioned (suc idx) rest
      (insert (elim (index_of item) [ none ↦ pos idx | some i ↦ i ]) item rows)
seed_positioned idx (cons _ rest) rows = seed_positioned (suc idx) rest rows

unfoldable pub channel_rows : Items → Items → Rows
channel_rows current patch = patch_items merge_dict patch (seed_positioned 0 current [])

unfoldable pub merge_channels : Items → Items → Items
unfolding channel_rows
merge_channels current patch = to_items (sorted (channel_rows current patch))

-- the other two keep only the items with an int index
unfoldable pub seed_indexed : Items → Rows → Rows
seed_indexed nil rows = rows
seed_indexed (cons (obj item) rest) rows =
    seed_indexed rest (elim (index_of item) [ none ↦ rows | some i ↦ insert i item rows ])
seed_indexed (cons _ rest) rows = seed_indexed rest rows

unfoldable pub merge_channels_patch : Items → Items → Items
merge_channels_patch base override =
    to_items (sorted (patch_items deep_merge_dict override (seed_indexed base [])))

unfoldable pub merge_list_patch : Items → Items → Items
merge_list_patch base extra =
    to_items (sorted (patch_items merge_patch extra (seed_indexed base [])))
