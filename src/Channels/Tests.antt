-- ===== src/Channels/Tests.antt =====
-- Runs of the channel merges, and the theorems about them at these inputs.
use meshonator.Base.{◌≡◌, ℕ, String, refl, string_eq}
use meshonator.Base.Assoc.{lookup, insert}
use meshonator.Base.Int.{pos, int_eq}
use mathlib.Core.Option.{some-ne-none}
use meshonator.Json.{
  Value, str, int, obj, Items, nil, cons, Fields, end, field, get, set, as_int, dict_or_empty,
}
use meshonator.Json.Merge.{merge_dict}
use meshonator.Channels.{
  Rows, index_of, sorted, merge_channels, merge_channels_patch, merge_list_patch, seed_positioned,
  patch_items, write_row, patch_item, write_cell, start_row, bare_row, insert_sorted, to_items,
}
use meshonator.Channels.Agree.{AllIndexed, channel_merges_agree}

abbrev channel : ℕ → String → Value
channel i role = obj (field "index" (int (pos i)) (field "role" (str role) end))

abbrev current : Items
current = cons (channel 2 "SECONDARY") (cons (channel 0 "PRIMARY") nil)

abbrev renamed : Items
renamed =
    cons
      (obj (
        field "index" (int (pos 0))
          (field "module_settings" (obj (field "positionPrecision" (int (pos 13)) end)) end)))
      (cons (channel 1 "DISABLED") nil)

merge_channels_run :
    merge_channels current renamed
    ≡ cons
        (obj (
          field "index" (int (pos 0)) (
            field "role"
              (str "PRIMARY")
              (field "moduleSettings" (obj (field "positionPrecision" (int (pos 13)) end)) end))))
        (cons (channel 1 "DISABLED") (cons (channel 2 "SECONDARY") nil))
unfolding merge_channels seed_positioned patch_items patch_item index_of as_int write_row write_cell
    start_row bare_row get set dict_or_empty merge_dict lookup insert insert_sorted sorted to_items
    string_eq int_eq
merge_channels_run = refl

current-AllIndexed : AllIndexed current
unfolding index_of get as_int string_eq
current-AllIndexed = (some-ne-none (pos 2), (some-ne-none (pos 0), tt))

channel_merges_agree_example :
    (merge_channels_patch current renamed ≡ merge_list_patch current renamed)
    × (merge_channels current renamed ≡ merge_list_patch current renamed)
channel_merges_agree_example = channel_merges_agree current renamed current-AllIndexed

abbrev local_cfg : Fields
local_cfg =
    field "security" (obj (field "privateKey" (str "k") end))
      (field "device" (obj (field "role" (str "ROUTER") end)) end)

abbrev device : String
device = "device"
