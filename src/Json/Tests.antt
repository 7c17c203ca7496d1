-- ===== src/Json/Tests.antt =====
-- Runs of the merges on small patches, and the theorems about them at these inputs.
use meshonator.Base.{◌≡◌, refl, true, string_eq}
use meshonator.Base.Int.{pos}
use meshonator.Json.{str, int, bool, obj, Fields, end, field, get, set, IsWfFields}
use meshonator.Json.Merge.{merge_dict, deep_merge_dict, merge_patch}
use meshonator.Json.Merge.Lookup.{merged, get-merge_dict}
use meshonator.Json.Merge.Idempotent.{merge_dict_twice}
use meshonator.Json.Merge.Agree.{merges_agree}

abbrev node_config : Fields
node_config =
    field "lora" (obj (field "hopLimit" (int (pos 3)) (field "region" (str "EU_868") end)))
      (field "device" (obj (field "role" (str "CLIENT") end)) end)

abbrev patch : Fields
patch =
    field "lora" (obj (field "hopLimit" (int (pos 5)) end))
      (field "mqtt" (obj (field "enabled" (bool true) end)) end)

patch_IsWf : IsWfFields patch
unfolding get string_eq
patch_IsWf = ((tt, refl, tt), refl, ((tt, refl, tt), refl, tt))

node_config_IsWf : IsWfFields node_config
unfolding get string_eq
node_config_IsWf = ((tt, refl, (tt, refl, tt)), refl, ((tt, refl, tt), refl, tt))

merge_dict_run :
    merge_dict node_config patch
    ≡ field "lora" (obj (field "hopLimit" (int (pos 5)) (field "region" (str "EU_868") end))) (
        field "device"
          (obj (field "role" (str "CLIENT") end))
          (field "mqtt" (obj (field "enabled" (bool true) end)) end))
unfolding merge_dict get set string_eq
merge_dict_run = refl

get-merge_dict_example :
    get "lora" (merge_dict node_config patch) ≡ merged (get "lora" node_config) (get "lora" patch)
get-merge_dict_example = get-merge_dict "lora" node_config patch patch_IsWf

merge_dict_twice_example :
    merge_dict (merge_dict node_config patch) patch ≡ merge_dict node_config patch
merge_dict_twice_example = merge_dict_twice node_config patch patch_IsWf

merges_agree_example :
    (deep_merge_dict node_config patch ≡ merge_dict node_config patch)
    × (merge_patch node_config patch ≡ merge_dict node_config patch)
merges_agree_example = merges_agree node_config patch
