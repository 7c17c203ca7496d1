-- ===== src/Json/Merge.antt =====
-- The three recursive merges of the program: `_merge_dict` (operations/service.py),
-- `_deep_merge_dict` (jobs/queue.py) and `_merge_patch` (api/app.py). Each walks the override's
-- entries in order and writes them into a copy of the base. `merge_value` is the body of the loop:
-- what is written under a key, from what stands there and the override's value.
pub mod Lookup
pub mod Idempotent
pub mod Agree
use meshonator.Base.{Option, some}
use meshonator.Json.{Value, obj, Fields, end, field, get, set}

unfoldable mutual
  pub merge_dict : Fields → Fields → Fields
  merge_dict out end = out
  merge_dict out (field key value rest) =
      merge_dict (set key (merge_value (get key out) value) out) rest

  pub merge_value : Option Value → Value → Value
  merge_value (some (obj base)) (obj override) = obj (merge_dict base override)
  merge_value _ value = value

unfoldable mutual
  pub deep_merge_dict : Fields → Fields → Fields
  deep_merge_dict out end = out
  deep_merge_dict out (field key value rest) =
      deep_merge_dict (set key (deep_merge_value (get key out) value) out) rest

  pub deep_merge_value : Option Value → Value → Value
  deep_merge_value (some (obj base)) (obj override) = obj (deep_merge_dict base override)
  deep_merge_value _ value = value

unfoldable mutual
  pub merge_patch : Fields → Fields → Fields
  merge_patch out end = out
  merge_patch out (field key value rest) =
      merge_patch (set key (merge_patch_value (get key out) value) out) rest

  pub merge_patch_value : Option Value → Value → Value
  merge_patch_value (some (obj base)) (obj extra) = obj (merge_patch base extra)
  merge_patch_value _ value = value
