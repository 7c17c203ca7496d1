-- ===== src/Json/Merge/Agree.antt =====
-- The three merges are one function.
use meshonator.Base.{◌≡◌, refl, ap, Option, some}
use meshonator.Json.{Value, obj, Fields, end, field, get, set}
use meshonator.Json.Merge.{
  merge_dict, merge_value, deep_merge_dict, deep_merge_value, merge_patch, merge_patch_value,
}

mutual
  unfolding merge_dict deep_merge_dict

  deep_merge_dict-eq :
      (out override : Fields) → deep_merge_dict out override ≡ merge_dict out override
  deep_merge_dict-eq out end = refl
  deep_merge_dict-eq out (field k v rest) =
      rw (deep_merge_value-eq (get k out) v)
        (deep_merge_dict-eq (set k (merge_value (get k out) v) out) rest)

  deep_merge_value-eq :
      (old : Option Value) (v : Value) → deep_merge_value old v ≡ merge_value old v
  deep_merge_value-eq (some (obj base)) (obj override) = ap obj (deep_merge_dict-eq base override)
  deep_merge_value-eq _ _ = refl

mutual
  unfolding merge_dict merge_patch

  merge_patch-eq : (out extra : Fields) → merge_patch out extra ≡ merge_dict out extra
  merge_patch-eq out end = refl
  merge_patch-eq out (field k v rest) =
      rw (merge_patch_value-eq (get k out) v)
        (merge_patch-eq (set k (merge_value (get k out) v) out) rest)

  merge_patch_value-eq :
      (old : Option Value) (v : Value) → merge_patch_value old v ≡ merge_value old v
  merge_patch_value-eq (some (obj base)) (obj extra) = ap obj (merge_patch-eq base extra)
  merge_patch_value-eq _ _ = refl

-- `_deep_merge_dict` and `_merge_patch` give, for every base and override, the dict that
-- `_merge_dict` gives.
pub merges_agree :
    (base override : Fields)
    → (deep_merge_dict base override ≡ merge_dict base override)
      × (merge_patch base override ≡ merge_dict base override)
merges_agree base override = (deep_merge_dict-eq base override, merge_patch-eq base override)
