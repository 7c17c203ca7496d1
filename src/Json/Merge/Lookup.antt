-- ===== src/Json/Merge/Lookup.antt =====
-- What a merged dict holds under each key.
use meshonator.Base.{String, ◌≡◌, refl, ◌∙◌, Option, none, some, arith, string_eq}
use meshonator.Json.{Value, obj, Fields, end, field, get, set, IsWf, IsWfFields}
use meshonator.Json.Laws.{get-set, set-IsWf, get-IsWf}
use meshonator.Json.Merge.{merge_dict, merge_value}

-- what the loop leaves under a key, from the two entries
abbrev pub looped : Option Value → Option Value → Option Value
looped old none = old
looped old (some v) = some (merge_value old v)

pub get-looped :
    (k : String) (base override : Fields)
    → IsWfFields override
    → get k (merge_dict base override) ≡ looped (get k base) (get k override)
unfolding merge_dict get
get-looped k base end w = refl
get-looped k base (field j v rest) (wv, fresh, w) = ground (
  arith,
  get-looped k (set j (merge_value (get j base) v) base) rest w,
  get-set k j (merge_value (get j base) v) base,
)

-- the entry under a key of a merge, from the two entries
abbrev pub merged : Option Value → Option Value → Option Value
merged old none = old
merged (some (obj base)) (some (obj override)) = some (obj (merge_dict base override))
merged _ (some v) = some v

merged-looped : (old new : Option Value) → looped old new ≡ merged old new
unfolding merge_dict
merged-looped old none = refl
merged-looped (some (obj base)) (some (obj override)) = refl
merged-looped _ (some v) = refl

-- What a merge with a well-formed override holds under a key: the base's entry where the override
-- has none, the merge of the two where both are dicts, and else the override's value.
pub get-merge_dict :
    (k : String) (base override : Fields)
    → IsWfFields override
    → get k (merge_dict base override) ≡ merged (get k base) (get k override)
get-merge_dict k base override w =
    get-looped k base override w ∙ merged-looped (get k base) (get k override)

mutual
  unfolding merge_dict

  merge_dict-IsWf_lem :
      (base override : Fields)
      → IsWfFields base
      → IsWfFields override
      → IsWfFields (merge_dict base override)
  merge_dict-IsWf_lem base end wb w = wb
  merge_dict-IsWf_lem base (field j v rest) wb (wv, fresh, w) =
      merge_dict-IsWf_lem (set j (merge_value (get j base) v) base) rest
        (set-IsWf j (merge_value (get j base) v) base
          (merge_value-IsWf (get j base) v (λ old h. get-IsWf j base wb h) wv) wb)
        w

  merge_value-IsWf :
      (old : Option Value) (v : Value)
      → ((w : Value) → old ≡ some w → IsWf w)
      → IsWf v
      → IsWf (merge_value old v)
  merge_value-IsWf (some (obj base)) (obj override) wo w =
      merge_dict-IsWf_lem base override (wo (obj base) refl) w
  merge_value-IsWf _ _ wo w = w

-- A merge of two dicts with no key twice has no key twice, at any depth.
merge_dict-IsWf :
    (base override : Fields)
    → IsWfFields base
    → IsWfFields override
    → IsWfFields (merge_dict base override)
merge_dict-IsWf base override wb w = merge_dict-IsWf_lem base override wb w
