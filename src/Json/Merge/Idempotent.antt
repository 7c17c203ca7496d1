-- ===== src/Json/Merge/Idempotent.antt =====
-- Merging the same override a second time changes nothing, at any depth.
use meshonator.Base.{String, ◌≡◌, refl, ◌∙◌, ap, Option, none, some, arith, string_eq}
use meshonator.Json.{Value, obj, Fields, end, field, get, IsWf, IsWfFields}
use meshonator.Json.Laws.{set_same}
use meshonator.Json.Merge.{merge_dict, merge_value}
use meshonator.Json.Merge.Lookup.{looped, get-looped}

-- the entries of the tail of a well-formed dict are entries of the dict
get_of_tail :
    (k j : String) (u v : Value) (rest : Fields)
    → get k rest ≡ none
    → get j rest ≡ some u
    → get j (field k v rest) ≡ some u
unfolding get
get_of_tail k j u v rest fresh h = ground arith

get_of_head : (k : String) (v : Value) (rest : Fields) → get k (field k v rest) ≡ some v
unfolding get
get_of_head k v rest = ground arith

mutual
  unfolding merge_dict

  -- `out` already holds what each entry of `override` would write
  absorbed :
      (old : String → Option Value) (out override : Fields)
      → IsWfFields override
      → ((k : String) (v : Value)
          → get k override ≡ some v
          → get k out ≡ some (merge_value (old k) v))
      → merge_dict out override ≡ out
  absorbed old out end w h = refl
  absorbed old out (field k v rest) (wv, fresh, w) h =
      let here : get k out ≡ some (merge_value (old k) v) = h k v (get_of_head k v rest) in
      let same : merge_value (get k out) v ≡ merge_value (old k) v =
        ap (λ o. merge_value o v) here ∙ merge_value_twice (old k) v wv in
      rw (same, set_same k (merge_value (old k) v) out here)
        (absorbed old out rest w (λ j u e. h j u (get_of_tail k j u v rest fresh e)))

  merge_value_twice :
      (old : Option Value) (v : Value)
      → IsWf v
      → merge_value (some (merge_value old v)) v ≡ merge_value old v
  merge_value_twice (some (obj base)) (obj override) w = ap obj (
      absorbed (λ k. get k base) (merge_dict base override) override w
        (λ k v h. get-looped k base override w ∙ ap (looped (get k base)) h))
  merge_value_twice _ (obj override) w =
      ap obj (absorbed (λ _. none) override override w (λ k v h. h))
  merge_value_twice _ _ w = refl

-- Applying a well-formed override to a dict a second time changes nothing, at any depth: the result
-- is the same dict, entry for entry and in the same order.
pub merge_dict_twice :
    (base override : Fields)
    → IsWfFields override
    → merge_dict (merge_dict base override) override ≡ merge_dict base override
merge_dict_twice base override w =
    absorbed (λ k. get k base) (merge_dict base override) override w
      (λ k v h. get-looped k base override w ∙ ap (looped (get k base)) h)
