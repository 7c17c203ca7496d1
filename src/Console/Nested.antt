-- ===== src/Console/Nested.antt =====
-- api/app.py: `_get_nested`, `_set_nested` and `_remove_nested_key`, reads and writes along a path
-- of keys. Python's None is `null`.
use meshonator.Base.{
  ◌≡◌, refl, ap, ◌∙◌, String, false, Option, none, some, List, [], ◌∷◌, ◌==◌, string_eq, arith,
  Option-cases, inl, inr,
}
use meshonator.Json.{Value, obj, null, bool, int, float, str, arr, Fields, end, get, set, pop}
use meshonator.Json.Laws.{get-set, get-set_self, get-pop}

-- `current.get(segment)`
unfoldable pub or_null : Option Value → Value
or_null none = null
or_null (some v) = v

unfoldable pub get_nested : Value → List String → Value
get_nested current [] = current
get_nested (obj d) (segment ∷ path) = get_nested (or_null (get segment d)) path
get_nested current (segment ∷ path) = null

-- `cursor.setdefault(segment, {})`, if that is a dict
unfoldable pub child : Option Value → Option Fields
child none = some end
child (some (obj d)) = some d
child (some v) = none

-- the dict with the changed child
unfoldable pub with_child : String → Fields → Option Fields → Option Fields
with_child segment dst none = none
with_child segment dst (some d) = some (set segment (obj d) dst)

-- `none` stands for the exceptions: no path, or a segment that holds no dict
unfoldable pub set_nested : List String → Value → Fields → Option Fields
set_nested [] value dst = none
set_nested (segment ∷ []) value dst = some (set segment value dst)
set_nested (segment ∷ next ∷ path) value dst = elim (child (get segment dst)) [
  | none ↦ none
  | some d ↦ with_child segment dst (set_nested (next ∷ path) value d)
]

-- the dict that stands there, if one does
unfoldable pub dict_at : Option Value → Option Fields
dict_at (some (obj d)) = some d
dict_at _ = none

unfoldable pub remove_nested_key : List String → Fields → Fields
remove_nested_key [] dst = dst
remove_nested_key (segment ∷ []) dst = pop segment dst
remove_nested_key (segment ∷ next ∷ path) dst = elim (dict_at (get segment dst)) [
  | some d ↦ set segment (obj (remove_nested_key (next ∷ path) d)) dst
  | none ↦ dst
]

-- What `_set_nested` writes along a path, where it does not raise, `_get_nested` reads back.
get_nested-set_nested :
    (path : List String) (value : Value) (dst out : Fields)
    → set_nested path value dst ≡ some out
    → get_nested (obj out) path ≡ value
unfolding get_nested set_nested or_null with_child
get_nested-set_nested [] value dst out h = cc
get_nested-set_nested (segment ∷ []) value dst out h =
    ground (arith, get-set_self segment value dst)
get_nested-set_nested (segment ∷ next ∷ path) value dst out h =
    elim (Option-cases (child (get segment dst))) [
      | inl e ↦ ground arith
      | inr (d, e) ↦ elim (Option-cases (set_nested (next ∷ path) value d)) [
        | inl e' ↦ ground arith
        | inr (inner, e') ↦
            let back = get_nested-set_nested (next ∷ path) value d inner e' in
            ground (arith, e, e', back, get-set_self segment (obj inner) dst)
      ]
    ]

pub dict_at-some : (o : Option Value) (d : Fields) → dict_at o ≡ some d → o ≡ some (obj d)
unfolding dict_at
dict_at-some none d h = cc
dict_at-some (some (obj e)) d h = cc
dict_at-some (some null) d h = cc
dict_at-some (some (bool b)) d h = cc
dict_at-some (some (int z)) d h = cc
dict_at-some (some (float m k)) d h = cc
dict_at-some (some (str t)) d h = cc
dict_at-some (some (arr xs)) d h = cc

-- where no dict stands, a path ends
pub get_nested-no_dict :
    (o : Option Value) (next : String) (path : List String)
    → dict_at o ≡ none
    → get_nested (or_null o) (next ∷ path) ≡ null
unfolding get_nested dict_at or_null
get_nested-no_dict none next path h = refl
get_nested-no_dict (some (obj d)) next path h = cc
get_nested-no_dict (some null) next path h = refl
get_nested-no_dict (some (bool b)) next path h = refl
get_nested-no_dict (some (int z)) next path h = refl
get_nested-no_dict (some (float m k)) next path h = refl
get_nested-no_dict (some (str t)) next path h = refl
get_nested-no_dict (some (arr xs)) next path h = refl

-- After `_remove_nested_key` there is nothing at the path, and every other key of the outer dict
-- has what it had.
remove_nested_key_lem :
    (segment : String) (path : List String) (dst : Fields)
    → (get_nested (obj (remove_nested_key (segment ∷ path) dst)) (segment ∷ path) ≡ null)
      × ((key : String)
          → (key == segment) ≡ false
          → get key (remove_nested_key (segment ∷ path) dst) ≡ get key dst)
unfolding get_nested remove_nested_key or_null
remove_nested_key_lem segment [] dst = (
  ground (arith, get-pop segment segment dst),
  λ key apart. ground (arith, get-pop key segment dst),
)
remove_nested_key_lem segment (next ∷ path) dst = elim (Option-cases (dict_at (get segment dst))) [
  | inl e ↦
      rw (e, remove_nested_key)
        (get_nested-no_dict (get segment dst) next path e, λ key apart. refl)
  | inr (d, e) ↦
      let (gone, rest) = remove_nested_key_lem next path d in
      rw (e, remove_nested_key)
        (
          ap (λ o. get_nested (or_null o) (next ∷ path))
                (get-set_self segment (obj (remove_nested_key (next ∷ path) d)) dst)
              ∙ gone,
          λ key apart.
              ground (arith, get-set key segment (obj (remove_nested_key (next ∷ path) d)) dst),
        )
]
