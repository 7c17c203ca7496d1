-- ===== src/Radios/JsonSafe/Plain.antt =====
-- `to_json_safe` on what is JSON already, and on objects that say how they become JSON.
use meshonator.Base.{
  Bool-cases, inl, inr, if◌then◌else◌, ◌≡◌, refl, sym, ap, ◌∙◌, String, none, string_eq, arith,
}
use meshonator.Json.{
  Value, null, bool, int, float, str, obj, arr, Fields, end, field, Items, nil, cons, get, set,
  IsWf, IsWfFields, IsWfItems,
}
use meshonator.Json.Laws.{get-set}
use meshonator.Base.Text.{starts_with}
use meshonator.Radios.JsonSafe.{
  stamp, other, Way, missing, raising, gives, Vars, no_dict, vars_of, safe_public, safe_way, Object,
  none_object, boolean, whole, real, word, dict, sequence, Entries, no_entries, entry, Objects,
  no_objects, next, to_json_safe, to_json_safe-IsWf, safe_entries, safe_items,
}

-- a JSON value as an object
abbrev mutual
  object_of : Value → Object
  object_of null = none_object
  object_of (bool b) = boolean b
  object_of (int z) = whole z
  object_of (float m k) = real m k
  object_of (str s) = word s
  object_of (obj d) = dict (entries_of d)
  object_of (arr xs) = sequence (objects_of xs)

  pub entries_of : Fields → Entries
  entries_of end = no_entries
  entries_of (field k v d) = entry k (object_of v) (entries_of d)

  objects_of : Items → Objects
  objects_of nil = no_objects
  objects_of (cons v xs) = next (object_of v) (objects_of xs)

append : Fields → Fields → Fields
append end e = e
append (field k v d) e = field k v (append d e)

append-end : (d : Fields) → append d end ≡ d
unfolding append
append-end end = refl
append-end (field k v d) = ap (field k v) (append-end d)

-- a dict with a new key at its end
append-set :
    (k : String) (v : Value) (out d : Fields)
    → get k out ≡ none
    → append (set k v out) d ≡ append out (field k v d)
unfolding append get set
append-set k v end d h = refl
append-set k v (field j w out) d h = ground (arith, append-set k v out d)

-- no key of the first dict is in the second one
abbrev Apart : Fields → Fields → Type 0
Apart end out = Unit
Apart (field k v d) out = (get k out ≡ none) × Apart d out

Apart-set :
    (k : String) (v : Value) (d out : Fields) → get k d ≡ none → Apart d out → Apart d (set k v out)
unfolding get
Apart-set k v end out h a = tt
Apart-set k v (field j w d) out h a = ground (arith, get-set j k v out, Apart-set k v d out)

Apart-end : (d : Fields) → Apart d end
unfolding get
Apart-end end = tt
Apart-end (field k v d) = (refl, Apart-end d)

mutual
  unfolding to_json_safe append

  value_same : (v : Value) → IsWf v → to_json_safe (object_of v) ≡ v
  value_same null w = refl
  value_same (bool b) w = refl
  value_same (int z) w = refl
  value_same (float m k) w = refl
  value_same (str s) w = refl
  value_same (obj d) w = ap obj (fields_same d end w (Apart-end d))
  value_same (arr xs) w = ap arr (items_same xs w)

  fields_same :
      (d out : Fields) → IsWfFields d → Apart d out → safe_entries (entries_of d) out ≡ append out d
  fields_same end out w a = sym (append-end out)
  fields_same (field k v d) out (wv, fresh, wd) a =
      ap (λ x. safe_entries (entries_of d) (set k x out)) (value_same v wv)
      ∙ fields_same d (set k v out) wd (Apart-set k v d out fresh a.1)
      ∙ append-set k v out d a.0

  items_same : (xs : Items) → IsWfItems xs → safe_items (objects_of xs) ≡ xs
  items_same nil w = refl
  items_same (cons v xs) (wv, wx) =
      ap (λ y. cons y (safe_items (objects_of xs))) (value_same v wv)
      ∙ ap (cons v) (items_same xs wx)

-- Converting what a conversion gave changes nothing.
to_json_safe_twice : (o : Object) → to_json_safe (object_of (to_json_safe o)) ≡ to_json_safe o
to_json_safe_twice o = value_same (to_json_safe o) (to_json_safe-IsWf o)

-- a dict without the keys that start with "_"
unfoldable pub public_part : Fields → Fields
public_part end = end
public_part (field k v d) =
    let rest = public_part d in if starts_with k "_" then rest else field k v rest

safe_public-public_part :
    (d out : Fields)
    → safe_public (entries_of d) out ≡ safe_entries (entries_of (public_part d)) out
unfolding to_json_safe public_part
safe_public-public_part end out = refl
safe_public-public_part (field k v d) out = elim (Bool-cases (starts_with k "_")) [
  | inl e ↦ rw (e, safe_public, public_part) (safe_public-public_part d out)
  | inr e ↦
      rw (e, safe_public, public_part)
        (safe_public-public_part d (set k (to_json_safe (object_of v)) out))
]

-- a method that an object lacks or that raises
abbrev Fails : Way → Type 0
Fails missing = Unit
Fails raising = Unit
Fails (gives o) = ⊥

-- The JSON that an object stands for: JSON stands for itself and a stamp for its text. Another object
-- stands for what its `model_dump` gives; where that fails, for what its `to_dict` gives; where both
-- fail, for the public part of its attributes, or for its text if it has none.
pub data StandsFor : Object → Value → Type 0 where
  json : (v : Value) → StandsFor (object_of v) v
  stamped : (s : String) → StandsFor (stamp s) (str s)
  dumped :
      (o : Object) (v : Value) (to_dict : Way) (vars : Vars) (text : String)
      → StandsFor o v
      → StandsFor (other (gives o) to_dict vars text) v
  as_dict :
      (o : Object) (v : Value) (model_dump : Way) (vars : Vars) (text : String)
      → Fails model_dump
      → StandsFor o v
      → StandsFor (other model_dump (gives o) vars text) v
  by_attributes :
      (d : Fields) (model_dump to_dict : Way) (text : String)
      → Fails model_dump
      → Fails to_dict
      → StandsFor (other model_dump to_dict (vars_of (entries_of d)) text) (obj (public_part d))
  by_text :
      (model_dump to_dict : Way) (text : String)
      → Fails model_dump
      → Fails to_dict
      → StandsFor (other model_dump to_dict no_dict text) (str text)

way_failed : (w : Way) → Fails w → safe_way w ≡ none
unfolding to_json_safe
way_failed missing h = refl
way_failed raising h = refl
way_failed (gives o) h = absurd h

-- An object that stands for a JSON value in which no dict has a key twice is converted to that
-- value: JSON for itself, a stamp for its text, and another object for what its `model_dump` gives,
-- or else its `to_dict`, or else for its public attributes, or else for its text.
pub to_json_safe_lem : (o : Object) (v : Value) → IsWf v → StandsFor o v → to_json_safe o ≡ v
unfolding to_json_safe append
to_json_safe_lem _ _ w (json v) = value_same v w
to_json_safe_lem _ _ w (stamped s) = refl
to_json_safe_lem _ _ w (dumped o v to_dict vars text h) = to_json_safe_lem o v w h
to_json_safe_lem _ _ w (as_dict o v model_dump vars text fails h) =
    rw (way_failed model_dump fails) (to_json_safe_lem o v w h)
to_json_safe_lem _ _ w (by_attributes d model_dump to_dict text fails fails_too) =
    rw (way_failed model_dump fails, way_failed to_dict fails_too)
      (ap obj (
        safe_public-public_part d end
        ∙ fields_same (public_part d) end w (Apart-end (public_part d))))
to_json_safe_lem _ _ w (by_text model_dump to_dict text fails fails_too) =
    rw (way_failed model_dump fails, way_failed to_dict fails_too) refl
