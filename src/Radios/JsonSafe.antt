-- ===== src/Radios/JsonSafe.antt =====
-- providers/utils/json_safe.py: `to_json_safe`, on the Python objects that it tells apart.
pub mod Plain
use meshonator.Base.{
  ◌≡◌, refl, sym, ℕ, String, Bool, true, false, Option, none, some, if◌then◌else◌, Bool-cases, inl,
  inr,
}
use meshonator.Base.Text.{starts_with}
use meshonator.Json.{
  Value, null, bool, int, float, str, obj, arr, Fields, end, field, Items, nil, cons, set, IsWf,
  IsWfFields, IsWfItems,
}
use meshonator.Json.Laws.{set-IsWf}
use meshonator.Base.Int.{ℤ}

mutual
  -- An object: None or a scalar; a datetime, date, UUID, Decimal or Enum, by its `str`; a dict, by
  -- the `str` of its keys; a list, tuple or set; or any other object, by its ways to become one of
  -- these, which are tried in turn, and its `str`.
  pub data Object : Type 0 where
    none_object : Object
    boolean : Bool → Object
    whole : ℤ → Object
    real : ℤ → ℕ → Object
    word : String → Object
    stamp : String → Object
    dict : Entries → Object
    sequence : Objects → Object
    other : (model_dump to_dict : Way) (vars : Vars) (text : String) → Object

  -- a method or an attribute: missing, raising, or giving an object
  pub data Way : Type 0 where
    missing : Way
    raising : Way
    gives : Object → Way

  -- `vars(value)`, if it has a `__dict__`
  pub data Vars : Type 0 where
    no_dict : Vars
    vars_of : Entries → Vars

  pub data Entries : Type 0 where
    no_entries : Entries
    entry : (key : String) (value : Object) (rest : Entries) → Entries

  pub data Objects : Type 0 where
    no_objects : Objects
    next : (head : Object) (tail : Objects) → Objects

abbrev first_value : Option Value → Value → Value
first_value none v = v
first_value (some v) w = v

unfoldable mutual
  pub to_json_safe : Object → Value
  to_json_safe none_object = null
  to_json_safe (boolean b) = bool b
  to_json_safe (whole z) = int z
  to_json_safe (real m k) = float m k
  to_json_safe (word s) = str s
  to_json_safe (stamp s) = str s
  to_json_safe (dict entries) = obj (safe_entries entries end)
  to_json_safe (sequence objects) = arr (safe_items objects)
  to_json_safe (other model_dump to_dict vars text) =
      first_value (safe_way model_dump) (first_value (safe_way to_dict) (safe_vars vars text))

  safe_way : Way → Option Value
  safe_way missing = none
  safe_way raising = none
  safe_way (gives o) = some (to_json_safe o)

  safe_vars : Vars → String → Value
  safe_vars no_dict text = str text
  safe_vars (vars_of entries) text = obj (safe_public entries end)

  -- the attributes whose names do not start with "_"
  safe_public : Entries → Fields → Fields
  safe_public no_entries out = out
  safe_public (entry key value rest) out =
      safe_public rest (if starts_with key "_" then out else set key (to_json_safe value) out)

  -- the dict comprehension: of two keys with the same text the later one is kept
  pub safe_entries : Entries → Fields → Fields
  safe_entries no_entries out = out
  safe_entries (entry key value rest) out = safe_entries rest (set key (to_json_safe value) out)

  pub safe_items : Objects → Items
  safe_items no_objects = nil
  safe_items (next o rest) = cons (to_json_safe o) (safe_items rest)

first_value-IsWf :
    (o : Option Value) (w : Value)
    → ((v : Value) → o ≡ some v → IsWf v)
    → IsWf w
    → IsWf (first_value o w)
first_value-IsWf none w h g = g
first_value-IsWf (some v) w h g = h v refl

mutual
  unfolding to_json_safe

  safe-IsWf : (o : Object) → IsWf (to_json_safe o)
  safe-IsWf none_object = tt
  safe-IsWf (boolean b) = tt
  safe-IsWf (whole z) = tt
  safe-IsWf (real m k) = tt
  safe-IsWf (word s) = tt
  safe-IsWf (stamp s) = tt
  safe-IsWf (dict entries) = entries-IsWf entries end tt
  safe-IsWf (sequence objects) = items-IsWf objects
  safe-IsWf (other model_dump to_dict vars text) =
      way-IsWf model_dump (first_value (safe_way to_dict) (safe_vars vars text))
        (way-IsWf to_dict (safe_vars vars text) (vars-IsWf vars text))

  way-IsWf : (w : Way) (v : Value) → IsWf v → IsWf (first_value (safe_way w) v)
  way-IsWf missing v h = h
  way-IsWf raising v h = h
  way-IsWf (gives o) v h = safe-IsWf o

  vars-IsWf : (vars : Vars) (text : String) → IsWf (safe_vars vars text)
  vars-IsWf no_dict text = tt
  vars-IsWf (vars_of entries) text = public-IsWf entries end tt

  public-IsWf :
      (entries : Entries) (out : Fields) → IsWfFields out → IsWfFields (safe_public entries out)
  public-IsWf no_entries out h = h
  public-IsWf (entry key value rest) out h =
      public-IsWf rest (if starts_with key "_" then out else set key (to_json_safe value) out)
        (elim (starts_with key "_")
          as (λ b. IsWfFields (if b then out else set key (to_json_safe value) out)) [
            | true ↦ h
            | false ↦ set-IsWf key (to_json_safe value) out (safe-IsWf value) h
          ])

  entries-IsWf :
      (entries : Entries) (out : Fields) → IsWfFields out → IsWfFields (safe_entries entries out)
  entries-IsWf no_entries out h = h
  entries-IsWf (entry key value rest) out h =
      entries-IsWf rest (set key (to_json_safe value) out)
        (set-IsWf key (to_json_safe value) out (safe-IsWf value) h)

  items-IsWf : (objects : Objects) → IsWfItems (safe_items objects)
  items-IsWf no_objects = tt
  items-IsWf (next o rest) = (safe-IsWf o, items-IsWf rest)

-- No dict of the outcome has a key twice.
pub to_json_safe-IsWf : (o : Object) → IsWf (to_json_safe o)
to_json_safe-IsWf o = safe-IsWf o
