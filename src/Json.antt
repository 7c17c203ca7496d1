-- ===== src/Json.antt =====
-- JSON values as Python holds them after `json.loads`: the payloads of jobs, the metadata of nodes
-- and the configuration patches. A dict is its entries in insertion order. A finite float is
-- `float m k`, the number m / 2 ^ k. Values are immutable here: a copy (`dict(d)`, `deepcopy`) is
-- the value itself.
pub mod Laws
pub mod Merge
pub mod Equal
mod Tests
use meshonator.Base.{
  ◌≡◌, ℕ, zero, suc, String, Bool, true, false, not, Option, none, some, ◌==◌, if◌then◌else◌,
  string_eq,
}
use meshonator.Base.Int.{ℤ, pos, int_eq}
use meshonator.Base.Text.{is_empty}

mutual
  -- a dict, by its entries in insertion order
  pub data Fields : Type 0 where
    end : Fields
    field : (key : String) (value : Value) (rest : Fields) → Fields

  pub data Value : Type 0 where
    null : Value
    bool : Bool → Value
    int : ℤ → Value
    float : ℤ → ℕ → Value
    str : String → Value
    obj : Fields → Value
    arr : Items → Value

  -- a list
  pub data Items : Type 0 where
    nil : Items
    cons : (head : Value) (tail : Items) → Items

-- `d.get(k)`, with `none` where the key is missing
unfoldable pub get : String → Fields → Option Value
get k end = none
get k (field j v d) = if k == j then some v else get k d

-- `d[k] = v`
unfoldable pub set : String → Value → Fields → Fields
set k v end = field k v end
set k v (field j w d) = if k == j then field j v d else field j w (set k v d)

-- `d.pop(k, None)`
unfoldable pub pop : String → Fields → Fields
pop k end = end
pop k (field j w d) = let rest = pop k d in if k == j then rest else field j w rest

-- the truth value of a value
unfoldable pub truthy : Value → Bool
unfolding is_empty int_eq
truthy null = false
truthy (bool b) = b
truthy (int z) = not (z == pos 0)
truthy (float m k) = not (m == pos 0)
truthy (str s) = not (is_empty s)
truthy (arr nil) = false
truthy (arr (cons x xs)) = true
truthy (obj end) = false
truthy (obj (field k v d)) = true

-- the number behind `isinstance(value, int)`; a Python bool is an int
unfoldable pub as_int : Value → Option ℤ
as_int (int z) = some z
as_int (bool true) = some (pos 1)
as_int (bool false) = some (pos 0)
as_int _ = none

-- `value if isinstance(value, dict) else {}`, for a value that may be missing
unfoldable pub dict_or_empty : Option Value → Fields
dict_or_empty (some (obj d)) = d
dict_or_empty _ = end

-- `value if isinstance(value, list) else []`
unfoldable pub list_or_empty : Option Value → Items
list_or_empty (some (arr xs)) = xs
list_or_empty _ = nil

-- No dict inside the value has a key twice: what holds of every Python dict.
abbrev mutual
  pub IsWf : Value → Type 0
  IsWf null = Unit
  IsWf (bool b) = Unit
  IsWf (int z) = Unit
  IsWf (float m k) = Unit
  IsWf (str s) = Unit
  IsWf (arr xs) = IsWfItems xs
  IsWf (obj d) = IsWfFields d

  pub IsWfItems : Items → Type 0
  IsWfItems nil = Unit
  IsWfItems (cons x xs) = IsWf x × IsWfItems xs

  pub IsWfFields : Fields → Type 0
  IsWfFields end = Unit
  IsWfFields (field k v d) = IsWf v × (get k d ≡ none) × IsWfFields d
