-- ===== src/Console/Baseline.antt =====
-- api/app.py: `_build_fleet_baseline_patch` and `_build_meshtastic_default_settings_patch`, the
-- patches for a whole fleet from the fields of a form. `int` is a parameter.
pub mod Forms
pub mod Flat
pub mod Shape
mod Tests
use meshonator.Base.{String, Bool, Option, none, some, List, [], ◌∷◌, if◌then◌else◌, ◌==◌, not}
use meshonator.Base.Int.{ℤ, pos, int_eq}
use meshonator.Base.Text.{upper}
use meshonator.Console.Forms.{parse_optional, parse_optional_text, parse_optional_bool}
use meshonator.Db.Session.{Result, ok, raised}
use meshonator.Json.{Value, int, str, bool, obj, Fields, end, field, Items, nil, cons, set}

-- a field of the form, with its key in the patch and the text that was entered
pub data Input : Type 0 where
  whole positive text capital switch : (key raw : String) → Input

abbrev pub with_result : {A B : Type 0} → Result A → (A → Result B) → Result B
with_result (ok a) f = f a
with_result (raised e) f = raised e

abbrev pub put_value : String → Option Value → Fields → Fields
put_value key none patch = patch
put_value key (some v) patch = set key v patch

abbrev pub int_value : Option ℤ → Option Value
int_value none = none
int_value (some z) = some (int z)

-- `if value := …`: a zero counts as no value
abbrev pub truthy_int : Option ℤ → Option Value
truthy_int none = none
truthy_int (some z) = if z == pos 0 then none else some (int z)

abbrev pub bool_value : Option Bool → Option Value
bool_value none = none
bool_value (some b) = some (bool b)

abbrev pub text_value : Option String → Option Value
text_value none = none
text_value (some s) = some (str s)

abbrev pub capital_value : Option String → Option Value
capital_value none = none
capital_value (some s) = some (str (upper s))

-- `if patch: parent[key] = patch`
abbrev pub put_section : String → Fields → Fields → Fields
put_section key end parent = parent
put_section key (field k v d) parent = set key (obj (field k v d)) parent

-- the patches of the local configuration, of the modules and of the channels
pub record FleetPatch : Type 0 where
  pub local_patch : Fields
  pub module_patch : Fields
  pub channels_patch : Items

-- the row of the primary channel
abbrev pub channel_part : String → Fields → Fields
channel_part key end = end
channel_part key (field k v d) = field key (obj (field k v d)) end

abbrev pub primary_row : Fields → Fields → Items
primary_row end end = nil
primary_row (field k v d) end =
    cons (obj (field "index" (int (pos 0)) (field "settings" (obj (field k v d)) end))) nil
primary_row settings (field k v d) =
    cons
      (obj (
        field "index" (int (pos 0))
          (put_section "moduleSettings" (field k v d) (channel_part "settings" settings))))
      nil

abbrev pub key_of : Input → String
key_of (whole key raw) = key
key_of (positive key raw) = key
key_of (text key raw) = key
key_of (capital key raw) = key
key_of (switch key raw) = key

module _ (int_of : String → Result ℤ) where
  -- the value of a field, `none` where the form says nothing
  unfoldable pub entered : Input → Result (Option Value)
  entered (whole key raw) = with_result (parse_optional int_of raw) (λ o. ok (int_value o))
  entered (positive key raw) = with_result (parse_optional int_of raw) (λ o. ok (truthy_int o))
  entered (text key raw) = ok (text_value (parse_optional_text raw))
  entered (capital key raw) = ok (capital_value (parse_optional_text raw))
  entered (switch key raw) = with_result (parse_optional_bool raw) (λ o. ok (bool_value o))

  -- a patch of one section, field by field
  unfoldable pub fill : List Input → Fields → Result Fields
  fill [] patch = ok patch
  fill (input ∷ inputs) patch =
      with_result (entered input) (λ o. fill inputs (put_value (key_of input) o patch))
