-- ===== src/Radios/Sections.antt =====
-- providers/meshtastic/provider.py: `_normalize_key`, `_assign_message_fields`,
-- `_apply_section_patch`, `_apply_local_config_patch` and `_apply_module_config_patch`.
pub mod Written
use Prim.Native.Char.{code}
use Prim.Native.String
use meshonator.Base.{
  String, Option, none, some, List, [], ◌∷◌, ◌==◌, if◌then◌else◌, nat_eq, string_eq,
}
use meshonator.Json.{Value, obj, arr, Fields, end, field}
use meshonator.Db.Session.{Result, ok, raised}
use meshonator.Providers.{Net}
use meshonator.Radios.{
  Attributes, no_more, attribute, Attribute, plain, object, Section, descriptor, attributes, done,
  ◌>>=◌, ◌>>◌,
}

-- `key.replace("-", "_")`
unfoldable pub normalize_key : String → String
normalize_key String.[] = String.[]
normalize_key (String.◌∷◌ c s) =
    String.◌++◌ (if code c == 45 then "_" else String.◌∷◌ c String.[]) (normalize_key s)

-- `setattr` of an attribute that is there; a key that is not is skipped
unfoldable pub update_attribute : String → (Attribute → Attribute) → Attributes → Attributes
update_attribute key f no_more = no_more
update_attribute key f (attribute name held rest) =
    if key == name
    then attribute name (f held) rest
    else attribute name held (update_attribute key f rest)

unfoldable mutual
  pub assign_message_fields : Fields → Attributes → Attributes
  assign_message_fields end message = message
  assign_message_fields (field raw_key value values) message =
      assign_message_fields values
        (update_attribute (normalize_key raw_key) (assign_value value) message)

  -- A dict goes into the object that stands there, and is lost where none does. A list replaces the
  -- items of a container, or is set like any other value.
  pub assign_value : Value → Attribute → Attribute
  assign_value (obj values) (object target) = object (assign_message_fields values target)
  assign_value (obj values) (plain v) = plain v
  assign_value value target = plain value

module _ {N : Type 0} where
  unfoldable pub apply_section_patch : Section N → Fields → Net N (Unit {0})
  apply_section_patch (descriptor parse_dict) patch = parse_dict patch
  apply_section_patch (attributes read write) patch =
      λ n. (ok tt, write (assign_message_fields patch (read n)) n)

  -- one section of the patch: its name, once it is written
  abbrev pub write_one_section :
      (String → Net N (Unit {0}))
      → Option (Section N)
      → String
      → Fields
      → Net N (List String)
      → Net N (List String)
  write_one_section write_config none section_name section_values later = later
  write_one_section write_config (some section) section_name section_values later = do
    apply_section_patch section section_values
    write_config section_name
    written ← later
    done (section_name ∷ written)

  -- `_apply_local_config_patch` and `_apply_module_config_patch`, which differ in the sections
  unfoldable pub apply_sections :
      (String → Option (Section N)) → (String → Net N (Unit {0})) → Fields → Net N (List String)
  apply_sections section write_config end = done []
  apply_sections section write_config (field raw_section_name (obj section_values) patch) =
      let section_name = normalize_key raw_section_name in
      write_one_section write_config (section section_name) section_name section_values
        (apply_sections section write_config patch)
  apply_sections section write_config (field raw_section_name value patch) =
      apply_sections section write_config patch
