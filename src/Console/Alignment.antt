-- ===== src/Console/Alignment.antt =====
-- api/app.py: the configuration that the console takes from a source node to align others with it,
-- and which differences of a comparison count for that.
pub mod Copied
use meshonator.Base.{
  String, Bool, true, false, ◌&&◌, ◌||◌, not, Option, none, some, List, [], ◌∷◌, ◌==◌,
  if◌then◌else◌, string_eq,
}
use meshonator.Base.Text.{starts_with, ends_with}
use meshonator.Json.{Value, null, obj, str, Fields, end, get}
use meshonator.Console.Nested.{or_null, get_nested, set_nested, remove_nested_key}

abbrev pub in_section : String → String → List String
in_section section key = section ∷ key ∷ []

-- `ALIGNMENT_LOCAL_PATHS`
abbrev pub alignment_local_paths : List (List String)
alignment_local_paths =
    in_section "lora" "hopLimit"
    ∷ in_section "device" "tzdef"
    ∷ in_section "network" "ntpServer"
    ∷ in_section "lora" "ignoreMqtt"
    ∷ in_section "lora" "spreadFactor"
    ∷ in_section "network" "enabledProtocols"
    ∷ in_section "position" "broadcastSmartMinimumIntervalSecs"
    ∷ in_section "device" "rebroadcastMode"
    ∷ in_section "device" "role"
    ∷ in_section "lora" "bandwidth"
    ∷ in_section "lora" "codingRate"
    ∷ in_section "position" "gpsMode"
    ∷ in_section "position" "gpsUpdateInterval"
    ∷ in_section "position" "positionBroadcastSecs"
    ∷ []

-- `ALIGNMENT_MODULE_OMIT_PATHS`
abbrev alignment_module_omit_paths : List (List String)
alignment_module_omit_paths =
    in_section "ambientLighting" "blue" ∷ in_section "ambientLighting" "green" ∷ []

-- the dict under the key, which is empty where the key is missing
unfoldable pub section_dict : Option Value → Option Fields
section_dict none = some end
section_dict (some (obj d)) = some d
section_dict (some v) = none

-- a value that is there is written; `none` stands for an exception of `_set_nested`
unfoldable pub written : Value → List String → Fields → Option Fields
written null path out = some out
written value path out = set_nested path value out

-- the loop of `_build_alignment_local_patch`
unfoldable pub copy_paths : List (List String) → Fields → Fields → Option Fields
copy_paths [] prefs out = some out
copy_paths (path ∷ paths) prefs out = elim (written (get_nested (obj prefs) path) path out) [
  | none ↦ none
  | some next ↦ copy_paths paths prefs next
]

unfoldable pub without_keys : Option Fields → Option Fields
without_keys none = none
without_keys (some out) = some (
    remove_nested_key (in_section "security" "publicKey")
      (remove_nested_key (in_section "security" "privateKey") out))

unfoldable pub build_alignment_local_patch : Fields → Option Fields
build_alignment_local_patch raw_metadata = elim (section_dict (get "preferences" raw_metadata)) [
  | none ↦ some end
  | some prefs ↦ without_keys (copy_paths alignment_local_paths prefs end)
]

unfoldable remove_paths : List (List String) → Fields → Fields
remove_paths [] out = out
remove_paths (path ∷ paths) out = remove_paths paths (remove_nested_key path out)

unfoldable build_alignment_module_patch : Fields → Fields
build_alignment_module_patch raw_metadata =
    elim (section_dict (get "modulePreferences" raw_metadata)) [
      | none ↦ end
      | some out ↦ remove_paths alignment_module_omit_paths out
    ]

unfoldable is_alignment_compare_path : String → Bool
is_alignment_compare_path path =
    path == "local_config.lora.hopLimit"
    || path == "local_config.device.tzdef"
    || path == "local_config.network.ntpServer"
    || path == "local_config.lora.ignoreMqtt"
    || path == "local_config.lora.spreadFactor"
    || path == "local_config.network.enabledProtocols"
    || path == "local_config.position.broadcastSmartMinimumIntervalSecs"
    || path == "local_config.device.rebroadcastMode"
    || path == "local_config.device.role"
    || path == "local_config.lora.bandwidth"
    || path == "local_config.lora.codingRate"
    || path == "local_config.position.gpsMode"
    || path == "local_config.position.gpsUpdateInterval"
    || path == "local_config.position.positionBroadcastSecs"
    || path == "module_config.telemetry.deviceUpdateInterval"
    || ends_with path ".settings.uplinkEnabled"
    || ends_with path ".settings.downlinkEnabled"

unfoldable is_ignored_compare_path : String → Bool
is_ignored_compare_path path =
    starts_with path "local_config.security." || starts_with path "module_config.ambientLighting."

abbrev is_none : Value → Bool
is_none null = true
is_none v = false

-- `_is_presence_only_alignment_diff`, on the path, the source and the target of a difference
unfoldable is_presence_only_alignment_diff : String → Value → Value → Bool
is_presence_only_alignment_diff path source target =
    is_alignment_compare_path path
    && ((is_none source && not (is_none target)) || (not (is_none source) && is_none target))
