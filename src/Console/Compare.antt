-- ===== src/Console/Compare.antt =====
-- api/app.py: the comparison of the configurations of nodes: `_normalize_channels_for_compare`,
-- `_compare_values`, `_section_for_path`, `_is_location_path`, `_build_comparable_snapshot` and
-- `_compare_node_configs`. The `str` of an int is a parameter.
pub mod Differ
pub mod Reported
use Prim.Native.String
use Prim.Native.Char.{code}
use Prim.Native.Nat.{zero}
use meshonator.Base.{
  ℕ, ◌+◌, ◌≡◌, refl, String, Bool, true, false, ◌||◌, not, Option, none, some, List, [], ◌∷◌, ◌++◌,
  map, ◌==◌, if◌then◌else◌, string_eq, nat_eq, filter_by, contains, length,
}
use meshonator.Base.Int.{pos}
use meshonator.Base.Sort.{sort_by}
use meshonator.Base.Text.{is_empty, starts_with, text_leb}
use meshonator.Json.{
  Value, null, bool, int, float, str, obj, arr, Fields, end, field, Items, nil, cons, get, set,
  dict_or_empty,
}
use meshonator.Json.Equal.{same}
use meshonator.Console.Nested.{or_null}
use meshonator.Db.{Uuid, Real, ManagedNodeModel}

pub record Diff : Type 0 where
  pub path : String
  pub source : Value
  pub target : Value

-- f"{path}.{key}" if path else key
unfoldable pub child_path : String → String → String
child_path path key = if is_empty path then key else String.◌++◌ path (String.◌++◌ "." key)

-- two values that are not both dicts
unfoldable pub compare_leaf : Value → Value → String → List Diff
compare_leaf source target path =
    if same source target
    then []
    else (record { path = path; source = source; target = target }) ∷ []

-- the keys of the target that the source lacks, where the source has None
unfoldable pub compare_missing : Fields → Fields → String → List (String × List Diff)
compare_missing end d path = []
compare_missing (field k w e) d path =
    let rows = compare_missing e d path in
    elim (get k d) [ none ↦ (k, compare_leaf null w (child_path path k)) ∷ rows | some v ↦ rows ]

unfoldable pub concat_rows : List (String × List Diff) → List Diff
concat_rows [] = []
concat_rows ((k, diffs) ∷ rows) = diffs ++ concat_rows rows

-- the differences below each key, in the order of the keys
unfoldable pub in_key_order : List (String × List Diff) → List Diff
in_key_order rows = concat_rows (sort_by (λ a b. text_leb a.0 b.0) rows)

unfoldable mutual
  pub compare_values : Value → Value → String → List Diff
  compare_values (obj d) (obj e) path =
      in_key_order (compare_entries d e path ++ compare_missing e d path)
  compare_values source target path = compare_leaf source target path

  -- the keys of the source
  pub compare_entries : Fields → Fields → String → List (String × List Diff)
  compare_entries end e path = []
  compare_entries (field k v d) e path =
      (k, compare_values v (or_null (get k e)) (child_path path k)) ∷ compare_entries d e path

abbrev extend_first : String → List String → List String
extend_first s [] = s ∷ []
extend_first s (part ∷ parts) = String.◌++◌ s part ∷ parts

-- `path.split(".")`
unfoldable split_dots : String → List String
split_dots String.[] = "" ∷ []
split_dots (String.◌∷◌ c s) =
    let parts = split_dots s in
    if code c == 46 then "" ∷ parts else extend_first (String.◌∷◌ c String.[]) parts

unfoldable section_of : List String → String
section_of [] = "unknown"
section_of (root ∷ []) = root
section_of (root ∷ second ∷ parts) =
    if root == "local_config" || root == "module_config" || root == "channels"
    then String.◌++◌ root (String.◌++◌ "." second)
    else root

unfoldable section_for_path : String → String
section_for_path path = section_of (split_dots path)

unfoldable is_location_path : String → Bool
is_location_path path = starts_with path "location."

abbrev real_or_null : Option Real → Value
real_or_null none = null
real_or_null (some r) = float r.mantissa r.scale

-- the value of `isinstance(index, int)`, or else the position
unfoldable index_or : Option Value → ℕ → Value
index_or (some (int z)) position = int z
index_or (some (bool b)) position = bool b
index_or _ position = int (pos position)

abbrev is_dict_value : Option Value → Bool
is_dict_value (some (obj d)) = true
is_dict_value _ = false

unfoldable channel_for_compare : Fields → Value
channel_for_compare item = obj (
    field "role" (or_null (get "role" item)) (
      field "settings" (obj (dict_or_empty (get "settings" item))) (
        field "moduleSettings"
          (obj (
            dict_or_empty (
              if is_dict_value (get "moduleSettings" item)
              then get "moduleSettings" item
              else get "module_settings" item)))
          end)))

-- the sections of the differences, sorted, each once
unfoldable sections_of : List Diff → List String
sections_of [] = []
sections_of (d ∷ diffs) =
    let sections = sections_of diffs in
    let section : String = section_for_path d.path in
    if contains sections section then sections else sort_by text_leb (section ∷ sections)

unfoldable visible : Bool → List Diff → List Diff
visible ignore_location diffs =
    if ignore_location then filter_by (λ d. not (is_location_path d.path)) diffs else diffs

-- how a target compares with the source: it is "same" where there are no differences
pub data Comparison : Type 0 where
  skipped : (target : Uuid) → Comparison
  compared : (target : Uuid) (sections : List String) (diffs : List Diff) → Comparison

module _ (str_of : Value → String) where
  unfoldable normalize_items : ℕ → Items → Fields → Fields
  normalize_items position nil out = out
  normalize_items position (cons (obj item) channels) out =
      normalize_items (position + 1) channels
        (set (str_of (index_or (get "index" item) position)) (channel_for_compare item) out)
  normalize_items position (cons item channels) out = normalize_items (position + 1) channels out

  unfoldable normalize_channels_for_compare : Option Value → Fields
  normalize_channels_for_compare (some (arr channels)) = normalize_items 0 channels end
  normalize_channels_for_compare channels = end

  unfoldable build_comparable_snapshot : ManagedNodeModel → Value
  build_comparable_snapshot node = obj (
      field "local_config" (obj (dict_or_empty (get "preferences" node.raw_metadata))) (
        field "module_config" (obj (dict_or_empty (get "modulePreferences" node.raw_metadata))) (
          field "channels" (obj (normalize_channels_for_compare (get "channels" node.raw_metadata)))
            (field "location"
              (obj (
                field "latitude" (real_or_null node.latitude) (
                  field "longitude" (real_or_null node.longitude)
                    (field "altitude" (real_or_null node.altitude) end))))
              end))))

  unfoldable compare_target : ManagedNodeModel → Bool → ManagedNodeModel → Comparison
  compare_target source_node ignore_location target =
      if target.provider == source_node.provider
      then (let diffs : List Diff = visible ignore_location (
            compare_values (build_comparable_snapshot source_node)
              (build_comparable_snapshot target) "") in
          compared target.id (sections_of diffs) diffs)
      else skipped target.id

  unfoldable compare_node_configs :
      ManagedNodeModel → List ManagedNodeModel → Bool → List Comparison
  compare_node_configs source_node target_nodes ignore_location =
      map (compare_target source_node ignore_location)
        (filter_by (λ target. not (target.id == source_node.id)) target_nodes)
