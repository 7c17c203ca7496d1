-- ===== src/Radios/Apply.antt =====
-- providers/meshtastic/provider.py: `apply_config_patch` and `mutate_node_db`, and the provider that
-- the services see.
use Prim.Native.String
use meshonator.Base.{
  ℕ, zero, suc, ◌/◌, String, Bool, true, ◌||◌, Option, none, some, List, [], ◌∷◌, ◌==◌,
  if◌then◌else◌, string_eq,
}
use meshonator.Base.Int.{ℤ, pos, negsuc}
use meshonator.Json.{Value, null, bool, str, obj, arr, Fields, end, field, Items, nil, cons, set}
use meshonator.Db.{Real}
use meshonator.Db.Session.{Exn, provider_error, other_error, exn_text, Result, ok, raised}
use meshonator.Operations.{opt_str, opt_real, is_some, has_fields, has_items}
use meshonator.Providers.{Net, ConfigPatch}
use meshonator.Radios.Channels.{apply_channels_patch}
use meshonator.Radios.Sections.{apply_sections}
use meshonator.Radios.Settings.{power_of_two}
use meshonator.Radios.{Section, Library, LocalNode, done, fail, ◌>>=◌, ◌>>◌}

abbrev opt_bool : Option Bool → Value
opt_bool none = null
opt_bool (some b) = bool b

-- `patch.model_dump()`
unfoldable pub model_dump : ConfigPatch → Fields
model_dump p = field "short_name" (opt_str p.short_name) (
    field "long_name" (opt_str p.long_name) (
      field "role" (opt_str p.role) (
        field "favorite" (opt_bool p.favorite) (
          field "latitude" (opt_real p.latitude) (
            field "longitude" (opt_real p.longitude) (
              field "altitude" (opt_real p.altitude) (
                field "local_config_patch" (obj p.local_config_patch) (
                  field "module_config_patch" (obj p.module_config_patch)
                    (field "channels_patch" (arr p.channels_patch) end)))))))))

-- `int(altitude)`, towards zero
abbrev negative : ℕ → ℤ
negative zero = pos 0
negative (suc m) = negsuc m

abbrev divided : ℤ → ℕ → ℤ
divided (pos n) whole = pos (n / whole)
divided (negsuc n) whole = negative (suc n / whole)

unfoldable truncated : Real → ℤ
unfolding power_of_two
truncated r = divided r.mantissa (power_of_two r.scale)

abbrev altitude_or_zero : Option Real → ℤ
altitude_or_zero none = pos 0
altitude_or_zero (some r) = truncated r

abbrev pub text_items : List String → Items
text_items [] = nil
text_items (s ∷ rest) = cons (str s) (text_items rest)

-- an entry of `applied` for the sections that were written, if any were
abbrev note_sections : String → Fields → Fields → List String → Fields
note_sections key patch applied [] = applied
note_sections key patch applied (name ∷ written) =
    set key
      (obj (
        field "written_sections" (arr (text_items (name ∷ written)))
          (field "patch" (obj patch) end)))
      applied

abbrev note_channels : Fields → Items → Fields
note_channels applied nil = applied
note_channels applied (cons item updates) = set "channels" (arr (cons item updates)) applied

abbrev name_payload : ConfigPatch → Value
name_payload p =
    obj (field "short_name" (opt_str p.short_name) (field "long_name" (opt_str p.long_name) end))

module _ {N : Type 0} (node : LocalNode N) where
  unfoldable pub apply_name : ConfigPatch → Fields → Net N Fields
  apply_name p applied =
      if is_some p.short_name || is_some p.long_name
      then elim node.set_owner [
        | none ↦ done applied
        | some set_owner ↦ (do
          set_owner p.long_name p.short_name
          done (set "name" (name_payload p) applied))
      ]
      else done applied

  -- both coordinates and the method are there
  unfoldable pub apply_position : ConfigPatch → Fields → Net N Fields
  unfolding truncated
  apply_position p applied = elim p.latitude [
    | none ↦ done applied
    | some lat ↦ elim p.longitude [
      | none ↦ done applied
      | some lon ↦ elim node.set_fixed_position [
        | none ↦ done applied
        | some set_fixed_position ↦ (do
          set_fixed_position lat lon (altitude_or_zero p.altitude)
          done (
              set "position"
                (obj (
                  field "latitude" (opt_real (some lat)) (
                    field "longitude" (opt_real (some lon))
                      (field "altitude" (opt_real p.altitude) end))))
                applied))
      ]
    ]
  ]

  unfoldable pub apply_configs :
      String → (String → Option (Section N)) → Fields → Fields → Net N Fields
  apply_configs key section patch applied =
      if has_fields patch
      then elim node.write_config [
        | none ↦ done applied
        | some write_config ↦ (do
          written ← apply_sections section write_config patch
          done (note_sections key patch applied written))
      ]
      else done applied

  unfoldable pub apply_channels : Items → Fields → Net N Fields
  apply_channels patch applied =
      if has_items patch
      then elim node.write_channel [
        | none ↦ done applied
        | some write_channel ↦ (do
          updates ← apply_channels_patch write_channel node.channels patch
          done (note_channels applied updates))
      ]
      else done applied

  -- what is written to the radio, in the order of the source
  unfoldable pub apply_to_node : ConfigPatch → Net N Fields
  apply_to_node p = do
    named ← apply_name p end
    placed ← apply_position p named
    configured ← apply_configs "local_config" node.local_section p.local_config_patch placed
    extended ← apply_configs "module_config" node.module_section p.module_config_patch configured
    apply_channels p.channels_patch extended

  -- `node.setFavorite`, `node.removeFavorite` or `node.removeNode`
  abbrev perform_action : String → String → Net N (Unit {0})
  perform_action action target =
      if action == "set_favorite"
      then node.set_favorite target
      else if action == "remove_favorite"
      then node.remove_favorite target
      else if action == "remove_node"
      then node.remove_node target
      else done tt

abbrev pub dry_run_answer : String → ConfigPatch → Fields
dry_run_answer provider_node_id p = field "provider_node_id" (str provider_node_id) (
    field "mode" (str "dry_run")
      (field "patch" (obj (model_dump p)) (field "supported" (bool true) end)))

abbrev applied_answer : String → Fields → Fields
applied_answer provider_node_id applied =
    field "provider_node_id" (str provider_node_id) (
      field "mode" (str "apply")
        (field "applied" (obj applied) (field "supported" (bool true) end)))

abbrev node_db_answer : String → String → String → String → Fields
node_db_answer destination target action mode = field "destination_node_id" (str destination) (
    field "target_node_id" (str target)
      (field "action" (str action) (field "mode" (str mode) (field "supported" (bool true) end))))

unfoldable pub is_supported_action : String → Bool
is_supported_action action =
    action == "set_favorite" || action == "remove_favorite" || action == "remove_node"

module _ {N C : Type 0} (library : Library N C) where
  unfoldable pub apply_config_patch : C → String → ConfigPatch → Bool → Net N Fields
  apply_config_patch conn provider_node_id p dry_run =
      if dry_run then done (dry_run_answer provider_node_id p) else elim (library.local_node conn) [
        | none ↦ fail (provider_error "No local node available")
        | some node ↦ (do
          applied ← apply_to_node node p
          done (applied_answer provider_node_id applied))
      ]

  -- `wait_for_ack()`, if the connection has it
  abbrev acknowledged : C → Net N (Unit {0})
  acknowledged conn = elim (library.wait_for_ack conn) [ none ↦ done tt | some wait ↦ wait ]

  abbrev method_of : String → String
  method_of action =
      if action == "set_favorite"
      then "setFavorite'"
      else if action == "remove_favorite"
      then "removeFavorite'"
      else "removeNode'"

  -- the body of the `try` of `mutate_node_db`
  abbrev pub mutated : C → Option (LocalNode N) → String → String → Net N (Unit {0})
  mutated conn none action target =
      fail (other_error (String.◌++◌ "'NoneType' object has no attribute '" (method_of action)))
  mutated conn (some node) action target = do perform_action node action target; acknowledged conn

  abbrev node_db_error : String → String → String → String → Exn → Exn
  node_db_error action destination target elapsed_s e = provider_error (
      String.◌++◌ "Meshtastic NodeDB action " (
        String.◌++◌ action (
          String.◌++◌ " for " (
            String.◌++◌ destination (
              String.◌++◌ " -> " (
                String.◌++◌ target (
                  String.◌++◌ " failed after "
                    (String.◌++◌ elapsed_s (String.◌++◌ "s: " (exn_text e))))))))))

  -- every exception of the `try` becomes a ProviderError
  abbrev pub mutated_result :
      String → String → String → N → Result (Unit {0}) × N → Result Fields × N
  mutated_result action destination target n (ok u, n') =
      (ok (node_db_answer destination target action "apply"), n')
  mutated_result action destination target n (raised e, n') =
      (raised (node_db_error action destination target (library.elapsed_s n n') e), n')

  unfoldable pub mutate_node_db : C → String → String → String → Bool → Net N Fields
  mutate_node_db conn destination action target dry_run n =
      if is_supported_action action
      then if dry_run
        then done (node_db_answer destination target action "dry_run") n
        else mutated_result action destination target n
            (mutated conn (library.local_node conn) action target n)
      else fail (provider_error (String.◌++◌ "Unsupported NodeDB action for meshtastic: " action)) n
