-- ===== src/Queue/Multi.antt =====
-- jobs/queue.py: `_run_multi_node_patch_job`, which patches several nodes with one patch, made from
-- the configuration of another node where the job asks for a clone, and may spread the nodes around
-- a point: the patch of each node.
pub mod Job
pub mod Places
use Prim.Native.Nat.{◌/◌, ◌%◌}
use meshonator.Base.{
  ℕ, suc, ◌+◌, ◌*◌, ◌-◌, String, Bool, true, false, not, ◌&&◌, ◌||◌, Option, none, some, List, [],
  ◌∷◌, ◌==◌, if◌then◌else◌, nat_eq, string_eq, length, leb,
}
use meshonator.Base.Int.{ℤ, pos, leb_ℤ}
use meshonator.Base.Text.{strip, is_empty}
use meshonator.Json.{
  Value, Items, Fields, bool, int, float, str, arr, obj, null, nil, end, field, get, set, truthy,
  as_int, dict_or_empty, list_or_empty,
}
use meshonator.Json.Merge.{deep_merge_dict}
use meshonator.Channels.{merge_channels_patch}
use meshonator.Channels.Clone.{sanitize_clone_local_config, channels_to_patch}
use meshonator.Db.{Uuid, Real, failed, success, JobModel, ManagedNodeModel, text}
use meshonator.Db.Session.{
  Exn, Result, ok, raised, value_error, exn_text, Exec, pure, gets, or_raise, ◌>>=◌, ◌>>◌, rollback,
  catch,
}
use meshonator.Jobs.{add_result}
use meshonator.Operations.{find_node, apply_patch}
use meshonator.Providers.{Registry}
use meshonator.Queue.{External, flag, or_value, returned, attempt, with_job, job_entry, closing}
use meshonator.Queue.Bulk.{parse_ids}

-- Python's own: iterating over a value that is no list, the exception of using a value that is no
-- dict as one, `float(…)`, and the arithmetic of floats, with `_offset_lat_lon`
pub record Python : Type 0 where
  pub iterated : Value → Result Items
  pub not_a_dict : Value → Exn
  pub float_of : Value → Result Real
  pub times : Real → ℕ → Real
  pub offset_lat_lon : Real → Real → Real → ℕ → Real × Real

abbrev pub real : Real → Value
real r = float r.mantissa r.scale

-- `payload.get(key, {}) or {}`
unfoldable pub or_empty : Option Value → Value
or_empty none = obj end
or_empty (some v) = if truthy v then v else obj end

-- `isinstance(value, (int, float))`
unfoldable pub is_number : Option Value → Bool
is_number (some (int z)) = true
is_number (some (bool b)) = true
is_number (some (float m k)) = true
is_number _ = false

-- the dict under the key of the source's metadata, which is empty where the key is missing
unfoldable pub source_dict : Option Value → Option Fields
source_dict none = some end
source_dict (some (obj d)) = some d
source_dict (some v) = none

unfoldable pub source_list : Option Value → Option Items
source_list none = some nil
source_list (some (arr xs)) = some xs
source_list (some v) = none

-- the place of a node: its ring, from 1, and its slot on the ring
unfoldable pub ring : ℕ → ℕ
ring index = index / 8 + 1

unfoldable pub slot : ℕ → ℕ
slot index = index % 8

-- `_spread_location`: rings of eight places, one step of 45 degrees apart
unfoldable pub spread_location : Python → ℕ → ℕ → Real → Real → Real → Real × Real
spread_location py index total center_lat center_lon step_m =
    if leb total 1 || leb_ℤ step_m.mantissa (pos 0)
    then (center_lat, center_lon)
    else py.offset_lat_lon center_lat center_lon (py.times step_m (ring index)) (45 * slot index)

module _ (py : Python) where
  -- a value that is used as a dict
  abbrev pub as_dict : Value → Result Fields
  as_dict (obj d) = ok d
  as_dict v = raised (py.not_a_dict v)

  abbrev pub iterate : Value → Result Items
  iterate (arr xs) = ok xs
  iterate v = py.iterated v

  -- `base[key] = value`
  abbrev put : String → Value → Value → Result Value
  put key value (obj base) = ok (obj (set key value base))
  put key value base = raised (py.not_a_dict base)

-- what the payload says about the clone
pub record Clone : Type 0 where
  pub fields : Fields
  pub include_role : Bool
  pub include_favorite : Bool

module _ {N : Type 0} (py : Python) where
  -- one of the two configurations of the source, merged under what the patch has there
  abbrev pub clone_dict : String → Bool → Option Fields → (Fields → Fields) → Value → Exec N Value
  clone_dict key false source prepare merged = pure merged
  clone_dict key true none prepare merged = pure merged
  clone_dict key true (some source) prepare merged = do
    base ← returned (as_dict py merged)
    pure
        (obj (set key (obj (deep_merge_dict (prepare source) (dict_or_empty (get key base)))) base))

  abbrev pub clone_channels : Bool → Option Items → Value → Exec N Value
  clone_channels false source merged = pure merged
  clone_channels true none merged = pure merged
  clone_channels true (some channels) merged = do
    base ← returned (as_dict py merged)
    let patch : Items = list_or_empty (get "channels_patch" base)
    pure (
        obj (
          set "channels_patch" (arr (merge_channels_patch (channels_to_patch channels) patch))
            base))

  abbrev pub clone_role : Bool → Option String → Value → Exec N Value
  clone_role include_role none merged = pure merged
  clone_role include_role (some role) merged =
      if include_role && not (is_empty (strip role))
      then returned (put py "role" (str (strip role)) merged)
      else pure merged

  abbrev clone_favorite : Bool → Bool → Value → Exec N Value
  clone_favorite include_favorite favorite merged =
      if include_favorite then returned (put py "favorite" (bool favorite) merged) else pure merged

  -- the patch with what is cloned from the source
  unfoldable pub clone_from : Clone → ManagedNodeModel → Value → Exec N Value
  clone_from clone source base = do
    with_local ←
        clone_dict "local_config_patch" (flag "include_local_config" false clone.fields)
          (source_dict (get "preferences" source.raw_metadata))
          (λ cfg. sanitize_clone_local_config cfg clone.include_role) base
    with_module ←
        clone_dict "module_config_patch" (flag "include_module_config" false clone.fields)
          (source_dict (get "modulePreferences" source.raw_metadata)) (λ cfg. cfg) with_local
    with_channels ←
        clone_channels (flag "include_channels" false clone.fields)
          (source_list (get "channels" source.raw_metadata)) with_module
    with_role ← clone_role clone.include_role source.role with_channels
    clone_favorite clone.include_favorite source.favorite with_role

  module _ (ext : External) where
    -- `clone.get("source_node_id")`, if it is true, names the source
    unfoldable pub cloned : Clone → Value → Exec N Value
    cloned clone base =
        let source_node_id : Value = or_value (get "source_node_id" clone.fields) null in
        if truthy source_node_id
        then (do
          id ← returned (ext.uuid_of source_node_id)
          found ← gets (find_node id)
          source ← or_raise found (value_error "Clone source node not found")
          clone_from clone source base)
        else pure base

-- where the nodes go
pub record Spread : Type 0 where
  pub enabled : Bool
  pub center_lat : Option Value
  pub center_lon : Option Value
  pub center_alt : Option Value
  pub step_m : Real

module _ {N : Type 0} (py : Python) where
  abbrev spread_altitude : Option Value → Value → Exec N Value
  spread_altitude center_alt patch =
      if is_number center_alt
      then (do
        altitude ← returned (py.float_of (or_value center_alt null))
        returned (put py "altitude" (real altitude) patch))
      else pure patch

  -- the patch of the node at the index
  unfoldable pub spread_patch : Spread → ℕ → ℕ → Value → Exec N Value
  spread_patch spread index total base =
      if spread.enabled && is_number spread.center_lat && is_number spread.center_lon
      then (do
        center_lat ← returned (py.float_of (or_value spread.center_lat null))
        center_lon ← returned (py.float_of (or_value spread.center_lon null))
        let place : Real × Real = spread_location py index total center_lat center_lon spread.step_m
        with_lat ← returned (put py "latitude" (real place.0) base)
        with_lon ← returned (put py "longitude" (real place.1) with_lat)
        spread_altitude spread.center_alt with_lon)
      else pure base

  abbrev pub spread_of : Fields → Exec N Spread
  spread_of location = do
    let step : Value = or_value (get "step_m" location) null
    step_m ← returned (py.float_of (if truthy step then step else int (pos 0)))
    pure (record {
      enabled = flag "enabled" false location;
      center_lat = get "center_latitude" location;
      center_lon = get "center_longitude" location;
      center_alt = get "center_altitude" location;
      step_m = step_m;
    })
