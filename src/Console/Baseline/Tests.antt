-- ===== src/Console/Baseline/Tests.antt =====
-- Runs of the console's patches for a fleet and of its candidates, and the theorems at these inputs.
use meshonator.Base.{◌≡◌, refl, String, Bool, List, ◌==◌, if◌then◌else◌, string_eq, All, count_by}
use meshonator.Base.Int.{ℤ, pos}
use meshonator.Base.Sort.{OrderedBy}
use meshonator.Base.Text.{strip, is_empty}
use meshonator.Console.Baseline.Forms.{BaselineForm, DefaultForm, build_fleet_baseline_patch}
use meshonator.Console.Baseline.Shape.{build_fleet_baseline_patch_zero}
use meshonator.Console.Forms.{parse_optional}
use meshonator.Console.Hops.{Candidate, name_of, candidates_of, extract_zero_hop_candidates}
use meshonator.Base.Member.{In}
use meshonator.Console.Hops.{candidate}
use meshonator.Console.Hops.Heard.{Found, Heard}
use meshonator.Console.Hops.Sorted.{TextName, Nearer, Within, extract_zero_hop_candidates_lem}
use meshonator.Console.Nested.{or_null}
use meshonator.Db.Session.{Result, ok, raised, value_error}
use meshonator.Json.{int, str, obj, Fields, end, field, get, truthy, as_int, dict_or_empty}

abbrev zero_form : BaselineForm
zero_form = record {
  primary_position_precision = "";
  primary_uplink_enabled = "";
  primary_downlink_enabled = "";
  lora_hop_limit = "0";
  lora_tx_power = "0";
  lora_modem_preset = "";
  lora_region = "";
  telemetry_device_update_interval = "";
  telemetry_environment_update_interval = "";
  telemetry_air_quality_interval = "";
  telemetry_power_update_interval = "";
  telemetry_health_update_interval = "";
  telemetry_device_enabled = "";
  telemetry_environment_enabled = "";
  telemetry_air_quality_enabled = "";
  telemetry_power_enabled = "";
  telemetry_health_enabled = "";
  mqtt_address = "";
  mqtt_username = "";
  mqtt_password = "";
  mqtt_root = "";
  mqtt_enabled = "yes";
  mqtt_encryption_enabled = "";
  mqtt_json_enabled = "";
  mqtt_map_reporting_enabled = "";
  mqtt_proxy_to_client_enabled = "";
  mqtt_tls_enabled = "";
  network_rsyslog_server = "";
  network_enabled_protocols = "";
}

abbrev default_form : DefaultForm
default_form = record {
  mqtt_address = "";
  mqtt_username = "";
  mqtt_password = "";
  mqtt_root = "";
  mqtt_enabled = "";
  mqtt_encryption_enabled = "";
  mqtt_json_enabled = "";
  mqtt_map_reporting_enabled = "";
  primary_uplink_enabled = "";
  primary_downlink_enabled = "";
  lora_hop_limit = "0";
  lora_tx_power = "";
  lora_modem_preset = "";
  lora_region = "eu_868";
  lora_tx_enabled = "";
  lora_use_preset = "";
  lora_config_ok_to_mqtt = "";
  network_rsyslog_server = "";
  network_ntp_server = "";
  telemetry_device_update_interval = "";
  position_broadcast_smart_minimum_distance = "";
  position_broadcast_smart_minimum_interval_secs = "";
  position_fixed_position = "";
  position_gps_mode = "";
  position_gps_update_interval = "";
  position_broadcast_secs = "";
  position_broadcast_smart_enabled = "";
  position_flags = "";
}

abbrev int_of_zero : String → Result ℤ
int_of_zero raw = if raw == "0" then ok (pos 0) else raised (value_error "invalid literal")

build_fleet_baseline_patch_zero_example :
    build_fleet_baseline_patch int_of_zero zero_form
    ≡ build_fleet_baseline_patch int_of_zero
        (record zero_form { lora_hop_limit = ""; lora_tx_power = "" })
unfolding parse_optional strip is_empty string_eq
build_fleet_baseline_patch_zero_example =
    build_fleet_baseline_patch_zero int_of_zero zero_form refl refl

abbrev heard_nodes : Fields
heard_nodes =
    field "!2"
      (obj (
        field "hopsAway" (int (pos 2))
          (field "user" (obj (field "shortName" (str "far") end)) end)))
      (field "!3"
        (obj (
          field "hopsAway" (int (pos 0))
            (field "user" (obj (field "shortName" (str "near") end)) end)))
        (field "!4" (obj (field "hopsAway" (int (pos 9)) end)) end))

heard_names : All TextName (
    candidates_of
      (pos 3)
      (dict_or_empty (get "nodesInMesh" (field "nodesInMesh" (obj heard_nodes) end))))
unfolding candidates_of name_of get string_eq dict_or_empty truthy is_empty as_int or_null
heard_names = (("far", refl), (("near", refl), tt))

extract_zero_hop_candidates_lem_example :
    (out : List Candidate) × (extract_zero_hop_candidates
        (field "nodesInMesh" (obj heard_nodes) end)
        (pos 3)
      ≡ ok out)
    × OrderedBy Nearer out
    × All (Within (pos 3)) out
    × ((p : Candidate → Bool) → count_by p out ≡ count_by p (candidates_of (pos 3) heard_nodes))
    × ((node_id : String) (payload : Fields) (z : ℤ)
        → Heard (pos 3) heard_nodes node_id payload z
        → In (candidate node_id payload z) out × ((candidate node_id payload z).hops_away ≡ z))
    × ((c : Candidate) → In c out → Found (pos 3) heard_nodes c)
unfolding get string_eq dict_or_empty
extract_zero_hop_candidates_lem_example =
    extract_zero_hop_candidates_lem (field "nodesInMesh" (obj heard_nodes) end) (pos 3) heard_names
