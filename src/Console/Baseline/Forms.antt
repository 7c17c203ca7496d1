-- ===== src/Console/Baseline/Forms.antt =====
-- api/app.py: the arguments of `_build_fleet_baseline_patch` and of
-- `_build_meshtastic_default_settings_patch`, and the fields that they walk.
use meshonator.Base.{String, List, [], ◌∷◌}
use meshonator.Base.Int.{ℤ}
use meshonator.Console.Baseline.{
  Input, whole, positive, text, capital, switch, FleetPatch, with_result, fill, put_section,
  primary_row,
}
use meshonator.Db.Session.{Result, ok}
use meshonator.Json.{end}

-- the arguments of `_build_fleet_baseline_patch`
pub record BaselineForm : Type 0 where
  pub primary_position_precision : String
  pub primary_uplink_enabled : String
  pub primary_downlink_enabled : String
  pub lora_hop_limit : String
  pub lora_tx_power : String
  pub lora_modem_preset : String
  pub lora_region : String
  pub telemetry_device_update_interval : String
  pub telemetry_environment_update_interval : String
  pub telemetry_air_quality_interval : String
  pub telemetry_power_update_interval : String
  pub telemetry_health_update_interval : String
  pub telemetry_device_enabled : String
  pub telemetry_environment_enabled : String
  pub telemetry_air_quality_enabled : String
  pub telemetry_power_enabled : String
  pub telemetry_health_enabled : String
  pub mqtt_address : String
  pub mqtt_username : String
  pub mqtt_password : String
  pub mqtt_root : String
  pub mqtt_enabled : String
  pub mqtt_encryption_enabled : String
  pub mqtt_json_enabled : String
  pub mqtt_map_reporting_enabled : String
  pub mqtt_proxy_to_client_enabled : String
  pub mqtt_tls_enabled : String
  pub network_rsyslog_server : String
  pub network_enabled_protocols : String

-- the arguments of `_build_meshtastic_default_settings_patch`
pub record DefaultForm : Type 0 where
  pub mqtt_address : String
  pub mqtt_username : String
  pub mqtt_password : String
  pub mqtt_root : String
  pub mqtt_enabled : String
  pub mqtt_encryption_enabled : String
  pub mqtt_json_enabled : String
  pub mqtt_map_reporting_enabled : String
  pub primary_uplink_enabled : String
  pub primary_downlink_enabled : String
  pub lora_hop_limit : String
  pub lora_tx_power : String
  pub lora_modem_preset : String
  pub lora_region : String
  pub lora_tx_enabled : String
  pub lora_use_preset : String
  pub lora_config_ok_to_mqtt : String
  pub network_rsyslog_server : String
  pub network_ntp_server : String
  pub telemetry_device_update_interval : String
  pub position_broadcast_smart_minimum_distance : String
  pub position_broadcast_smart_minimum_interval_secs : String
  pub position_fixed_position : String
  pub position_gps_mode : String
  pub position_gps_update_interval : String
  pub position_broadcast_secs : String
  pub position_broadcast_smart_enabled : String
  pub position_flags : String

-- the fields that the functions walk, in the order of the source
module _ (f : BaselineForm) where
  unfoldable pub baseline_lora : List Input
  baseline_lora =
      positive "hopLimit" f.lora_hop_limit
      ∷ positive "txPower" f.lora_tx_power
      ∷ text "modemPreset" f.lora_modem_preset
      ∷ text "region" f.lora_region
      ∷ []

  unfoldable pub baseline_network : List Input
  baseline_network =
      text "rsyslogServer" f.network_rsyslog_server
      ∷ whole "enabledProtocols" f.network_enabled_protocols
      ∷ []

  unfoldable pub baseline_telemetry : List Input
  baseline_telemetry =
      whole "deviceUpdateInterval" f.telemetry_device_update_interval
      ∷ whole "environmentUpdateInterval" f.telemetry_environment_update_interval
      ∷ whole "airQualityInterval" f.telemetry_air_quality_interval
      ∷ whole "powerUpdateInterval" f.telemetry_power_update_interval
      ∷ whole "healthUpdateInterval" f.telemetry_health_update_interval
      ∷ switch "deviceTelemetryEnabled" f.telemetry_device_enabled
      ∷ switch "environmentMeasurementEnabled" f.telemetry_environment_enabled
      ∷ switch "airQualityEnabled" f.telemetry_air_quality_enabled
      ∷ switch "powerMeasurementEnabled" f.telemetry_power_enabled
      ∷ switch "healthMeasurementEnabled" f.telemetry_health_enabled
      ∷ []

  unfoldable pub baseline_mqtt : List Input
  baseline_mqtt =
      text "address" f.mqtt_address
      ∷ text "username" f.mqtt_username
      ∷ text "password" f.mqtt_password
      ∷ text "root" f.mqtt_root
      ∷ switch "enabled" f.mqtt_enabled
      ∷ switch "encryptionEnabled" f.mqtt_encryption_enabled
      ∷ switch "jsonEnabled" f.mqtt_json_enabled
      ∷ switch "mapReportingEnabled" f.mqtt_map_reporting_enabled
      ∷ switch "proxyToClientEnabled" f.mqtt_proxy_to_client_enabled
      ∷ switch "tlsEnabled" f.mqtt_tls_enabled
      ∷ []

  unfoldable pub baseline_module : List Input
  baseline_module = whole "positionPrecision" f.primary_position_precision ∷ []

  unfoldable pub baseline_settings : List Input
  baseline_settings =
      switch "uplinkEnabled" f.primary_uplink_enabled
      ∷ switch "downlinkEnabled" f.primary_downlink_enabled
      ∷ []

module _ (f : DefaultForm) where
  unfoldable pub default_mqtt : List Input
  default_mqtt =
      text "address" f.mqtt_address
      ∷ text "username" f.mqtt_username
      ∷ text "password" f.mqtt_password
      ∷ text "root" f.mqtt_root
      ∷ switch "enabled" f.mqtt_enabled
      ∷ switch "encryptionEnabled" f.mqtt_encryption_enabled
      ∷ switch "jsonEnabled" f.mqtt_json_enabled
      ∷ switch "mapReportingEnabled" f.mqtt_map_reporting_enabled
      ∷ []

  unfoldable pub default_settings : List Input
  default_settings =
      switch "uplinkEnabled" f.primary_uplink_enabled
      ∷ switch "downlinkEnabled" f.primary_downlink_enabled
      ∷ []

  unfoldable pub default_lora : List Input
  default_lora =
      whole "hopLimit" f.lora_hop_limit
      ∷ whole "txPower" f.lora_tx_power
      ∷ capital "modemPreset" f.lora_modem_preset
      ∷ capital "region" f.lora_region
      ∷ switch "txEnabled" f.lora_tx_enabled
      ∷ switch "usePreset" f.lora_use_preset
      ∷ switch "configOkToMqtt" f.lora_config_ok_to_mqtt
      ∷ []

  unfoldable pub default_network : List Input
  default_network =
      text "rsyslogServer" f.network_rsyslog_server ∷ text "ntpServer" f.network_ntp_server ∷ []

  unfoldable pub default_telemetry : List Input
  default_telemetry = whole "deviceUpdateInterval" f.telemetry_device_update_interval ∷ []

  unfoldable pub default_position : List Input
  default_position =
      whole "broadcastSmartMinimumDistance" f.position_broadcast_smart_minimum_distance
      ∷ whole "broadcastSmartMinimumIntervalSecs" f.position_broadcast_smart_minimum_interval_secs
      ∷ switch "fixedPosition" f.position_fixed_position
      ∷ capital "gpsMode" f.position_gps_mode
      ∷ whole "gpsUpdateInterval" f.position_gps_update_interval
      ∷ whole "positionBroadcastSecs" f.position_broadcast_secs
      ∷ switch "positionBroadcastSmartEnabled" f.position_broadcast_smart_enabled
      ∷ whole "positionFlags" f.position_flags
      ∷ []

module _ (int_of : String → Result ℤ) where
  unfoldable pub build_fleet_baseline_patch : BaselineForm → Result FleetPatch
  build_fleet_baseline_patch f = with_result (fill int_of (baseline_lora f) end) λ lora.
      with_result (fill int_of (baseline_network f) end) λ network.
        with_result (fill int_of (baseline_telemetry f) end) λ telemetry.
          with_result (fill int_of (baseline_mqtt f) end) λ mqtt.
            with_result (fill int_of (baseline_module f) end) λ module_settings.
              with_result (fill int_of (baseline_settings f) end) λ settings. ok (record {
                local_patch = put_section "network" network (put_section "lora" lora end);
                module_patch = put_section "mqtt" mqtt (put_section "telemetry" telemetry end);
                channels_patch = primary_row settings module_settings;
              })

  unfoldable pub build_meshtastic_default_settings_patch : DefaultForm → Result FleetPatch
  build_meshtastic_default_settings_patch f = with_result (fill int_of (default_mqtt f) end) λ mqtt.
      with_result (fill int_of (default_settings f) end) λ settings.
        with_result (fill int_of (default_lora f) end) λ lora.
          with_result (fill int_of (default_network f) end) λ network.
            with_result (fill int_of (default_telemetry f) end) λ telemetry.
              with_result (fill int_of (default_position f) end) λ position. ok (record {
                local_patch =
                    put_section "position" position
                      (put_section "network" network (put_section "lora" lora end));
                module_patch = put_section "telemetry" telemetry (put_section "mqtt" mqtt end);
                channels_patch = primary_row settings end;
              })
