-- ===== src/Console/Labels.antt =====
-- api/app.py: `_humanize_patch_path`, the names that the console has for the fields of a patch. What
-- is done to other paths (`_humanize_identifier` of the path without its prefix) is a parameter.
use meshonator.Base.{String, List, [], ◌∷◌, ◌==◌, if◌then◌else◌, string_eq}

-- the table `labels`
abbrev labels : List (String × String)
labels =
    ("favorite", "Pin state")
    ∷ ("role", "Role override")
    ∷ ("local_config_patch.device.role", "Node role")
    ∷ ("local_config_patch.lora.hopLimit", "LoRa hop limit")
    ∷ ("local_config_patch.lora.txPower", "LoRa TX power")
    ∷ ("local_config_patch.lora.region", "LoRa region")
    ∷ ("local_config_patch.lora.modemPreset", "LoRa modem preset")
    ∷ ("local_config_patch.network.rsyslogServer", "Syslog server")
    ∷ ("local_config_patch.network.enabledProtocols", "Enabled protocols")
    ∷ ("local_config_patch.position.positionBroadcastSecs", "Position broadcast interval")
    ∷ ("local_config_patch.position.positionBroadcastSmartEnabled", "Smart position broadcast")
    ∷ (
      "local_config_patch.position.broadcastSmartMinimumDistance",
      "Smart broadcast minimum distance",
    )
    ∷ (
      "local_config_patch.position.broadcastSmartMinimumIntervalSecs",
      "Smart broadcast minimum interval",
    )
    ∷ ("local_config_patch.position.gpsMode", "GPS mode")
    ∷ ("local_config_patch.position.gpsUpdateInterval", "GPS update interval")
    ∷ ("local_config_patch.position.fixedPosition", "Fixed position")
    ∷ ("local_config_patch.position.positionFlags", "Position flags")
    ∷ ("module_config_patch.mqtt.address", "MQTT server")
    ∷ ("module_config_patch.mqtt.username", "MQTT username")
    ∷ ("module_config_patch.mqtt.password", "MQTT password")
    ∷ ("module_config_patch.mqtt.root", "MQTT topic root")
    ∷ ("module_config_patch.mqtt.enabled", "MQTT enabled")
    ∷ ("module_config_patch.mqtt.encryptionEnabled", "MQTT encryption")
    ∷ ("module_config_patch.mqtt.jsonEnabled", "MQTT JSON output")
    ∷ ("module_config_patch.mqtt.mapReportingEnabled", "MQTT map reporting")
    ∷ ("module_config_patch.mqtt.proxyToClientEnabled", "MQTT proxy to client")
    ∷ ("module_config_patch.mqtt.tlsEnabled", "MQTT TLS")
    ∷ ("module_config_patch.telemetry.deviceUpdateInterval", "Telemetry device interval")
    ∷ ("module_config_patch.telemetry.environmentUpdateInterval", "Telemetry environment interval")
    ∷ ("module_config_patch.telemetry.airQualityInterval", "Telemetry air quality interval")
    ∷ ("module_config_patch.telemetry.powerUpdateInterval", "Telemetry power interval")
    ∷ ("module_config_patch.telemetry.healthUpdateInterval", "Telemetry health interval")
    ∷ ("module_config_patch.telemetry.deviceTelemetryEnabled", "Device telemetry")
    ∷ ("module_config_patch.telemetry.environmentTelemetryEnabled", "Environment telemetry")
    ∷ ("module_config_patch.telemetry.airQualityEnabled", "Air quality telemetry")
    ∷ ("module_config_patch.telemetry.powerTelemetryEnabled", "Power telemetry")
    ∷ ("module_config_patch.telemetry.healthTelemetryEnabled", "Health telemetry")
    ∷ ("channels_patch", "Channel settings")
    ∷ ("channels_patch.0.settings.uplinkEnabled", "Primary channel uplink")
    ∷ ("channels_patch.0.settings.downlinkEnabled", "Primary channel downlink")
    ∷ ("channels_patch.0.moduleSettings.positionPrecision", "Primary channel position precision")
    ∷ []

-- the label of the path in a table, or else the other text
unfoldable pub label_or : String → List (String × String) → String → String
label_or path [] other = other
label_or path ((known, label) ∷ rows) other =
    if path == known then label else label_or path rows other

unfoldable pub humanize_patch_path : (String → String) → String → String
humanize_patch_path humanize_rest path = label_or path labels (humanize_rest path)
