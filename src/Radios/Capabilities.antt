-- ===== src/Radios/Capabilities.antt =====
-- domain/models.py: `NodeCapability`, `ProviderOperationSupport`, `OperationMatrix` and
-- `ProviderHealth`; and what the two providers say of themselves with them.
use meshonator.Base.{String, Bool, true, false, if◌then◌else◌}

pub record NodeCapability : Type 0 where
  pub can_discover_over_tcp : Bool
  pub can_remote_read_config : Bool
  pub can_remote_write_config : Bool
  pub can_batch_write : Bool
  pub has_location : Bool
  pub has_neighbors : Bool
  pub has_firmware_info : Bool
  pub has_favorites : Bool
  pub has_channels : Bool

pub data ProviderOperationSupport : Type 0 where
  native cli_fallback unsupported : ProviderOperationSupport

pub record OperationMatrix : Type 0 where
  pub rename_node : ProviderOperationSupport
  pub update_location : ProviderOperationSupport
  pub update_role : ProviderOperationSupport
  pub favorite_toggle : ProviderOperationSupport
  pub read_config : ProviderOperationSupport
  pub write_config : ProviderOperationSupport
  pub batch_write : ProviderOperationSupport

pub record ProviderHealth : Type 0 where
  pub provider : String
  pub status : String
  pub python_library : String

unfoldable meshtastic_capabilities : NodeCapability
meshtastic_capabilities = record {
  can_discover_over_tcp = true;
  can_remote_read_config = true;
  can_remote_write_config = true;
  can_batch_write = true;
  has_location = true;
  has_neighbors = true;
  has_firmware_info = true;
  has_favorites = true;
  has_channels = true;
}

unfoldable meshtastic_operation_matrix : OperationMatrix
meshtastic_operation_matrix = record {
  rename_node = native;
  update_location = native;
  update_role = cli_fallback;
  favorite_toggle = native;
  read_config = native;
  write_config = native;
  batch_write = native;
}

unfoldable meshcore_capabilities : NodeCapability
meshcore_capabilities = record {
  can_discover_over_tcp = true;
  can_remote_read_config = false;
  can_remote_write_config = false;
  can_batch_write = false;
  has_location = true;
  has_neighbors = false;
  has_firmware_info = true;
  has_favorites = false;
  has_channels = false;
}

unfoldable meshcore_operation_matrix : OperationMatrix
meshcore_operation_matrix = record {
  rename_node = unsupported;
  update_location = unsupported;
  update_role = unsupported;
  favorite_toggle = unsupported;
  read_config = unsupported;
  write_config = unsupported;
  batch_write = unsupported;
}

-- `ready`: the Python library of the provider is installed
unfoldable meshtastic_health : Bool → ProviderHealth
meshtastic_health ready = record {
  provider = "meshtastic";
  status = if ready then "ok" else "degraded";
  python_library = if ready then "installed" else "missing";
}

unfoldable meshcore_health : Bool → ProviderHealth
meshcore_health ready = record {
  provider = "meshcore";
  status = "experimental";
  python_library = if ready then "installed" else "missing";
}
