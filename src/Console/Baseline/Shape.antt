-- ===== src/Console/Baseline/Shape.antt =====
-- The shape of the patches for a fleet, and the zeros that one of them drops.
use meshonator.Base.{◌≡◌, refl, String, Bool, Option, none, some, All, string_eq}
use meshonator.Base.Int.{ℤ, pos, int_eq}
use meshonator.Base.Text.{strip, is_empty}
use meshonator.Console.Baseline.{Input, whole, positive, text, capital, switch, entered, fill}
use meshonator.Console.Baseline.Forms.{
  BaselineForm, DefaultForm, baseline_lora, baseline_network, baseline_telemetry, baseline_mqtt,
  baseline_module, baseline_settings, default_mqtt, default_settings, default_lora, default_network,
  default_telemetry, default_position, build_fleet_baseline_patch,
}
use meshonator.Console.Baseline.Flat.{Flat}
use meshonator.Console.Forms.{parse_optional, parse_optional_bool}
use meshonator.Db.Session.{Result, ok}
use meshonator.Json.{end}

-- a number, a text or a flag that can be read from what was entered
module _ (int_of : String → Result ℤ) where
  abbrev Readable : Input → Type 0
  Readable (whole key raw) = (o : Option ℤ) × (parse_optional int_of raw ≡ ok o)
  Readable (positive key raw) = (o : Option ℤ) × (parse_optional int_of raw ≡ ok o)
  Readable (text key raw) = Unit
  Readable (capital key raw) = Unit
  Readable (switch key raw) = (o : Option Bool) × (parse_optional_bool raw ≡ ok o)

  -- every field of the form can be read
  abbrev pub BaselineReadable : BaselineForm → Type 0
  BaselineReadable f =
      All Readable (baseline_lora f)
      × All Readable (baseline_network f)
      × All Readable (baseline_telemetry f)
      × All Readable (baseline_mqtt f)
      × All Readable (baseline_module f)
      × All Readable (baseline_settings f)

  abbrev pub DefaultReadable : DefaultForm → Type 0
  DefaultReadable f =
      All Readable (default_mqtt f)
      × All Readable (default_settings f)
      × All Readable (default_lora f)
      × All Readable (default_network f)
      × All Readable (default_telemetry f)
      × All Readable (default_position f)

  zero_entered :
      (key raw : String)
      → parse_optional int_of raw ≡ ok (some (pos 0))
      → entered int_of (positive key raw) ≡ ok none
  unfolding entered int_eq
  zero_entered key raw h = rw h refl

  blank_entered : (key : String) → entered int_of (positive key "") ≡ ok none
  unfolding entered parse_optional strip is_empty
  blank_entered key = refl

  lora_zero :
      (f : BaselineForm)
      → parse_optional int_of f.lora_hop_limit ≡ ok (some (pos 0))
      → parse_optional int_of f.lora_tx_power ≡ ok (some (pos 0))
      → fill int_of (baseline_lora f) end
        ≡ fill int_of (baseline_lora (record f { lora_hop_limit = ""; lora_tx_power = "" })) end
  unfolding baseline_lora fill
  lora_zero f h t =
      rw
        (
          zero_entered "hopLimit" f.lora_hop_limit h,
          zero_entered "txPower" f.lora_tx_power t,
          blank_entered "hopLimit",
          blank_entered "txPower",
        )
        refl

  -- A form with zero for the hop limit and for the transmit power gives the same baseline as the form
  -- with these two fields blank.
  pub build_fleet_baseline_patch_zero :
      (f : BaselineForm)
      → parse_optional int_of f.lora_hop_limit ≡ ok (some (pos 0))
      → parse_optional int_of f.lora_tx_power ≡ ok (some (pos 0))
      → build_fleet_baseline_patch int_of f
        ≡ build_fleet_baseline_patch int_of (record f { lora_hop_limit = ""; lora_tx_power = "" })
  unfolding build_fleet_baseline_patch baseline_network baseline_telemetry baseline_mqtt
      baseline_module baseline_settings
  build_fleet_baseline_patch_zero f h t = rw (lora_zero f h t) refl
