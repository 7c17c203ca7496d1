-- ===== src/Radios/Channels.antt =====
-- providers/meshtastic/provider.py: `_apply_channels_patch`.
use meshonator.Base.{Option, none, some, List, ◌==◌, if◌then◌else◌, string_eq, option_eq, find?}
use meshonator.Base.Int.{ℤ, int_eq}
use meshonator.Base.Text.{strip, upper, is_empty}
use meshonator.Json.{Value, obj, str, Fields, end, field, Items, nil, cons, get, as_int, truthy}
use meshonator.Providers.{Net}
use meshonator.Console.Nested.{or_null}
use meshonator.Radios.{Section, Channel, done, swallow, ◌>>=◌, ◌>>◌}
use meshonator.Radios.Sections.{apply_section_patch}

-- `item.get("moduleSettings") or item.get("module_settings")`
unfoldable pub module_patch_of : Fields → Value
module_patch_of item =
    let first = or_null (get "moduleSettings" item) in
    if truthy first then first else or_null (get "module_settings" item)

module _ {N : Type 0} where
  -- `if isinstance(patch, dict) and hasattr(channel, …)`
  unfoldable pub apply_part : Option (Section N) → Value → Net N (Unit {0})
  apply_part none patch = done tt
  apply_part (some section) (obj patch) = apply_section_patch section patch
  apply_part (some section) patch = done tt

  -- an exception of the enum or of the channel is dropped
  unfoldable pub apply_role : Channel N → Value → Net N (Unit {0})
  apply_role channel (str role_name) =
      if is_empty (strip role_name)
      then done tt
      else swallow (channel.set_role (upper (strip role_name)))
  apply_role channel value = done tt

  unfoldable pub apply_channel : (ℤ → Net N (Unit {0})) → Channel N → ℤ → Fields → Net N (Unit {0})
  apply_channel write_channel channel index item = do
    apply_part channel.settings (or_null (get "settings" item))
    apply_part channel.module_settings (module_patch_of item)
    apply_role channel (or_null (get "role" item))
    write_channel index

  unfoldable pub channel_at : ℤ → List (Channel N) → Option (Channel N)
  channel_at index channels = find? (λ c. c.index == some index) channels

  -- the channel that an item names, if both are there
  abbrev pub named_channel : List (Channel N) → Option Value → Option (Channel N × ℤ × Value)
  named_channel channels none = none
  named_channel channels (some value) = elim (as_int value) [
    | none ↦ none
    | some index ↦ elim (channel_at index channels) [
      | none ↦ none
      | some channel ↦ some (channel, index, value)
    ]
  ]

  unfoldable pub apply_channels_patch :
      (ℤ → Net N (Unit {0})) → List (Channel N) → Items → Net N Items
  apply_channels_patch write_channel channels nil = done nil
  apply_channels_patch write_channel channels (cons (obj item) channels_patch) =
      elim (named_channel channels (get "index" item)) [
        | none ↦ apply_channels_patch write_channel channels channels_patch
        | some (channel, index, value) ↦ (do
          apply_channel write_channel channel index item
          applied ← apply_channels_patch write_channel channels channels_patch
          done (cons (obj (field "index" value end)) applied))
      ]
  apply_channels_patch write_channel channels (cons value channels_patch) =
      apply_channels_patch write_channel channels channels_patch
