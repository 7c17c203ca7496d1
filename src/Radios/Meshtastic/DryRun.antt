-- ===== src/Radios/Meshtastic/DryRun.antt =====
-- A dry run of a patch through the Meshtastic provider, and the radio that it leaves.
use meshonator.Base.{◌≡◌, refl, ap, String, true, some}
use meshonator.Db.{Time, ManagedNodeModel, NodeEndpointModel}
use meshonator.Db.Session.{Session, Result, ok}
use meshonator.Inventory.{ManagedNode}
use meshonator.Json.{Value}
use meshonator.Operations.{
  find_node, first_endpoint, connection_of, apply_patch, remote_update_requested,
}
use meshonator.Operations.DryRun.{apply_patch_lem}
use meshonator.Providers.{Registry, ConfigPatch}
use meshonator.Radios.Apply.{apply_config_patch, dry_run_answer}
use meshonator.Radios.Connect.{connect, disconnect}
use meshonator.Radios.Info.{Draft}
use meshonator.Radios.Meshtastic.{meshtastic_provider}
use meshonator.Radios.Meshtastic.Answers.{disconnect-ok}
use meshonator.Radios.Settings.{Settings}
use meshonator.Radios.{Process, Library}

module _ {N C : Type 0} (library : Library N C) (settings : Settings) (str_of : Value → String)
    (validate : Draft → Result ManagedNode) (now : N → Time)
    (registry : Registry (Process N) C) where
  -- A dry run on a node that is found with its endpoint and whose provider is the Meshtastic one, for
  -- a patch that goes to the radio, where connecting returns: `apply_patch` returns the provider's
  -- answer, which repeats the patch and says `dry_run`, and all that the world outside sees are the
  -- connecting and the closing.
  pub apply_patch-dry_run_answer :
      (p : ConfigPatch) (actor source : String) (s : Session (Process N)) (d : ManagedNodeModel)
      (e : NodeEndpointModel) (conn : C) (q : Process N)
      → find_node d.id s.db ≡ some d
      → remote_update_requested p ≡ true
      → first_endpoint d.id s.db ≡ some e
      → registry d.provider ≡ some (meshtastic_provider library settings str_of validate now)
      → connect (some library) settings (connection_of e) s.net ≡ (ok conn, q)
      → let run = apply_patch registry d.id p actor source true s in
        (run.0 ≡ ok (dry_run_answer d.provider_node_id p))
        × (run.1.net ≡ (disconnect library (some conn) q).1)
  unfolding apply_config_patch
  apply_patch-dry_run_answer p actor source s d e conn q hd hr he hp hc =
      let run =
        apply_patch_lem registry p true d e
          (meshtastic_provider library settings str_of validate now) conn s q q
          (dry_run_answer d.provider_node_id p) actor source hd hr he hp hc refl
          (disconnect-ok library conn q) in
      (ap (λ o. o.0) run, ap (λ o. o.1.net) run)
