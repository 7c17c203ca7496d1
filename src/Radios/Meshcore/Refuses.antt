-- ===== src/Radios/Meshcore/Refuses.antt =====
-- A patch of a node whose provider is the MeshCore one.
use meshonator.Base.{◌≡◌, refl, String, Bool, true, none, some, List, [], ◌∷◌}
use meshonator.Db.{ManagedNodeModel, NodeEndpointModel}
use meshonator.Db.Session.{Session, Result, ok, raised, provider_error}
use meshonator.Inventory.{ManagedNode}
use meshonator.Json.{Value}
use meshonator.Operations.{
  find_node, first_endpoint, connection_of, apply_patch, remote_update_requested,
}
use meshonator.Operations.DryRun.{apply_patch-raised}
use meshonator.Providers.{Registry, ConfigPatch}
use meshonator.Radios.Meshcore.{
  CoreLibrary, CoreDraft, core_connect, core_disconnect, close_by, meshcore_provider,
  config_write_error,
}
use meshonator.Radios.{Process, outside, Net, swallow}

module _ {N C : Type 0} (library : CoreLibrary N C) where
  close_by-ok : (names : List String) (conn : C) (n : N) → (close_by library names conn n).0 ≡ ok tt
  unfolding close_by
  close_by-ok [] conn n = refl
  close_by-ok (name ∷ names) conn n =
      elim (library.method conn name)
        as (λ o.
          (elim o as (λ x. Net N (Unit {0})) [
            | none ↦ close_by library names conn
            | some close ↦ swallow close
          ]
            n).0
          ≡ ok tt) [ none ↦ close_by-ok names conn n | some close ↦ refl ]

  core_disconnect-ok :
      (conn : C) (p : Process N) → (outside (core_disconnect library (some conn)) p).0 ≡ ok tt
  unfolding core_disconnect
  core_disconnect-ok conn p = close_by-ok ("close" ∷ "disconnect" ∷ "stop" ∷ []) conn p.net

  -- On a node that is found with its endpoint and whose provider is the MeshCore one, for a patch
  -- that goes to the radio, where the client is made: `apply_patch`, a dry run or not, raises the
  -- ProviderError that says that writing is unsupported, once the connection is closed, and leaves
  -- the session's objects and the database as they were.
  pub apply_patch-meshcore_provider :
      (str_of : Value → String) (repr : String → String) (validate : CoreDraft → Result ManagedNode)
      (registry : Registry (Process N) C) (p : ConfigPatch) (actor source : String) (dry_run : Bool)
      (s : Session (Process N)) (d : ManagedNodeModel) (e : NodeEndpointModel) (conn : C)
      (q : Process N)
      → find_node d.id s.db ≡ some d
      → remote_update_requested p ≡ true
      → first_endpoint d.id s.db ≡ some e
      → registry d.provider ≡ some (meshcore_provider library str_of repr validate)
      → outside (core_connect (some library) (connection_of e)) s.net ≡ (ok conn, q)
      → apply_patch registry d.id p actor source dry_run s ≡ (
        raised (provider_error config_write_error),
        record s { net = (outside (core_disconnect library (some conn)) q).1 },
      )
  apply_patch-meshcore_provider str_of repr validate registry p actor source dry_run s d e conn q hd
        hr he hp hc =
      apply_patch-raised registry p dry_run d e (meshcore_provider library str_of repr validate)
        conn s q q (provider_error config_write_error) actor source hd hr he hp hc refl
        (core_disconnect-ok conn q)
