-- ===== src/Sync/Keeps.antt =====
-- A sync leaves the job table alone, whatever holds of it.
use meshonator.Base.{◌+◌, refl, Bool, List, [], ◌∷◌, String}
use meshonator.Json.{Fields}
use meshonator.Db.{Uuid, Time, JobModel, ManagedNodeModel, ProviderEndpointModel}
use meshonator.Db.Session.{pure, ◌>>=◌, ◌>>◌, catch, rollback, exn_text}
use meshonator.Db.Session.Keeps.{Keeps, Keeps-bind}
use meshonator.Inventory.{Origin}
use meshonator.Jobs.Keeps.{OnJobs, Keeps-same, Keeps-upsert_nodes, job_rules}
use meshonator.Providers.{Provider, Registry}
use meshonator.Sync.{
  unsynced, add_snapshot, take_snapshot, take_snapshots, fetch_into, sync_endpoint, sync_each,
  sync_all,
}

module _ {N C : Type 0} {Q : List JobModel → Type 0} (registry : Registry N C)
    (hash : Fields → String) (isoformat : Time → String) where
  Keeps-add_snapshot :
      (id : Uuid) (cfg : Fields) → Keeps (OnJobs Q) (add_snapshot registry hash isoformat id cfg)
  Keeps-add_snapshot id cfg =
      Keeps-same (add_snapshot registry hash isoformat id cfg) (λ s. refl) (λ s. refl)

  Keeps-take_snapshot :
      (provider : Provider N C) (conn : C) (id : Uuid) (key : String)
      → Keeps (OnJobs Q) (take_snapshot registry hash isoformat provider conn id key)
  unfolding take_snapshot
  Keeps-take_snapshot provider conn id key = search (job_rules, Keeps-add_snapshot)

  Keeps-take_snapshots :
      (provider : Provider N C) (conn : C) (saved : List ManagedNodeModel)
      → Keeps (OnJobs Q) (take_snapshots registry hash isoformat provider conn saved)
  unfolding take_snapshots
  Keeps-take_snapshots provider conn [] = search job_rules
  Keeps-take_snapshots provider conn (n ∷ saved) =
      Keeps-bind (take_snapshot registry hash isoformat provider conn n.id n.provider_node_id)
        (λ x.
          take_snapshots registry hash isoformat provider conn saved >>= λ count. pure (count + 1))
        (Keeps-take_snapshot provider conn n.id n.provider_node_id)
        (λ x.
          Keeps-bind (take_snapshots registry hash isoformat provider conn saved)
            (λ count. pure (count + 1)) (Keeps-take_snapshots provider conn saved)
            (λ count. search job_rules))

  Keeps-fetch_into :
      (provider : Provider N C) (o : Origin) (quick : Bool) (conn : C)
      → Keeps (OnJobs Q) (fetch_into registry hash isoformat provider o quick conn)
  unfolding fetch_into
  Keeps-fetch_into provider o quick conn =
      search (job_rules, Keeps-upsert_nodes, Keeps-take_snapshots) depth 12

  Keeps-sync_endpoint :
      (id : Uuid) (quick : Bool) → Keeps (OnJobs Q) (sync_endpoint registry hash isoformat id quick)
  unfolding sync_endpoint
  Keeps-sync_endpoint id quick = search (job_rules, Keeps-fetch_into) depth 12

  Keeps-sync_each :
      (quick : Bool) (endpoints : List ProviderEndpointModel)
      → Keeps (OnJobs Q) (sync_each registry hash isoformat quick endpoints)
  unfolding sync_each
  Keeps-sync_each quick [] = search job_rules
  Keeps-sync_each quick (e ∷ endpoints) =
      Keeps-bind
        (catch (sync_endpoint registry hash isoformat e.id quick)
          (λ x. rollback >> pure (unsynced e.endpoint (exn_text x))))
        (λ first. sync_each registry hash isoformat quick endpoints >>= λ rest. pure (first ∷ rest))
        (search (job_rules, Keeps-sync_endpoint))
        (λ first.
          Keeps-bind (sync_each registry hash isoformat quick endpoints)
            (λ rest. pure (first ∷ rest)) (Keeps-sync_each quick endpoints)
            (λ rest. search job_rules))

  pub Keeps-sync_all : (quick : Bool) → Keeps (OnJobs Q) (sync_all registry hash isoformat quick)
  unfolding sync_all
  Keeps-sync_all quick = search (job_rules, Keeps-sync_each) depth 20
