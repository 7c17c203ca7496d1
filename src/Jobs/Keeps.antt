-- ===== src/Jobs/Keeps.antt =====
-- The parts of the program that leave the job table alone, whatever holds of it: what the services
-- call while a job runs.
use mathlib.Core.Path.{subst}
use meshonator.Base.{
  arith, ◌≡◌, ◌∙◌, refl, sym, Bool, true, false, Option, none, some, List, [], ◌∷◌, if◌then◌else◌,
  String, ℕ,
}
use meshonator.Json.{Fields}
use meshonator.Audit.{Entry, log}
use meshonator.Db.{Uuid, Time, Status, Message, JobModel, ManagedNodeModel, NodeEndpointModel, Db}
use meshonator.Db.Session.{Result, ok, raised, Session, Exec, pure, ◌>>=◌, modify}
use meshonator.Db.Session.Keeps.{Both, Keeps, Keeps-bind, keeps_rules}
use meshonator.Inventory.{
  ManagedNode, Origin, Unflushed, node_row, touch_endpoint, upsert_one, upsert_each, upsert_nodes,
}
use meshonator.Inventory.Stale.{stale_mark}
use meshonator.Jobs.{add_result}
use meshonator.Operations.{apply_patch, apply_local, apply_remote, apply_connected}
use meshonator.Operations.Configs.{save_config_snapshot}
use meshonator.Operations.NodeDb.{mutate_node_db, mutate_each, mutate_one}
use meshonator.Providers.{
  Provider, ProviderConnection, ConfigPatch, Registry, Net, call, connected, used,
}

-- `Q` holds of the job table
pub record OnJobs (Q : List JobModel → Type 0) (db : Db) : Type 0 where
  pub holds : Q db.jobs

module _ {N A : Type 0} {Q : List JobModel → Type 0} (m : Exec N A) where
  -- an action that leaves both job tables as they were
  pub Keeps-same :
      ((s : Session N) → (m s).1.db.jobs ≡ s.db.jobs)
      → ((s : Session N) → (m s).1.committed.jobs ≡ s.committed.jobs)
      → Keeps (OnJobs Q) m
  Keeps-same e f = record {
    at = λ s h. (
      record { holds = subst Q (sym (e s)) h.0.holds },
      record { holds = subst Q (sym (f s)) h.1.holds },
    );
  }

  -- one that leaves the job table as it was, and commits
  Keeps-saved :
      ((s : Session N) → (m s).1.db.jobs ≡ s.db.jobs)
      → ((s : Session N) → (m s).1.committed.jobs ≡ s.db.jobs)
      → Keeps (OnJobs Q) m
  Keeps-saved e f = record {
    at = λ s h. (
      record { holds = subst Q (sym (e s)) h.0.holds },
      record { holds = subst Q (sym (f s)) h.0.holds },
    );
  }

module _ {N : Type 0} {Q : List JobModel → Type 0} where
  pub Keeps-call : {A : Type 0} (m : Net N A) → Keeps (OnJobs Q) (call m)
  Keeps-call m = Keeps-same (call m) (λ s. refl) (λ s. refl)

  pub Keeps-modify :
      (f : Db → Db) → ((db : Db) → (f db).jobs ≡ db.jobs) → Keeps {N = N} (OnJobs Q) (modify f)
  Keeps-modify f e = Keeps-same (modify f) (λ s. e s.db) (λ s. refl)

  pub Keeps-log : (e : Entry) → Keeps {N = N} (OnJobs Q) (log e)
  unfolding log
  Keeps-log e = Keeps-saved (log e) (λ s. refl) (λ s. refl)

  pub Keeps-add_result :
      (id : Uuid) (status : Status) (target : Option Uuid) (m : Message) (d : Fields)
      → Keeps {N = N} (OnJobs Q) (add_result id status target m d)
  unfolding add_result
  Keeps-add_result id status target m d =
      Keeps-saved (add_result id status target m d) (λ s. refl) (λ s. refl)

  pub Keeps-stale_mark : (m : ℕ) → Keeps {N = N} (OnJobs Q) (stale_mark m)
  unfolding stale_mark
  Keeps-stale_mark m = Keeps-saved (stale_mark m) (λ s. refl) (λ s. refl)

  pub Keeps-save_config_snapshot :
      (hash : Fields → String) (id : Uuid) (t : String) (cfg : Fields)
      → Keeps {N = N} (OnJobs Q) (save_config_snapshot hash id t cfg)
  unfolding save_config_snapshot
  Keeps-save_config_snapshot hash id t cfg =
      Keeps-saved (save_config_snapshot hash id t cfg) (λ s. refl) (λ s. refl)

  module _ {C A : Type 0} (provider : Provider N C) where
    step-used :
        (body : C → Exec N A)
        → ((conn : C) → Keeps (OnJobs Q) (body conn))
        → (r : Result C) (s : Session N) → Both (OnJobs Q) s
        → Both (OnJobs Q) (used provider body (r, s)).1
    step-used body kb (ok conn) s h = (kb conn).at s h
    step-used body kb (raised e) s h = h

    pub Keeps-connected :
        (endpoint : ProviderConnection) (body : C → Exec N A)
        → ((conn : C) → Keeps (OnJobs Q) (body conn))
        → Keeps (OnJobs Q) (connected provider endpoint body)
    unfolding connected
    Keeps-connected endpoint body kb = record {
      at = λ s h.
          step-used body kb (call (provider.connect endpoint) s).0
            (call (provider.connect endpoint) s).1 h;
    }

pub ruleset job_rules = (
  keeps_rules, refl, Keeps-modify, Keeps-call, Keeps-log, Keeps-add_result, Keeps-stale_mark,
  Keeps-save_config_snapshot, Keeps-connected,
)

module _ {N C : Type 0} {Q : List JobModel → Type 0} (registry : Registry N C) where
  Keeps-apply_local :
      (p : ConfigPatch) (dry_run : Bool) (n : ManagedNodeModel)
      → Keeps (OnJobs Q) (apply_local registry p dry_run n)
  unfolding apply_local
  Keeps-apply_local p dry_run n = search job_rules

  Keeps-apply_connected :
      (provider : Provider N C) (p : ConfigPatch) (dry_run : Bool) (n : ManagedNodeModel) (conn : C)
      → Keeps (OnJobs Q) (apply_connected registry provider p dry_run n conn)
  unfolding apply_connected
  Keeps-apply_connected provider p dry_run n conn = search job_rules

  Keeps-apply_remote :
      (p : ConfigPatch) (dry_run : Bool) (n : ManagedNodeModel)
      → Keeps (OnJobs Q) (apply_remote registry p dry_run n)
  unfolding apply_remote
  Keeps-apply_remote p dry_run n = search (job_rules, Keeps-apply_connected)

  pub Keeps-apply_patch :
      (id : Uuid) (p : ConfigPatch) (actor source : String) (dry_run : Bool)
      → Keeps (OnJobs Q) (apply_patch registry id p actor source dry_run)
  unfolding apply_patch
  Keeps-apply_patch id p actor source dry_run =
      search (job_rules, Keeps-apply_local, Keeps-apply_remote) depth 12

  Keeps-mutate_one :
      (provider : Provider N C) (conn : C) (destination action : String) (dry_run : Bool)
      (target : String)
      → Keeps (OnJobs Q) (mutate_one provider conn destination action dry_run target)
  unfolding mutate_one
  Keeps-mutate_one provider conn destination action dry_run target =
      Keeps-same (mutate_one provider conn destination action dry_run target) (λ s. refl)
        (λ s. refl)

  Keeps-mutate_each :
      (provider : Provider N C) (conn : C) (destination action : String) (dry_run : Bool)
      (targets : List String)
      → Keeps (OnJobs Q) (mutate_each provider conn destination action dry_run targets)
  unfolding mutate_each
  Keeps-mutate_each provider conn destination action dry_run [] = search job_rules
  Keeps-mutate_each provider conn destination action dry_run (target ∷ targets) =
      Keeps-bind (mutate_one provider conn destination action dry_run target)
        (λ first. mutate_each provider conn destination action dry_run targets >>= λ rest.
          pure (first ∷ rest))
        (Keeps-mutate_one provider conn destination action dry_run target)
        (λ first.
          Keeps-bind (mutate_each provider conn destination action dry_run targets)
            (λ rest. pure (first ∷ rest))
            (Keeps-mutate_each provider conn destination action dry_run targets)
            (λ rest. search job_rules))

  pub Keeps-mutate_node_db :
      (id : Uuid) (action : String) (targets : List String) (actor source : String) (dry_run : Bool)
      → Keeps (OnJobs Q) (mutate_node_db registry id action targets actor source dry_run)
  unfolding mutate_node_db
  Keeps-mutate_node_db id action targets actor source dry_run =
      search (job_rules, Keeps-mutate_each) depth 20

touch_endpoint-jobs :
    (id : Uuid) (o : Origin) (at : Time) (found : Option NodeEndpointModel) (db : Db)
    → (touch_endpoint id o at found db).jobs ≡ db.jobs
unfolding touch_endpoint
touch_endpoint-jobs id o at none db = refl
touch_endpoint-jobs id o at (some row) db = refl

node_row-jobs :
    (node : ManagedNode) (o : Origin) (at : Time) (u : Unflushed)
    → (node_row node o at u).0.tables.jobs ≡ u.tables.jobs
unfolding node_row
node_row-jobs node o at u = ground arith

upsert_each-jobs :
    (nodes : List ManagedNode) (o : Origin) (at : Time) (u : Unflushed)
    → (upsert_each nodes o at u).0.tables.jobs ≡ u.tables.jobs
unfolding upsert_each upsert_one
upsert_each-jobs [] o at u = refl
upsert_each-jobs (node ∷ nodes) o at u =
    upsert_each-jobs nodes o at (upsert_one node o at u).0
    ∙ touch_endpoint-jobs (node_row node o at u).1 o at _ _
    ∙ node_row-jobs node o at u

module _ {N : Type 0} {Q : List JobModel → Type 0} where
  pub Keeps-upsert_nodes :
      (nodes : List ManagedNode) (o : Origin) → Keeps {N = N} (OnJobs Q) (upsert_nodes nodes o)
  unfolding upsert_nodes
  Keeps-upsert_nodes nodes o = search (job_rules, upsert_each-jobs)
