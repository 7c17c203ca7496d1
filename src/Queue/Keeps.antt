-- ===== src/Queue/Keeps.antt =====
-- What the handlers of jobs/queue.py do before they finish their job leaves the job table alone,
-- whatever holds of it.
use meshonator.Base.{
  ◌+◌, Bool, true, false, none, some, Option, List, [], ◌∷◌, String, ℕ, if◌then◌else◌, filter_by,
}
use meshonator.Json.{Fields, Items, Value, nil, cons, end, field, get}
use meshonator.Db.{Uuid, JobModel, ManagedNodeModel, NodeGroupModel}
use meshonator.Db.Session.{Exn, Exec, Result, pure, gets, ◌>>=◌}
use meshonator.Db.Session.Keeps.{Keeps, Keeps-bind}
use meshonator.Groups.{get_group}
use meshonator.Groups.Filters.{selects, bbox_error}
use meshonator.Groups.Resolve.{
  unless_error, list_assigned_members, resolve_dynamic_members, resolve_all_members,
}
use meshonator.Jobs.Keeps.{OnJobs, Keeps-same, Keeps-apply_patch, Keeps-mutate_node_db, job_rules}
use meshonator.Providers.{ConfigPatch, Registry}
use meshonator.Queue.{External, returned, patch_member, patch_members}
use meshonator.Queue.Bulk.{
  Request, parse_ids, mutate_targets, mutate_found, mutate_destination, mutate_destinations,
  sync_after,
}
use meshonator.Queue.Multi.{
  Python, Clone, Spread, clone_dict, clone_channels, clone_role, clone_from, cloned, spread_of,
  spread_patch,
}
use meshonator.Queue.Multi.Job.{patch_one, patch_each}
use meshonator.Sync.Keeps.{Keeps-sync_all}

module _ {N : Type 0} {Q : List JobModel → Type 0} where
  pub Keeps-returned : {A : Type 0} (r : Result A) → Keeps {N = N} (OnJobs Q) (returned r)
  Keeps-returned r = record { at = λ s h. h }

  pub Keeps-get_group : (id : Uuid) → Keeps {N = N} (OnJobs Q) (get_group id)
  unfolding get_group
  Keeps-get_group id = search job_rules

  Keeps-list_assigned_members : (id : Uuid) → Keeps {N = N} (OnJobs Q) (list_assigned_members id)
  unfolding list_assigned_members
  Keeps-list_assigned_members id = search job_rules

  Keeps-unless_error :
      {A : Type 0} (o : Option Exn) (m : Exec N A)
      → Keeps (OnJobs Q) m
      → Keeps (OnJobs Q) (unless_error o m)
  Keeps-unless_error none m km = km
  Keeps-unless_error (some e) m km = record { at = λ s h. h }

  Keeps-resolve_dynamic_members :
      (filters : Fields) → Keeps {N = N} (OnJobs Q) (resolve_dynamic_members filters)
  unfolding resolve_dynamic_members
  Keeps-resolve_dynamic_members end = search job_rules
  Keeps-resolve_dynamic_members (field k v d) =
      Keeps-unless_error (bbox_error (get "bbox" (field k v d)))
        (gets (λ db. filter_by (selects (field k v d)) db.nodes)) (search job_rules)

  pub Keeps-resolve_all_members :
      (g : NodeGroupModel) → Keeps {N = N} (OnJobs Q) (resolve_all_members g)
  unfolding resolve_all_members
  Keeps-resolve_all_members g =
      search (job_rules, Keeps-list_assigned_members, Keeps-resolve_dynamic_members)

pub ruleset queue_rules = (
  job_rules, Keeps-returned, Keeps-apply_patch, Keeps-mutate_node_db, Keeps-sync_all,
  Keeps-get_group, Keeps-resolve_all_members,
)

module _ {N C : Type 0} {Q : List JobModel → Type 0} (registry : Registry N C)
    (ext : External) where
  Keeps-patch_member :
      (id : Uuid) (job : JobModel) (patch : ConfigPatch) (dry_run : Bool) (node : ManagedNodeModel)
      → Keeps (OnJobs Q) (patch_member registry ext id job patch dry_run node)
  unfolding patch_member
  Keeps-patch_member id job patch dry_run node = search queue_rules depth 12

  pub Keeps-patch_members :
      (id : Uuid) (job : JobModel) (patch : ConfigPatch) (dry_run : Bool)
      (members : List ManagedNodeModel)
      → Keeps (OnJobs Q) (patch_members registry ext id job patch dry_run members)
  unfolding patch_members
  Keeps-patch_members id job patch dry_run [] = search queue_rules
  Keeps-patch_members id job patch dry_run (node ∷ members) =
      Keeps-bind (patch_member registry ext id job patch dry_run node)
        (λ applied. patch_members registry ext id job patch dry_run members >>= λ count.
          pure (if applied then count + 1 else count))
        (Keeps-patch_member id job patch dry_run node)
        (λ applied.
          Keeps-bind (patch_members registry ext id job patch dry_run members)
            (λ count. pure (if applied then count + 1 else count))
            (Keeps-patch_members id job patch dry_run members) (λ count. search queue_rules))

  pub Keeps-parse_ids : (items : Items) → Keeps (OnJobs Q) (parse_ids registry ext items)
  unfolding parse_ids
  Keeps-parse_ids nil = search queue_rules
  Keeps-parse_ids (cons item rest) =
      Keeps-bind (returned (ext.uuid_of item))
        (λ id. parse_ids registry ext rest >>= λ ids. pure (id ∷ ids))
        (Keeps-returned (ext.uuid_of item))
        (λ id.
          Keeps-bind (parse_ids registry ext rest) (λ ids. pure (id ∷ ids)) (Keeps-parse_ids rest)
            (λ ids. search queue_rules))

  Keeps-mutate_targets :
      (id : Uuid) (job : JobModel) (q : Request) (d : Uuid) (targets : Option (List String))
      → Keeps (OnJobs Q) (mutate_targets registry ext id job q d targets)
  Keeps-mutate_targets id job q d none = search queue_rules
  Keeps-mutate_targets id job q d (some targets) = search queue_rules depth 12

  Keeps-mutate_found :
      (id : Uuid) (job : JobModel) (q : Request) (d : Uuid) (found : Option ManagedNodeModel)
      → Keeps (OnJobs Q) (mutate_found registry ext id job q d found)
  Keeps-mutate_found id job q d none = search queue_rules
  Keeps-mutate_found id job q d (some n) = search (queue_rules, Keeps-mutate_targets)

  Keeps-mutate_destination :
      (id : Uuid) (job : JobModel) (q : Request) (d : Uuid)
      → Keeps (OnJobs Q) (mutate_destination registry ext id job q d)
  unfolding mutate_destination
  Keeps-mutate_destination id job q d = search (queue_rules, Keeps-mutate_found)

  pub Keeps-mutate_destinations :
      (id : Uuid) (job : JobModel) (q : Request) (ds : List Uuid)
      → Keeps (OnJobs Q) (mutate_destinations registry ext id job q ds)
  unfolding mutate_destinations
  Keeps-mutate_destinations id job q [] = search queue_rules
  Keeps-mutate_destinations id job q (d ∷ ds) =
      Keeps-bind (mutate_destination registry ext id job q d)
        (λ first. mutate_destinations registry ext id job q ds >>= λ others. pure (first ∷ others))
        (Keeps-mutate_destination id job q d)
        (λ first.
          Keeps-bind (mutate_destinations registry ext id job q ds)
            (λ others. pure (first ∷ others)) (Keeps-mutate_destinations id job q ds)
            (λ others. search queue_rules))

  pub Keeps-sync_after : (id : Uuid) (b : Bool) → Keeps (OnJobs Q) (sync_after registry ext id b)
  unfolding sync_after
  Keeps-sync_after id false = search queue_rules
  Keeps-sync_after id true = search queue_rules depth 12

module _ {N : Type 0} {Q : List JobModel → Type 0} (py : Python) where
  Keeps-clone_dict :
      (key : String) (b : Bool) (source : Option Fields) (prepare : Fields → Fields)
      (merged : Value)
      → Keeps {N = N} (OnJobs Q) (clone_dict py key b source prepare merged)
  Keeps-clone_dict key false source prepare merged = search queue_rules
  Keeps-clone_dict key true none prepare merged = search queue_rules
  Keeps-clone_dict key true (some source) prepare merged = search queue_rules

  Keeps-clone_channels :
      (b : Bool) (source : Option Items) (merged : Value)
      → Keeps {N = N} (OnJobs Q) (clone_channels py b source merged)
  Keeps-clone_channels false source merged = search queue_rules
  Keeps-clone_channels true none merged = search queue_rules
  Keeps-clone_channels true (some source) merged = search queue_rules

  Keeps-clone_role :
      (b : Bool) (role : Option String) (merged : Value)
      → Keeps {N = N} (OnJobs Q) (clone_role py b role merged)
  Keeps-clone_role b none merged = search queue_rules
  Keeps-clone_role b (some role) merged = search queue_rules

  Keeps-clone_from :
      (clone : Clone) (source : ManagedNodeModel) (base : Value)
      → Keeps {N = N} (OnJobs Q) (clone_from py clone source base)
  unfolding clone_from
  Keeps-clone_from clone source base =
      search (queue_rules, Keeps-clone_dict, Keeps-clone_channels, Keeps-clone_role) depth 12

  module _ (ext : External) where
    pub Keeps-cloned :
        (clone : Clone) (base : Value) → Keeps {N = N} (OnJobs Q) (cloned py ext clone base)
    unfolding cloned
    Keeps-cloned clone base = search (queue_rules, Keeps-clone_from) depth 12

  pub Keeps-spread_of : (location : Fields) → Keeps {N = N} (OnJobs Q) (spread_of py location)
  Keeps-spread_of location = search queue_rules

  Keeps-spread_patch :
      (spread : Spread) (index total : ℕ) (base : Value)
      → Keeps {N = N} (OnJobs Q) (spread_patch py spread index total base)
  unfolding spread_patch
  Keeps-spread_patch spread index total base = search queue_rules depth 16

  module _ {C : Type 0} (registry : Registry N C) (ext : External) where
    Keeps-patch_one :
        (id : Uuid) (job : JobModel) (dry_run : Bool) (spread : Spread) (base : Value)
        (index total : ℕ) (node_id : Uuid)
        → Keeps
            (OnJobs Q)
            (patch_one registry ext py id job dry_run spread base index total node_id)
    unfolding patch_one
    Keeps-patch_one id job dry_run spread base index total node_id =
        search (queue_rules, Keeps-spread_patch) depth 12

    pub Keeps-patch_each :
        (id : Uuid) (job : JobModel) (dry_run : Bool) (spread : Spread) (base : Value)
        (index total : ℕ) (ids : List Uuid)
        → Keeps (OnJobs Q) (patch_each registry ext py id job dry_run spread base index total ids)
    unfolding patch_each
    Keeps-patch_each id job dry_run spread base index total [] = search queue_rules
    Keeps-patch_each id job dry_run spread base index total (node_id ∷ ids) =
        Keeps-bind (patch_one registry ext py id job dry_run spread base index total node_id)
          (λ first.
            patch_each registry ext py id job dry_run spread base (index + 1) total ids >>= λ rest.
            pure (first ∷ rest))
          (Keeps-patch_one id job dry_run spread base index total node_id)
          (λ first.
            Keeps-bind (patch_each registry ext py id job dry_run spread base (index + 1) total ids)
              (λ rest. pure (first ∷ rest))
              (Keeps-patch_each id job dry_run spread base (index + 1) total ids)
              (λ rest. search queue_rules))
