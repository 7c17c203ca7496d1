-- ===== src/Queue/Ends/Bodies.antt =====
-- The bodies of the handlers of jobs/queue.py: where one returns, the job has ended, and where it
-- raises, the job is still in the table.
use meshonator.Db.{Uuid, JobModel}
use meshonator.Providers.{Registry}
use meshonator.Queue.{External, patch_node, patch_group, sync_endpoints, mutate_node}
use meshonator.Queue.Bulk.{mutate_all}
use meshonator.Jobs.Keeps.{OnJobs}
use meshonator.Queue.Ends.{Present, Ended, Ends, Ends-bind, Ends-closing}
use meshonator.Queue.Keeps.{
  Keeps-patch_members, Keeps-parse_ids, Keeps-mutate_destinations, Keeps-sync_after, Keeps-cloned,
  Keeps-spread_of, Keeps-patch_each, queue_rules,
}
use meshonator.Queue.Multi.{Python, Clone}
use meshonator.Queue.Multi.Job.{patch_nodes}

pub ruleset ends_rules = (queue_rules, Ends-bind, Ends-closing)

module _ {N C : Type 0} (registry : Registry N C) (ext : External) (id : Uuid)
    (job : JobModel) where
  pub Ends-patch_node :
      Ends (OnJobs (Present id)) (OnJobs (Ended id)) (patch_node registry ext id job)
  unfolding patch_node
  Ends-patch_node = search ends_rules depth 20

  pub Ends-patch_group :
      Ends (OnJobs (Present id)) (OnJobs (Ended id)) (patch_group registry ext id job)
  unfolding patch_group
  Ends-patch_group = search (ends_rules, Keeps-patch_members) depth 20

  pub Ends-sync_endpoints :
      Ends (OnJobs (Present id)) (OnJobs (Ended id)) (sync_endpoints registry ext id job)
  unfolding sync_endpoints
  Ends-sync_endpoints = search ends_rules depth 20

  pub Ends-mutate_node :
      Ends (OnJobs (Present id)) (OnJobs (Ended id)) (mutate_node registry ext id job)
  unfolding mutate_node
  Ends-mutate_node = search ends_rules depth 20

  pub Ends-mutate_all :
      Ends (OnJobs (Present id)) (OnJobs (Ended id)) (mutate_all registry ext id job)
  unfolding mutate_all
  Ends-mutate_all =
      search (ends_rules, Keeps-parse_ids, Keeps-mutate_destinations, Keeps-sync_after) depth 24

  pub Ends-patch_nodes :
      (py : Python) (clone : Clone)
      → Ends (OnJobs (Present id)) (OnJobs (Ended id)) (patch_nodes registry ext py id job clone)
  unfolding patch_nodes
  Ends-patch_nodes py clone =
      search (ends_rules, Keeps-parse_ids, Keeps-cloned, Keeps-spread_of, Keeps-patch_each) depth 24
