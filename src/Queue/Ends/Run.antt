-- ===== src/Queue/Ends/Run.antt =====
-- `run_job` of jobs/queue.py ends the job that it runs.
use mathlib.Core.Path.{subst}
use meshonator.Base.{
  ◌≡◌, refl, ap, ◌∷◌, [], sym, ◌∙◌, arith, Bool, true, false, String, Option, none, some, List, ◌+◌,
  ◌==◌, if◌then◌else◌, string_eq, nat_eq, find?, update_where,
}
use meshonator.Json.{Value, null, bool, int, float, str, arr, obj, Fields, end, get}
use meshonator.Db.{Uuid, running, failed, JobModel, Db, unsupported_job_type}
use meshonator.Db.Session.{Result, ok, Session, Exec, bind-eq, catch}
use meshonator.Db.Session.Keeps.{Both}
use meshonator.Jobs.{find_job, start, add_result}
use meshonator.Jobs.Keeps.{OnJobs, Keeps-add_result}
use meshonator.Providers.{Registry}
use meshonator.Queue.{
  External, with_job, started_job, run_node_patch_job, run_group_patch_job, run_sync_job,
  run_node_nodedb_job, patch_node, patch_group, sync_endpoints, mutate_node, attempt, give_up,
}
use meshonator.Queue.Bulk.{run_bulk_nodedb_job, mutate_all}
use meshonator.Queue.Ends.{
  Ends, Present, Ended, Finished, has_job, has_job-update, finish-Ended, attempt-Ended, catch-Ended,
}
use meshonator.Queue.Ends.Bodies.{
  Ends-patch_node, Ends-patch_group, Ends-sync_endpoints, Ends-mutate_node, Ends-mutate_all,
  Ends-patch_nodes,
}
use meshonator.Queue.Multi.{Python, or_empty}
use meshonator.Queue.Multi.Job.{run_multi_node_patch_job}
use meshonator.Queue.Discover.{Names}
use meshonator.Radios.Discover.{Scanner}
use meshonator.Queue.Run.{run_unsupported, dispatch, run_job}

-- a dict, as the payload has it
abbrev is_dict : Value → Bool
is_dict (obj d) = true
is_dict _ = false

-- the payload's "clone" is missing, or false as a truth value, or a dict
abbrev clone_is_dict : JobModel → Bool
clone_is_dict job = is_dict (or_empty (get "clone" job.payload))

dict_of : (v : Value) → is_dict v ≡ true → (d : Fields) × (v ≡ obj d)
dict_of (obj d) h = (d, refl)
dict_of null h = cc
dict_of (bool b) h = cc
dict_of (int z) h = cc
dict_of (float m k) h = cc
dict_of (str t) h = cc
dict_of (arr xs) h = cc

find-has_job :
    (id : Uuid) (jobs : List JobModel) (j : JobModel)
    → find? (λ j. j.id == id) jobs ≡ some j
    → has_job id jobs ≡ true
find-has_job id [] j h = cc
find-has_job id (k ∷ jobs) j h = ground (arith, find-has_job id jobs j)

-- what the worker's session then sees
abbrev EndedIn : {N : Type 0} → Uuid → Result (Unit {0}) × Session N → Type 0
EndedIn id (r, s) = (r ≡ ok tt) × Ended id s.db.jobs × Ended id s.committed.jobs

module _ {N : Type 0} (id : Uuid) where
  abbrev pub started : Session N → Session N
  started s =
      let db : Db = record s.db {
        jobs =
            update_where (λ j. j.id == id)
              (λ j. record j { status = running; started_at = some (s.clock s.reads) }) s.db.jobs;
      } in
      record s { db = db; committed = db; reads = s.reads + 1 }

  start-eq :
      (s : Session N) (j : JobModel)
      → find? (λ j. j.id == id) s.db.jobs ≡ some j
      → start id s ≡ (ok tt, started s)
  unfolding start
  start-eq s j known = rw known

  pub started-Present :
      (s : Session N) (job : JobModel)
      → find? (λ j. j.id == id) s.db.jobs ≡ some job
      → Both (OnJobs (Present id)) (started s)
  started-Present s job known =
      let here : has_job id (started s).db.jobs ≡ true =
        has_job-update id (λ j. j.id == id)
          (λ j. record j { status = running; started_at = some (s.clock s.reads) }) s.db.jobs
          (λ j. refl)
        ∙ find-has_job id s.db.jobs job known in
      (record { holds = here }, record { holds = here })

  -- what `with_job` does for a job that is there
  pub with_job_lem :
      (body : JobModel → Exec N (Unit {0})) (s : Session N) (job : JobModel)
      → find? (λ j. j.id == id) s.db.jobs ≡ some job
      → with_job id body s
        ≡ (let o = body job (started s) in (o.0, record o.1 { db = o.1.committed }))
  unfolding with_job
  with_job_lem body s job known =
      ap (λ o. (o.0, record o.1 { db = o.1.committed }))
        (ap (λ o. started_job id body o s) known
          ∙ bind-eq (start id) (λ _. body job) s (started s) tt (start-eq s job known))

  with_job-Ended :
      (body : JobModel → Exec N (Unit {0})) (s : Session N) (job : JobModel)
      → find? (λ j. j.id == id) s.db.jobs ≡ some job
      → ((t : Session N) → Both (OnJobs (Present id)) t → Finished (OnJobs (Ended id)) (body job) t)
      → EndedIn id (with_job id body s)
  with_job-Ended body s job known ends =
      let outcome = ends (started s) (started-Present s job known) in
      subst (EndedIn id) (sym (with_job_lem body s job known))
        (outcome.0, outcome.1.1.holds, outcome.1.1.holds)

  either_way :
      (b : Bool) (m n : Exec N (Unit {0})) (s : Session N)
      → EndedIn id (m s)
      → EndedIn id (n s)
      → EndedIn id ((if b then m else n) s)
  either_way true m n s p q = p
  either_way false m n s p q = q

  not_first :
      (b : Bool) (m n : Exec N (Unit {0})) (s : Session N)
      → b ≡ false
      → EndedIn id (n s)
      → EndedIn id ((if b then m else n) s)
  not_first true m n s e q = cc
  not_first false m n s e q = q

  -- a handler that is an attempt
  attempted-Ended :
      (body : JobModel → Exec N (Unit {0})) (s : Session N) (job : JobModel)
      → find? (λ j. j.id == id) s.db.jobs ≡ some job
      → Ends (OnJobs (Present id)) (OnJobs (Ended id)) (body job)
      → EndedIn id (with_job id (λ j. attempt id (body j)) s)
  attempted-Ended body s job known ends =
      with_job-Ended (λ j. attempt id (body j)) s job known
        (λ t h. attempt-Ended id (body job) t ends h)

module _ {N C : Type 0} (registry : Registry N C) (ext : External) (py : Python) (names : Names)
    (scanners : String → Option (Scanner N)) (id : Uuid) where
  unsupported-Ended :
      (t : String) (s : Session N) (job : JobModel)
      → find? (λ j. j.id == id) s.db.jobs ≡ some job
      → find? (λ j. j.id == id) s.committed.jobs ≡ some job
      → EndedIn id (run_unsupported registry ext py names scanners id t s)
  unfolding run_unsupported add_result
  unsupported-Ended t s job known saved =
      let (returns, ended) =
        finish-Ended id false (add_result id failed none (unsupported_job_type t) end s).1 (
          (Keeps-add_result id failed none (unsupported_job_type t) end).at s (
            record { holds = find-has_job id s.db.jobs job known },
            record { holds = find-has_job id s.committed.jobs job saved },
          )) in
      (returns, ended.1.holds, ended.1.holds)

  multi-Ended :
      (s : Session N) (job : JobModel)
      → find? (λ j. j.id == id) s.db.jobs ≡ some job
      → clone_is_dict job ≡ true
      → EndedIn id (run_multi_node_patch_job registry ext py id s)
  unfolding run_multi_node_patch_job
  multi-Ended s job known readable =
      let (d, e) = dict_of (or_empty (get "clone" job.payload)) readable in
      with_job-Ended id _ s job known
        (λ t h. rw e (attempt-Ended id _ t (Ends-patch_nodes registry ext id job py _) h))

module _ {N C : Type 0} (registry : Registry N C) (ext : External) (py : Python) (names : Names)
    (scanners : String → Option (Scanner N)) (id : Uuid) (job : JobModel) (s : Session N) where
  dispatch-Ended :
      find? (λ j. j.id == id) s.db.jobs ≡ some job
      → find? (λ j. j.id == id) s.committed.jobs ≡ some job
      → (job.job_type == "discovery_scan") ≡ false
      → clone_is_dict job ≡ true
      → EndedIn id (dispatch registry ext py names scanners job.job_type id s)
  unfolding dispatch run_sync_job run_group_patch_job run_node_patch_job run_node_nodedb_job
      run_bulk_nodedb_job
  dispatch-Ended known saved other readable =
      let t : String = job.job_type in
      not_first id (t == "discovery_scan") _ _ s other (
        either_way id (t == "sync_all") _ _ s
          (with_job-Ended id (λ j. catch (sync_endpoints registry ext id j) (give_up id)) s job
            known
            (λ u h.
              catch-Ended id (sync_endpoints registry ext id job) u
                (Ends-sync_endpoints registry ext id job) h))
          (either_way id (t == "group_apply_template") _ _ s
            (attempted-Ended id (patch_group registry ext id) s job known
              (Ends-patch_group registry ext id job))
            (either_way id (t == "node_config_patch") _ _ s
              (attempted-Ended id (patch_node registry ext id) s job known
                (Ends-patch_node registry ext id job))
              (either_way id (t == "multi_node_config_patch") _ _ s
                (multi-Ended registry ext py names scanners id s job known readable)
                (either_way id (t == "node_nodedb_mutation") _ _ s
                  (attempted-Ended id (mutate_node registry ext id) s job known
                    (Ends-mutate_node registry ext id job))
                  (either_way id (t == "bulk_nodedb_mutation") _ _ s
                    (attempted-Ended id (mutate_all registry ext id) s job known
                      (Ends-mutate_all registry ext id job))
                    (unsupported-Ended registry ext py names scanners id t s job known saved)))))))

module _ {N C : Type 0} (registry : Registry N C) (ext : External) (py : Python) (names : Names)
    (scanners : String → Option (Scanner N)) (id : Uuid) (job : JobModel) (s : Session N) where
  -- For a job that is in the table and is not a discovery scan, whose payload has a dict, or nothing
  -- that counts as true, under "clone": `run_job` returns without an exception, whatever the
  -- radios, the payload and the other services do, and the job is then in the table and each of its
  -- rows has the status success or failed, in the session and in what is committed.
  pub run_job_ends :
      find_job id s.db ≡ some job
      → find_job id s.committed ≡ some job
      → (job.job_type == "discovery_scan") ≡ false
      → clone_is_dict job ≡ true
      → ((run_job registry ext py names scanners id s).0 ≡ ok tt)
        × Ended id (run_job registry ext py names scanners id s).1.db.jobs
        × Ended id (run_job registry ext py names scanners id s).1.committed.jobs
  unfolding run_job
  run_job_ends known saved other readable = rw known (
      dispatch-Ended registry ext py names scanners id job (record s { db = s.committed }) saved
        saved other readable)
