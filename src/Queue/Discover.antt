-- ===== src/Queue/Discover.antt =====
-- jobs/queue.py: `_run_discovery_job`, with its progress callback. The payload is read as api/app.py
-- writes it: the provider and the source are texts, the port is a number or None, and the lists hold
-- texts; a list with anything else is taken to raise a TypeError.
use meshonator.Base.{
  ℕ, ◌+◌, String, Bool, true, false, not, ◌&&◌, Option, none, some, List, [], ◌∷◌, ◌++◌, ◌==◌,
  if◌then◌else◌, nat_eq, string_eq, length, filter_by, map, contains, take,
}
use meshonator.Base.Int.{ℤ, pos}
use meshonator.Console.Nested.{or_null}
use meshonator.Db.{
  Uuid, running, JobModel, ProviderEndpointModel, Db, text, Message, sync_result, probe_open,
  probe_closed, discovery_finished,
}
use meshonator.Db.Session.{
  Exn, integrity_error, other_error, value_error, provider_error, Result, ok, raised, Exec, pure,
  raise, gets, catch, ◌>>=◌, ◌>>◌,
}
use meshonator.Discovery.{Networks, sorted_set, expand_targets, manual_hosts, scan}
use meshonator.Jobs.{add_result}
use meshonator.Json.{
  Value, bool, int, str, obj, arr, Fields, end, field, Items, nil, cons, get, truthy, as_int,
  list_or_empty,
}
use meshonator.Providers.{Registry}
use meshonator.Queue.{
  External, returned, give_up, with_job, closing, status_of, flag, job_entry, sync_failures,
}
use meshonator.Radios.Apply.{text_items}
use meshonator.Radios.Discover.{Scanner}
use meshonator.Sync.{sync_items, sync_all}

-- `found_count` and `closed_count`
pub record ProbeCounts : Type 0 where
  pub found_count : ℕ
  pub closed_count : ℕ

abbrev no_probes : ProbeCounts
no_probes = record { found_count = 0; closed_count = 0 }

abbrev count_probe : Bool → ProbeCounts → ProbeCounts
count_probe true k = record k { found_count = k.found_count + 1 }
count_probe false k = record k { closed_count = k.closed_count + 1 }

-- `ipaddress.ip_network`, and the `str` of a number
pub record Names : Type 0 where
  pub net : Networks
  pub port_text : ℕ → String

abbrev cons_text : Value → Result (List String) → Result (List String)
cons_text (str s) (ok rest) = ok (s ∷ rest)
cons_text (str s) (raised e) = raised e
cons_text v rest = raised (other_error "TypeError")

-- the texts of a list
unfoldable pub texts_of : Items → Result (List String)
texts_of nil = ok []
texts_of (cons v rest) = cons_text v (texts_of rest)

abbrev text_or : Option Value → String → String
text_or (some (str s)) default = s
text_or _ default = default

abbrev text_given : Option Value → Option String
text_given (some (str s)) = some s
text_given _ = none

abbrev number_of : Option ℤ → Option ℕ
number_of (some (pos n)) = some n
number_of _ = none

abbrev port_of : Option Value → Option ℕ
port_of none = none
port_of (some v) = number_of (as_int v)

-- what is read of the payload
pub record ScanRequest : Type 0 where
  pub provider_name : String
  pub hosts : List String
  pub cidrs : List String
  pub manual_endpoints : List String
  pub port : Option ℕ
  pub source : String

abbrev endpoint_texts : List ProviderEndpointModel → List String
endpoint_texts = map (λ e. e.endpoint)

abbrev existing_endpoints : String → Db → List String
existing_endpoints provider_name db =
    endpoint_texts (filter_by (λ e. e.provider_name == provider_name) db.provider_endpoints)

module _ (str_of : Value → String) where
  abbrev probe_message : ℕ → ℕ → String → Bool → Fields → Message
  probe_message scanned total host reachable probe =
      if reachable
      then probe_open scanned total host
      else (let reason = or_null (get "reason" probe) in
          probe_closed scanned total host (if truthy reason then str_of reason else "closed"))

  -- `_progress`
  unfoldable pub progress :
      {N : Type 0} → Uuid → ℕ → ℕ → String → Bool → Fields → ProbeCounts → Exec N ProbeCounts
  progress job_id scanned total host reachable probe k = do
    let k' : ProbeCounts = count_probe reachable k
    add_result job_id running none (probe_message scanned total host reachable probe) (
        field "scanned" (int (pos scanned)) (
          field "total" (int (pos total)) (
            field "host" (str host) (
              field "reachable" (bool reachable) (
                field "found_so_far" (int (pos k'.found_count)) (
                  field "closed_so_far" (int (pos k'.closed_count))
                    (field "probe" (obj probe) end)))))))
    pure k'

abbrev started_details : Fields → ScanRequest → List String → Fields
started_details payload q unique_targets = field "provider" (str q.provider_name) (
    field "hosts" (arr (text_items q.hosts)) (
      field "cidrs" (arr (text_items q.cidrs)) (
        field "manual_endpoints" (arr (text_items q.manual_endpoints)) (
          field "port" (or_null (get "port" payload)) (
            field "expanded_target_count" (int (pos (length unique_targets))) (
              field "expanded_targets_sample" (arr (text_items (take 100 unique_targets)))
                (field "source" (str q.source) end)))))))

abbrev found_details : List String → List String → ℕ → ProbeCounts → Fields
found_details discovered existing total k = field "endpoints" (arr (text_items discovered)) (
    field "new_endpoints"
      (arr (text_items (sorted_set (filter_by (λ e. not (contains existing e)) discovered))))
      (field "existing_reconfirmed"
        (arr (text_items (sorted_set (filter_by (contains existing) discovered))))
        (field "targets_total" (int (pos total)) (
          field "open_hosts" (int (pos k.found_count))
            (field "closed_hosts" (int (pos k.closed_count)) end)))))

abbrev found_message : ℕ → Message
found_message found =
    if found == 0
    then text
        "Discovery found 0 endpoints. Review the target list and probe results before retrying."
    else discovery_finished found

-- SQLAlchemy refuses to use a session whose flush has failed until it is rolled back.
abbrev pub pending_rollback : Exn
pending_rollback = other_error "PendingRollbackError"

-- an `except` part without a rollback
abbrev pub give_up_unrolled : {N : Type 0} → Uuid → Exn → Exec N (Unit {0})
give_up_unrolled job_id (integrity_error s) = raise pending_rollback
give_up_unrolled job_id (value_error s) = give_up job_id (value_error s)
give_up_unrolled job_id (provider_error s) = give_up job_id (provider_error s)
give_up_unrolled job_id (other_error s) = give_up job_id (other_error s)

module _ {N C : Type 0} (registry : Registry N C) (ext : External) (names : Names)
    (scanners : String → Option (Scanner N)) where
  -- the sync that follows, if the payload does not forbid it: the number of endpoints that failed
  unfoldable pub sync_found : Uuid → Bool → Exec N ℕ
  sync_found job_id false = pure 0
  sync_found job_id true = do
    results ← sync_all registry ext.version_hash ext.isoformat true
    let failures : ℕ = length (sync_failures registry ext results)
    add_result job_id (status_of (failures == 0)) none
        (sync_result "Auto-sync after discovery" (length results) failures)
        (field "sync_results" (arr (sync_items results)) end)
    pure failures

  unfoldable pub request_of : Fields → Exec N ScanRequest
  request_of payload = do
    hosts ← returned (texts_of (list_or_empty (get "hosts" payload)))
    cidrs ← returned (texts_of (list_or_empty (get "cidrs" payload)))
    manual_endpoints ← returned (texts_of (list_or_empty (get "manual_endpoints" payload)))
    pure (record {
      provider_name = text_or (get "provider" payload) "meshtastic";
      hosts = hosts;
      cidrs = cidrs;
      manual_endpoints = manual_endpoints;
      port = port_of (get "port" payload);
      source = text_or (get "source" payload) "ui";
    })

  -- the body of the `try` of `_run_discovery_job`
  unfoldable pub discover : Uuid → JobModel → Exec N (Unit {0})
  discover job_id job = do
    q ← request_of job.payload
    expanded ← returned (expand_targets names.net q.hosts q.cidrs)
    let unique_targets : List String = sorted_set (expanded ++ manual_hosts q.manual_endpoints)
    add_result job_id running none (text "Discovery started")
        (started_details job.payload q unique_targets)
    existing ← gets (existing_endpoints q.provider_name)
    (k, found) ←
        scan names.net names.port_text scanners (progress ext.str_of job_id) q.provider_name q.hosts
          q.cidrs q.manual_endpoints q.port q.source no_probes
    let discovery_success : Bool = not (length found == 0)
    add_result job_id (status_of discovery_success) none (found_message (length found))
        (found_details (endpoint_texts found) existing (length unique_targets) k)
    failures ← sync_found job_id (discovery_success && flag "auto_sync" true job.payload)
    closing job_id (discovery_success && failures == 0) (λ at.
        (record (job_entry registry ext job "discovery.scan"
          (field "queued" (bool true) (field "completed_at" (str (ext.isoformat at)) end))) {
            provider = text_given (get "provider" job.payload);
          }))

  unfoldable pub run_discovery_job : Uuid → Exec N (Unit {0})
  run_discovery_job job_id =
      with_job job_id (λ job. catch (discover job_id job) (give_up_unrolled job_id))
