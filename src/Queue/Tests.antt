-- ===== src/Queue/Tests.antt =====
-- A job that patches a node which is no longer there, and the places of a batch.
use meshonator.Base.{
  ℕ, ◌≢◌, ◌⊎◌, String, Option, ◌≡◌, refl, true, false, none, some, [], ◌∷◌, string_eq, nat_eq,
  arith,
}
use meshonator.Base.Int.{pos}
use meshonator.Json.{bool, str, arr, nil, cons, end, field, get}
use meshonator.Db.{Real, pending, JobModel, Db, empty_db, minutes}
use meshonator.Db.Session.{Session, ok, raised, other_error}
use meshonator.Providers.{Registry, ConfigPatch}
use meshonator.Queue.{External}
use meshonator.Queue.Ends.{Ended}
use meshonator.Queue.Ends.Run.{run_job_ends, started}
use meshonator.Queue.Multi.{Python, or_empty}
use meshonator.Queue.Multi.Places.{Placed, spread_location_lem}
use meshonator.Queue.Discover.{Names, discover, run_discovery_job}
use meshonator.Queue.Ends.Discovery.{EndedOrRefused, run_discovery_job_ends}
use meshonator.Radios.Discover.{Scanner}
use meshonator.Queue.Run.{run_job}

abbrev no_radios : Registry (Unit {0}) (Unit {0})
no_radios name = none

abbrev pinned : ConfigPatch
pinned = record {
  short_name = none;
  long_name = none;
  role = none;
  favorite = some true;
  latitude = none;
  longitude = none;
  altitude = none;
  local_config_patch = end;
  module_config_patch = end;
  channels_patch = nil;
}

abbrev queue_externals : External
queue_externals = record {
  uuid_of = λ v. ok 5;
  config_patch = λ v. ok pinned;
  str_of = λ v. "text";
  version_hash = λ cfg. "hash";
  isoformat = λ t. "now";
}

abbrev metre : Real
metre = record { mantissa = pos 1; scale = 0 }

abbrev python : Python
python = record {
  iterated = λ v. raised (other_error "not iterable");
  not_a_dict = λ v. other_error "not a dict";
  float_of = λ v. ok metre;
  times = λ r n. r;
  offset_lat_lon = λ lat lon d b. (lat, lon);
}

abbrev batch_job : JobModel
batch_job = record {
  id = 1;
  job_type = "multi_node_config_patch";
  status = pending;
  requested_by = "admin";
  source = "ui";
  payload = field "node_ids" (arr (cons (str "5") nil)) end;
  started_at = none;
  finished_at = none;
  created_at = 3;
}

abbrev batch_db : Db
batch_db = record empty_db { jobs = batch_job ∷ []; next_id = 2 }

abbrev batch_session : Session (Unit {0})
batch_session = record { db = batch_db; committed = batch_db; clock = minutes; reads = 0; net = tt }

abbrev names : Names
names = record { net = λ cidr. ok []; port_text = λ port. "4403" }

abbrev no_scanners : String → Option (Scanner (Unit {0}))
no_scanners name = none

run_job_ends_example :
    ((run_job no_radios queue_externals python names no_scanners 1 batch_session).0 ≡ ok tt)
    × Ended 1 (run_job no_radios queue_externals python names no_scanners 1 batch_session).1.db.jobs
    × Ended 1
        (run_job no_radios queue_externals python names no_scanners 1
          batch_session).1.committed.jobs
unfolding nat_eq string_eq get or_empty
run_job_ends_example =
    run_job_ends no_radios queue_externals python names no_scanners 1 batch_job batch_session refl
      refl refl refl

-- one host, which is open
abbrev open_scanners : String → Option (Scanner (Unit {0}))
open_scanners name = some (record {
  probe = λ host port n. (ok (field "is_open" (bool true) end), n);
  default_port = 4403;
  tells_probe = true;
})

abbrev discovery_job : JobModel
discovery_job = record batch_job {
  job_type = "discovery_scan";
  payload = field "hosts" (arr (cons (str "10.0.0.1") nil)) (field "auto_sync" (bool false) end);
}

abbrev discovery_db : Db
discovery_db = record empty_db { jobs = discovery_job ∷ []; next_id = 2 }

abbrev discovery_session : Session (Unit {0})
discovery_session = record {
  db = discovery_db;
  committed = discovery_db;
  clock = minutes;
  reads = 0;
  net = tt;
}

run_discovery_job_ends_example :
    EndedOrRefused no_radios queue_externals names open_scanners 1
      (discover no_radios queue_externals names open_scanners 1 discovery_job
        (started 1 discovery_session)).0
      (run_discovery_job no_radios queue_externals names open_scanners 1 discovery_session)
unfolding nat_eq
run_discovery_job_ends_example =
    run_discovery_job_ends no_radios queue_externals names open_scanners 1 discovery_session
      discovery_job refl

abbrev tenth : Real
tenth = record { mantissa = pos 1; scale = 3 }

spread_location_lem_example :
    (r s q t : ℕ) × Placed python 20 tenth tenth tenth 3 r s
    × Placed python 20 tenth tenth tenth 11 q t
    × ((r ≢ q) ⊎ (s ≢ t))
spread_location_lem_example =
    spread_location_lem python 20 tenth tenth tenth 3 11 (omega arith) (omega arith) (omega arith)
      (omega arith) (omega arith)
