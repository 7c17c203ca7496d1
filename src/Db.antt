-- ===== src/Db.antt =====
-- The tables of src/meshonator/db/models.py, a row of each as a record with the columns that the
-- services read or write. A UUID is a number, a time is a number of microseconds, a dict column is
-- its JSON fields, a Float column is a JSON float. `next_id` is the supply of `uuid.uuid4()`, which
-- the code takes to be fresh.
pub mod Session
use meshonator.Base.{Eq, ℕ, ◌+◌, ◌*◌, String, Bool, Option, List, []}
use meshonator.Base.Int.{ℤ}
use meshonator.Json.{Fields}

abbrev pub Uuid : Type 0
Uuid = ℕ

abbrev pub Time : Type 0
Time = ℕ

abbrev pub minutes : ℕ → Time
minutes n = n * 60000000

-- A finite Float column: m / 2 ^ k.
pub record Real : Type 0 where
  pub mantissa : ℤ
  pub scale : ℕ

-- The text columns `status` of jobs and of job results hold one of these words.
pub data Status : Type 0 where
  pending running success failed : Status

Status-discrete : Discrete Status
Status-discrete = hlevel

instance unfoldable pub status_eq : Eq Status
unfolding Status-discrete
status_eq = record { dec = Status-discrete }

pub record JobModel : Type 0 where
  pub id : Uuid
  pub job_type : String
  pub status : Status
  pub requested_by : String
  pub source : String
  pub payload : Fields
  pub started_at : Option Time
  pub finished_at : Option Time
  pub created_at : Time

-- The messages of job results: a text, or the numbers and texts that an f-string puts into it.
pub data Message : Type 0 where
  text : String → Message
  -- f"Unsupported job type: {job_type}"
  unsupported_job_type : String → Message
  -- f"NodeDB {action}: {applied} ok, {failed} failed"
  nodedb_result : String → ℕ → ℕ → Message
  -- f"NodeDB mutation {action} finished ({applied} ok, {failed} failed)"
  nodedb_finished : String → ℕ → ℕ → Message
  -- f"Auto-sync …: {endpoints} endpoints, {failed} failed", and that of a sync job
  sync_result : String → ℕ → ℕ → Message
  -- f"Probe {scanned}/{total}: {host} open"
  probe_open : ℕ → ℕ → String → Message
  -- f"Probe {scanned}/{total}: {host} closed ({reason})"
  probe_closed : ℕ → ℕ → String → String → Message
  -- f"Discovery finished with {len(found)} endpoints"
  discovery_finished : ℕ → Message

pub record JobResultModel : Type 0 where
  pub id : Uuid
  pub job_id : Uuid
  pub node_id : Option Uuid
  pub status : Status
  pub message : Message
  pub details : Fields

pub record WorkerHeartbeatModel : Type 0 where
  pub worker_id : String
  pub mode : String
  pub host : String
  pub pid : ℕ
  pub status : String
  pub started_at : Time
  pub last_heartbeat_at : Time
  pub last_claimed_job_id : Option Uuid
  pub last_completed_job_id : Option Uuid
  pub processed_jobs : ℕ
  pub details : Fields

pub record ProviderEndpointModel : Type 0 where
  pub id : Uuid
  pub provider_name : String
  pub endpoint : String
  pub host : String
  pub port : ℕ
  pub source : String
  pub last_seen : Option Time
  pub reachable : Bool
  pub meta_json : Fields

pub record ManagedNodeModel : Type 0 where
  pub id : Uuid
  pub provider : String
  pub provider_node_id : String
  pub node_num : Option ℕ
  pub short_name : Option String
  pub long_name : Option String
  pub firmware_version : Option String
  pub hardware_model : Option String
  pub role : Option String
  pub favorite : Bool
  pub managed : Bool
  pub latitude : Option Real
  pub longitude : Option Real
  pub altitude : Option Real
  pub location_source : Option String
  pub first_seen : Option Time
  pub last_seen : Option Time
  pub last_successful_sync : Option Time
  pub reachable : Bool
  pub raw_metadata : Fields
  pub capability_matrix : Fields

pub record NodeEndpointModel : Type 0 where
  pub id : Uuid
  pub node_id : Uuid
  pub endpoint : String
  pub host : String
  pub port : ℕ
  pub source : String
  pub is_primary : Bool
  pub last_seen : Option Time

pub record NodeGroupModel : Type 0 where
  pub id : Uuid
  pub name : String
  pub description : Option String
  pub dynamic_filter : Fields
  pub desired_config_template : Fields

pub record NodeGroupMemberModel : Type 0 where
  pub id : Uuid
  pub group_id : Uuid
  pub node_id : Uuid

pub record NodeSnapshotModel : Type 0 where
  pub id : Uuid
  pub node_id : Uuid
  pub snapshot_type : String
  pub payload : Fields

pub record NodeConfigModel : Type 0 where
  pub id : Uuid
  pub node_id : Uuid
  pub config_type : String
  pub config : Fields
  pub version_hash : String
  pub created_at : Time

pub record NodeDesiredStateModel : Type 0 where
  pub id : Uuid
  pub node_id : Uuid
  pub desired_snapshot : Fields
  pub drift_state : String

pub record AuditLogModel : Type 0 where
  pub id : Uuid
  pub actor : String
  pub source : String
  pub action : String
  pub provider : Option String
  pub node_id : Option Uuid
  pub group_id : Option Uuid
  pub before_state : Fields
  pub after_state : Fields
  pub meta_json : Fields

pub record UserModel : Type 0 where
  pub id : Uuid
  pub username : String
  pub password_hash : String
  pub role : String
  pub is_active : Bool

pub record Db : Type 0 where
  pub jobs : List JobModel
  pub results : List JobResultModel
  pub heartbeats : List WorkerHeartbeatModel
  pub provider_endpoints : List ProviderEndpointModel
  pub nodes : List ManagedNodeModel
  pub node_endpoints : List NodeEndpointModel
  pub groups : List NodeGroupModel
  pub members : List NodeGroupMemberModel
  pub snapshots : List NodeSnapshotModel
  pub configs : List NodeConfigModel
  pub desired_states : List NodeDesiredStateModel
  pub audit_logs : List AuditLogModel
  pub users : List UserModel
  pub next_id : Uuid

abbrev pub empty_db : Db
empty_db = record {
  jobs = [];
  results = [];
  heartbeats = [];
  provider_endpoints = [];
  nodes = [];
  node_endpoints = [];
  groups = [];
  members = [];
  snapshots = [];
  configs = [];
  desired_states = [];
  audit_logs = [];
  users = [];
  next_id = 1;
}
