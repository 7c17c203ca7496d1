-- ===== src/Audit.antt =====
-- audit/service.py: `AuditService`. A missing state is an empty dict, which is what
-- `before_state or {}` makes of it.
use meshonator.Base.{String, Option, none, [], ◌∷◌, ◌++◌}
use meshonator.Json.{Fields}
use meshonator.Db.{Uuid, AuditLogModel}
use meshonator.Db.Session.{Exec, pure, ◌>>=◌, ◌>>◌, modify, commit, new_id}

-- the arguments of `log`
pub record Entry : Type 0 where
  pub actor : String
  pub source : String
  pub action : String
  pub provider : Option String
  pub node_id : Option Uuid
  pub group_id : Option Uuid
  pub before_state : Fields
  pub after_state : Fields
  pub metadata : Fields

-- an entry with the arguments that are always given, and the metadata
abbrev pub entry : String → String → String → Fields → Entry
entry actor source action metadata = record {
  actor = actor;
  source = source;
  action = action;
  provider = none;
  node_id = none;
  group_id = none;
  before_state = Fields.end;
  after_state = Fields.end;
  metadata = metadata;
}

abbrev pub audit_row : Uuid → Entry → AuditLogModel
audit_row id e = record {
  id = id;
  actor = e.actor;
  source = e.source;
  action = e.action;
  provider = e.provider;
  node_id = e.node_id;
  group_id = e.group_id;
  before_state = e.before_state;
  after_state = e.after_state;
  meta_json = e.metadata;
}

module _ {N : Type 0} where
  unfoldable pub log : Entry → Exec N AuditLogModel
  log e = do
    id ← new_id
    modify (λ db. record db { audit_logs = db.audit_logs ++ audit_row id e ∷ [] })
    commit
    pure (audit_row id e)
