-- ===== src/Operations/Configs.antt =====
-- operations/service.py: `save_config_snapshot` and `set_desired_state`. The hash of a configuration
-- (SHA-256 of its JSON text with sorted keys) is a parameter.
use meshonator.Base.{String, none, some, [], ◌∷◌, ◌++◌, ◌==◌, nat_eq, find?, update_where}
use meshonator.Json.{Fields}
use meshonator.Db.{Uuid, NodeConfigModel, NodeDesiredStateModel}
use meshonator.Db.Session.{Exec, pure, gets, ◌>>=◌, ◌>>◌, modify, commit, now, new_id}

module _ {N : Type 0} where
  unfoldable pub save_config_snapshot :
      (Fields → String) → Uuid → String → Fields → Exec N NodeConfigModel
  save_config_snapshot version_hash node_id config_type config = do
    id ← new_id
    at ← now
    let row : NodeConfigModel = record {
      id = id;
      node_id = node_id;
      config_type = config_type;
      config = config;
      version_hash = version_hash config;
      created_at = at;
    }
    modify (λ db. record db { configs = db.configs ++ row ∷ [] })
    commit
    pure row

  abbrev new_desired : Uuid → Fields → Exec N NodeDesiredStateModel
  new_desired node_id desired = do
    id ← new_id
    let row : NodeDesiredStateModel = record {
      id = id;
      node_id = node_id;
      desired_snapshot = desired;
      drift_state = "unknown";
    }
    modify (λ db. record db { desired_states = db.desired_states ++ row ∷ [] })
    commit
    pure row

  abbrev old_desired : Fields → NodeDesiredStateModel → Exec N NodeDesiredStateModel
  old_desired desired row = do
    modify (λ db. record db {
      desired_states =
          update_where (λ r. r.id == row.id) (λ r. record r { desired_snapshot = desired })
            db.desired_states;
    })
    commit
    pure (record row { desired_snapshot = desired })

  unfoldable set_desired_state : Uuid → Fields → Exec N NodeDesiredStateModel
  set_desired_state node_id desired = do
    row ← gets (λ db. find? (λ r. r.node_id == node_id) db.desired_states)
    elim row [ none ↦ new_desired node_id desired | some r ↦ old_desired desired r ]
