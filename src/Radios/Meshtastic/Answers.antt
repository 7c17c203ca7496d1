-- ===== src/Radios/Meshtastic/Answers.antt =====
-- The node database through the Meshtastic provider: every target gets an answer, whatever the
-- radio does.
use meshonator.Base.{◌≡◌, ◌+◌, String, Bool, some, List, ◌∷◌, [], ◌++◌, map, arith}
use meshonator.Audit.{audit_row}
use meshonator.Db.{Uuid, Time, ManagedNodeModel, NodeEndpointModel}
use meshonator.Db.Session.{Session, Result, ok, raised}
use meshonator.Inventory.{ManagedNode}
use meshonator.Json.{Value}
use meshonator.Operations.{find_node, first_endpoint, connection_of}
use meshonator.Operations.Answers.{IsAnswered, target_of, mutate_node_db-answers}
use meshonator.Operations.NodeDb
use meshonator.Operations.NodeDb.{mutate_entry, NodeDbResult, applied_count, failed_count}
use meshonator.Providers.{Registry}
use meshonator.Radios.Apply.{mutate_node_db, mutated, mutated_result}
use meshonator.Radios.Connect.{connect, disconnect}
use meshonator.Radios.Info.{Draft}
use meshonator.Radios.Meshtastic.{meshtastic_provider}
use meshonator.Radios.Settings.{Settings}
use meshonator.Radios.{Process, Library}

module _ {N C : Type 0} (library : Library N C) where
  pub disconnect-ok : (conn : C) (p : Process N) → (disconnect library (some conn) p).0 ≡ ok tt
  unfolding disconnect
  disconnect-ok conn p = ground arith

  mutated_result-IsAnswered :
      (action destination target : String) (n : N) (o : Result (Unit {0}) × N)
      → IsAnswered (mutated_result library action destination target n o).0
  mutated_result-IsAnswered action destination target n (ok u, m) = tt
  mutated_result-IsAnswered action destination target n (raised e, m) = tt

  mutate_node_db-IsAnswered :
      (conn : C) (destination action target : String) (dry_run : Bool) (n : N)
      → IsAnswered (mutate_node_db library conn destination action target dry_run n).0
  unfolding mutate_node_db
  mutate_node_db-IsAnswered conn destination action target dry_run n = ground (
    arith,
    mutated_result-IsAnswered action destination target n
        (mutated library conn (library.local_node conn) action target n),
  )

module _ {N C : Type 0} (library : Library N C) (settings : Settings) (str_of : Value → String)
    (validate : Draft → Result ManagedNode) (now : N → Time)
    (registry : Registry (Process N) C) where
  -- Let the destination and its first endpoint be found, let its provider be the Meshtastic one, and
  -- let connecting return. Then, whatever the radio's library returns or raises for the changes,
  -- `mutate_node_db` of the operations returns; its answers are for the targets, one each and in
  -- their order; the counts of applied and failed targets add up to the number of targets; and all
  -- that it adds to the database is one audit row, which is committed.
  pub mutate_node_db-meshtastic_provider :
      (id : Uuid) (action target : String) (targets : List String) (actor source : String)
      (dry_run : Bool) (s : Session (Process N)) (d : ManagedNodeModel) (e : NodeEndpointModel)
      (conn : C) (p : Process N)
      → find_node id s.db ≡ some d
      → first_endpoint d.id s.db ≡ some e
      → registry d.provider ≡ some (meshtastic_provider library settings str_of validate now)
      → connect (some library) settings (connection_of e) s.net ≡ (ok conn, p)
      → let run =
          NodeDb.mutate_node_db registry id action (target ∷ targets) actor source dry_run s in
        (r : NodeDbResult) × (run.0 ≡ ok r)
        × (map target_of r.answers ≡ target ∷ targets)
        × (applied_count r.answers + failed_count r.answers ≡ r.target_count)
        × (run.1.db ≡ record s.db {
          audit_logs =
              s.db.audit_logs
              ++ audit_row s.db.next_id (mutate_entry registry actor source d r) ∷ [];
          next_id = s.db.next_id + 1;
        })
        × (run.1.committed ≡ run.1.db)
  mutate_node_db-meshtastic_provider id action target targets actor source dry_run s d e conn p hd
        he hp hc =
      mutate_node_db-answers registry id action target targets actor source dry_run s d e
        (meshtastic_provider library settings str_of validate now) conn p hd he hp hc
        (disconnect-ok library conn)
        (λ t q. mutate_node_db-IsAnswered library conn d.provider_node_id action t dry_run q.net)
