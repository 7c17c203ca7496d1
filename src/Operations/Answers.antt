-- ===== src/Operations/Answers.antt =====
-- `OperationsService.mutate_node_db`: what it answers when every target is carried out or refused.
use meshonator.Base.{
  ℕ, ◌+◌, ◌≡◌, refl, ap, sym, ◌∙◌, String, Bool, some, List, [], ◌∷◌, arith, length, ◌++◌, map,
}
use meshonator.Json.{Fields}
use meshonator.Audit.{Entry, log, audit_row}
use meshonator.Db.{Uuid, ManagedNodeModel, NodeEndpointModel, Db}
use meshonator.Db.Session.{
  value_error, provider_error, integrity_error, other_error, Result, Session, Exec, ok, raised,
  bind-eq, pure, ◌>>=◌, ◌>>◌,
}
use meshonator.Providers.{Provider, Registry, connected, connected_lem}
use meshonator.Operations.{find_node, first_endpoint, connection_of}
use meshonator.Operations.NodeDb.{
  Answer, applied, failure, applied_count, failed_count, answer, mutate_one, mutate_each,
  mutate_node_db, NodeDbResult, mutate_entry,
}

abbrev pub target_of : Answer → String
target_of (applied target result) = target
target_of (failure target error) = target

-- the provider carried the change out, or refused it with a ProviderError
abbrev pub IsAnswered : Result Fields → Type 0
IsAnswered (ok result) = Unit
IsAnswered (raised (provider_error e)) = Unit
IsAnswered (raised (value_error e)) = ⊥
IsAnswered (raised (integrity_error e)) = ⊥
IsAnswered (raised (other_error e)) = ⊥

counts :
    (answers : List Answer)
    → applied_count answers + failed_count answers ≡ length (map target_of answers)
counts [] = refl
counts (applied target result ∷ rest) = omega (arith, counts rest)
counts (failure target error ∷ rest) = omega (arith, counts rest)

module _ {N C : Type 0} (provider : Provider N C) (conn : C) where
  answered :
      (target : String) (r : Result Fields)
      → IsAnswered r
      → (a : Answer) × (answer provider conn target r ≡ ok a) × (target_of a ≡ target)
  answered target (ok result) h = (applied target result, refl, refl)
  answered target (raised (provider_error e)) h = (failure target e, refl, refl)
  answered target (raised (value_error e)) h = absurd h
  answered target (raised (integrity_error e)) h = absurd h
  answered target (raised (other_error e)) h = absurd h

  mutate_each_lem :
      (destination action : String) (dry_run : Bool)
      → ((target : String) (n : N)
          → IsAnswered (provider.mutate_node_db conn destination action target dry_run n).0)
      → (targets : List String) (s : Session N)
      → (answers : List Answer) × (n : N) × (mutate_each provider conn destination action dry_run
            targets s
          ≡ (ok answers, record s { net = n }))
        × (map target_of answers ≡ targets)
  unfolding mutate_each mutate_one
  mutate_each_lem destination action dry_run h [] s = ([], s.net, refl, refl)
  mutate_each_lem destination action dry_run h (target ∷ targets) s =
      let o = provider.mutate_node_db conn destination action target dry_run s.net in
      let (a, ha, ta) = answered target o.0 (h target s.net) in
      let (answers, n, run, same) =
        mutate_each_lem destination action dry_run h targets (record s { net = o.1 }) in
      let later : Answer → Exec N (List Answer) = λ first.
        mutate_each provider conn destination action dry_run targets >>= λ rest.
        pure (first ∷ rest) in
      let step : mutate_one provider conn destination action dry_run target s
          ≡ (ok a, record s { net = o.1 }) =
        rw ha refl in
      (
        a ∷ answers,
        n,
        bind-eq (mutate_one provider conn destination action dry_run target) later s
              (record s { net = o.1 }) a step
            ∙ bind-eq (mutate_each provider conn destination action dry_run targets)
                (λ rest. pure (a ∷ rest)) (record s { net = o.1 }) (record s { net = n }) answers
                run,
        rw (ta, same) refl,
      )

abbrev logged : {N : Type 0} → Entry → Session N → Session N
logged e s =
    let db : Db = record s.db {
      audit_logs = s.db.audit_logs ++ audit_row s.db.next_id e ∷ [];
      next_id = s.db.next_id + 1;
    } in
    record s { db = db; committed = db }

module _ {N C : Type 0} (registry : Registry N C) where
  abbrev conclude :
      String → String → ManagedNodeModel → String → Bool → ℕ → List Answer → Exec N NodeDbResult
  conclude actor source d action dry_run count answers = do
    let r : NodeDbResult = record {
      destination_node_id = d.provider_node_id;
      action = action;
      target_count = count;
      answers = answers;
      dry_run = dry_run;
    }
    log (mutate_entry registry actor source d r)
    pure r

  -- Let the destination, its first endpoint and its provider be found, and let connecting and
  -- disconnecting return. If the provider carries out each change or refuses it with a ProviderError,
  -- `mutate_node_db` returns; its answers are for the targets, one each and in their order; the
  -- counts of applied and failed targets add up to the number of targets; and all that it adds to
  -- the database is one audit row, which is committed.
  pub mutate_node_db-answers :
      (id : Uuid) (action target : String) (targets : List String) (actor source : String)
      (dry_run : Bool) (s : Session N) (d : ManagedNodeModel) (e : NodeEndpointModel)
      (provider : Provider N C) (conn : C) (n : N)
      → find_node id s.db ≡ some d
      → first_endpoint d.id s.db ≡ some e
      → registry d.provider ≡ some provider
      → provider.connect (connection_of e) s.net ≡ (ok conn, n)
      → ((m : N) → (provider.disconnect (some conn) m).0 ≡ ok tt)
      → ((t : String) (m : N)
          → IsAnswered (provider.mutate_node_db conn d.provider_node_id action t dry_run m).0)
      → let run = mutate_node_db registry id action (target ∷ targets) actor source dry_run s in
        (r : NodeDbResult) × (run.0 ≡ ok r)
        × (map target_of r.answers ≡ target ∷ targets)
        × (applied_count r.answers + failed_count r.answers ≡ r.target_count)
        × (run.1.db ≡ record s.db {
          audit_logs =
              s.db.audit_logs
              ++ audit_row s.db.next_id (mutate_entry registry actor source d r) ∷ [];
          next_id = s.db.next_id + 1;
        })
        × (run.1.committed ≡ run.1.db)
  unfolding mutate_node_db log
  mutate_node_db-answers id action target targets actor source dry_run s d e provider conn n hd he
        hp hc hx ha =
      let (answers, m, run, same) =
        mutate_each_lem provider conn d.provider_node_id action dry_run ha (target ∷ targets)
          (record s { net = n }) in
      let r : NodeDbResult = record {
        destination_node_id = d.provider_node_id;
        action = action;
        target_count = length (target ∷ targets);
        answers = answers;
        dry_run = dry_run;
      } in
      let whole : mutate_node_db registry id action (target ∷ targets) actor source dry_run s ≡ (
        ok r,
        logged (mutate_entry registry actor source d r)
            (record s { net = (provider.disconnect (some conn) m).1 }),
      ) =
        rw (hd, he, hp)
          (bind-eq
            (connected provider (connection_of e)
              (λ c. mutate_each provider c d.provider_node_id action dry_run (target ∷ targets)))
            (conclude actor source d action dry_run (length (target ∷ targets))) s
            (record s { net = (provider.disconnect (some conn) m).1 }) answers
            (connected_lem provider conn (connection_of e) _ s (record s { net = n })
              (record s { net = m }) (ok answers) (ap (λ o. (o.0, record s { net = o.1 })) hc) run
              (hx m))) in
      (
        r,
        ap (λ o. o.0) whole,
        same,
        counts answers ∙ ap length same,
        ap (λ o. o.1.db) whole,
        ap (λ o. o.1.committed) whole ∙ sym (ap (λ o. o.1.db) whole),
      )
