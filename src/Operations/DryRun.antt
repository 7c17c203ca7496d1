-- ===== src/Operations/DryRun.antt =====
-- `OperationsService.apply_patch` on a patch that goes to the radio: what is left of it when the
-- provider raises, and what a dry run writes.
use meshonator.Base.{
  ◌+◌, ◌≡◌, refl, ap, ◌∙◌, String, Bool, true, false, some, List, [], ◌∷◌, ◌++◌, arith, ◌==◌,
  nat_eq, find?, update_where,
}
use meshonator.Json.{Fields}
use meshonator.Audit.{log, audit_row}
use meshonator.Db.{Uuid, Time, ManagedNodeModel, NodeEndpointModel, Db}
use meshonator.Db.Session.{
  Exn, value_error, Result, Session, Exec, ok, raised, bind-eq, bind-raised, modify, commit, now,
  pure, gets, or_raise, ◌>>=◌, ◌>>◌,
}
use meshonator.Providers.{Provider, Registry, ConfigPatch, call, connected_lem}
use meshonator.Operations.{
  find_node, first_endpoint, connection_of, apply_patch, apply_remote, apply_connected, patched,
  renamed, set_node, remote_update_requested, patch_entry,
}

find_node-id :
    (id : Uuid) (d : ManagedNodeModel) (nodes : List ManagedNodeModel)
    → find? (λ n. n.id == id) nodes ≡ some d
    → d.id ≡ id
find_node-id id d [] h = cc
find_node-id id d (n ∷ nodes) h = ground (arith, find_node-id id d nodes)

patched-id :
    (dry_run : Bool) (p : ConfigPatch) (at : Time) (n : ManagedNodeModel)
    → (patched dry_run p at n).id ≡ n.id
unfolding patched renamed
patched-id true p at n = refl
patched-id false p at n = refl

find_patched :
    (id : Uuid) (dry_run : Bool) (p : ConfigPatch) (at : Time) (d : ManagedNodeModel)
    (nodes : List ManagedNodeModel)
    → find? (λ n. n.id == id) nodes ≡ some d
    → find? (λ n. n.id == id) (update_where (λ n. n.id == id) (patched dry_run p at) nodes)
      ≡ some (patched dry_run p at d)
find_patched id dry_run p at d [] h = cc
find_patched id dry_run p at d (n ∷ nodes) h =
    ground (arith, patched-id dry_run p at n, find_patched id dry_run p at d nodes)

-- the session after the patch is stored
abbrev stored : {N : Type 0} → Uuid → Bool → ConfigPatch → N → Session N → Session N
stored id dry_run p net s =
    let db : Db = set_node id (patched dry_run p (s.clock s.reads)) s.db in
    record s { db = db; committed = db; reads = s.reads + 1; net = net }

module _ {N C : Type 0} (registry : Registry N C) (p : ConfigPatch) (dry_run : Bool)
    (d : ManagedNodeModel) (e : NodeEndpointModel) (provider : Provider N C) (conn : C)
    (s : Session N) (n m : N) where
  abbrev provider_call : Exec N Fields
  provider_call = call (provider.apply_config_patch conn d.provider_node_id p dry_run)

  abbrev store : Fields → Exec N Fields
  store result = do at ← now; modify (set_node d.id (patched dry_run p at)); commit; pure result

  -- what the part under `try` does is what `apply_remote` does, with the connection closed
  apply_remote_lem :
      (r : Result Fields) (t : Session N)
      → first_endpoint d.id s.db ≡ some e
      → registry d.provider ≡ some provider
      → provider.connect (connection_of e) s.net ≡ (ok conn, n)
      → (provider_call >>= store) (record s { net = n }) ≡ (r, t)
      → (provider.disconnect (some conn) t.net).0 ≡ ok tt
      → apply_remote registry p dry_run d s
        ≡ (r, record t { net = (provider.disconnect (some conn) t.net).1 })
  unfolding apply_remote apply_connected
  apply_remote_lem r t he hp hc ha hx =
      rw (hp, he)
        (connected_lem provider conn (connection_of e)
          (apply_connected registry provider p dry_run d) s (record s { net = n }) t r
          (ap (λ o. (o.0, record s { net = o.1 })) hc) ha hx)

  abbrev finish : String → String → Fields → Exec N Fields
  finish actor source result = do
    again ← gets (find_node d.id)
    after ← or_raise again (value_error "Node not found")
    log (patch_entry registry actor source dry_run result p d after)
    pure result

  -- A patch that goes to the radio, on a node that is found with its endpoint and its provider, over
  -- a connection that is made and closed without an exception: if the provider raises while it
  -- applies the patch, `apply_patch` raises the same exception once the connection is closed, and
  -- neither the session's objects nor the database have changed.
  pub apply_patch-raised :
      (x : Exn) (actor source : String)
      → find_node d.id s.db ≡ some d
      → remote_update_requested p ≡ true
      → first_endpoint d.id s.db ≡ some e
      → registry d.provider ≡ some provider
      → provider.connect (connection_of e) s.net ≡ (ok conn, n)
      → provider.apply_config_patch conn d.provider_node_id p dry_run n ≡ (raised x, m)
      → (provider.disconnect (some conn) m).0 ≡ ok tt
      → apply_patch registry d.id p actor source dry_run s
        ≡ (raised x, record s { net = (provider.disconnect (some conn) m).1 })
  unfolding apply_patch
  apply_patch-raised x actor source hd hr he hp hc ha hx =
      rw (hd, hr)
        (bind-raised (apply_remote registry p dry_run d) (finish actor source) s
          (record s { net = (provider.disconnect (some conn) m).1 }) x
          (apply_remote_lem (raised x) (record s { net = m }) he hp hc
            (bind-raised provider_call store (record s { net = n }) (record s { net = m }) x
              (ap (λ o. (o.0, record s { net = o.1 })) ha))
            hx))

  abbrev logged_patch : Fields → String → String → ManagedNodeModel → Session N → Session N
  logged_patch result actor source after s =
      let db : Db = record s.db {
        audit_logs =
            s.db.audit_logs
            ++ audit_row s.db.next_id (patch_entry registry actor source dry_run result p d after)
              ∷ [];
        next_id = s.db.next_id + 1;
      } in
      record s { db = db; committed = db }

  pub apply_patch_lem :
      (result : Fields) (actor source : String)
      → find_node d.id s.db ≡ some d
      → remote_update_requested p ≡ true
      → first_endpoint d.id s.db ≡ some e
      → registry d.provider ≡ some provider
      → provider.connect (connection_of e) s.net ≡ (ok conn, n)
      → provider.apply_config_patch conn d.provider_node_id p dry_run n ≡ (ok result, m)
      → (provider.disconnect (some conn) m).0 ≡ ok tt
      → apply_patch registry d.id p actor source dry_run s ≡ (
        ok result,
        logged_patch result actor source
            (patched dry_run p (s.clock s.reads) d)
            (stored d.id dry_run p (provider.disconnect (some conn) m).1 s),
      )
  unfolding apply_patch log
  apply_patch_lem result actor source hd hr he hp hc ha hx =
      rw (hd, hr)
        (bind-eq (apply_remote registry p dry_run d) (finish actor source) s
            (stored d.id dry_run p (provider.disconnect (some conn) m).1 s) result
            (apply_remote_lem (ok result) (stored d.id dry_run p m s) he hp hc
              (bind-eq provider_call store (record s { net = n }) (record s { net = m }) result
                (ap (λ o. (o.0, record s { net = o.1 })) ha))
              hx)
          ∙ rw (find_patched d.id dry_run p (s.clock s.reads) d s.db.nodes hd) refl)

-- what a dry run should keep of the node, put back after a real run
abbrev pub kept : ConfigPatch → Time → ManagedNodeModel → ManagedNodeModel
kept p at n = record (patched false p at n) {
  short_name = n.short_name;
  long_name = n.long_name;
  role = n.role;
  favorite = n.favorite;
  latitude = n.latitude;
  longitude = n.longitude;
}
