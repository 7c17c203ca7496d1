-- ===== src/Groups/Tests.antt =====
-- Groups, their members and their filters on a small database.
use meshonator.Base.{
  ◌≡◌, refl, Bool, true, false, not, ◌&&◌, ◌||◌, none, List, [], ◌∷◌, ◌==◌, nat_eq, contains,
  count_by, any, arith, string_eq,
}
use meshonator.Json.{end, field, bool, get}
use meshonator.Db.{Uuid, ManagedNodeModel, NodeGroupModel, Db, empty_db, minutes}
use meshonator.Db.Session.{Session, ok, raised, integrity_error}
use meshonator.Groups.{is_member, unique_members, member_ids, assign_nodes, remove_nodes}
use meshonator.Groups.Members.{assigned, assign_nodes_lem}
use meshonator.Groups.Members.Repeated.{assign_nodes_repeated}
use meshonator.Groups.Members.Removed.{remove_nodes-assign_nodes}
use meshonator.Groups.Relation.{
  assigns, removes, relation, meanings, perform_all, perform_all-meanings,
}
use meshonator.Groups.Filters.{bbox_error}
use meshonator.Groups.Resolve.{
  resolve_all_members, resolve_all_members_lem, unique_ids, has_id, filter_selects,
}

abbrev node : Uuid → Bool → ManagedNodeModel
node id reachable = record {
  id = id;
  provider = "meshtastic";
  provider_node_id = "!1";
  node_num = none;
  short_name = none;
  long_name = none;
  firmware_version = none;
  hardware_model = none;
  role = none;
  favorite = true;
  managed = true;
  latitude = none;
  longitude = none;
  altitude = none;
  location_source = none;
  first_seen = none;
  last_seen = none;
  last_successful_sync = none;
  reachable = reachable;
  raw_metadata = end;
  capability_matrix = end;
}

abbrev some_groups : Db
some_groups = record empty_db {
  nodes = node 1 true ∷ node 2 false ∷ node 3 true ∷ [];
  members = (record { id = 10; group_id = 20; node_id = 2 }) ∷ [];
  next_id = 30;
}

abbrev group_session : Session (Unit {0})
group_session = record {
  db = some_groups;
  committed = some_groups;
  clock = minutes;
  reads = 0;
  net = tt;
}

unique_members-some_groups : unique_members some_groups.members ≡ true
unfolding unique_members nat_eq
unique_members-some_groups = refl

assign_nodes_lem_example :
    ((assign_nodes 20 (1 ∷ 2 ∷ []) group_session).0
      ≡ ok (count_by (λ n. not (contains (member_ids 20 some_groups) n)) (1 ∷ 2 ∷ [])))
    × (unique_members (assigned 20 (1 ∷ 2 ∷ []) group_session).db.members ≡ true)
    × ((h k : Uuid)
        → any (is_member h k) (assigned 20 (1 ∷ 2 ∷ []) group_session).db.members
          ≡ (any (is_member h k) some_groups.members || (h == 20 && contains (1 ∷ 2 ∷ []) k)))
assign_nodes_lem_example =
    assign_nodes_lem 20 (1 ∷ 2 ∷ []) group_session unique_members-some_groups (ground arith)

assign_nodes_repeated_example :
    ((assign_nodes 20 (3 ∷ 1 ∷ 1 ∷ []) group_session).0 ≡ raised (integrity_error "IntegrityError"))
    × ((assign_nodes 20 (3 ∷ 1 ∷ 1 ∷ []) group_session).1.db ≡ group_session.committed)
    × ((assign_nodes 20 (3 ∷ 1 ∷ 1 ∷ []) group_session).1.committed ≡ group_session.committed)
assign_nodes_repeated_example =
    assign_nodes_repeated 20 1 (3 ∷ 1 ∷ 1 ∷ []) group_session (ground arith) (ground arith)

not_member :
    (k : Uuid) → (contains (1 ∷ 3 ∷ []) k && any (is_member 20 k) some_groups.members) ≡ false
not_member k = ground arith

remove_nodes-assign_nodes_example :
    any
      (is_member 20 2)
      (remove_nodes 20 (1 ∷ 3 ∷ []) (assign_nodes 20 (1 ∷ 3 ∷ []) group_session).1).1.db.members
    ≡ any (is_member 20 2) some_groups.members
remove_nodes-assign_nodes_example =
    remove_nodes-assign_nodes 20 (1 ∷ 3 ∷ []) group_session unique_members-some_groups
      (ground arith) not_member 20 2

abbrev reachable_nodes : NodeGroupModel
reachable_nodes = record {
  id = 20;
  name = "up";
  description = none;
  dynamic_filter = field "reachable" (bool true) end;
  desired_config_template = end;
}

no_bbox : bbox_error (get "bbox" reachable_nodes.dynamic_filter) ≡ none
unfolding bbox_error get string_eq
no_bbox = refl

resolve_all_members_lem_example :
    (ns : List ManagedNodeModel) × (resolve_all_members reachable_nodes group_session
      ≡ (ok ns, group_session))
    × (unique_ids ns ≡ true)
    × ((k : Uuid)
        → has_id k ns
          ≡ any
              (λ n.
                n.id == k
                && (any (is_member 20 n.id) some_groups.members
                    || filter_selects reachable_nodes.dynamic_filter n))
              some_groups.nodes)
resolve_all_members_lem_example = resolve_all_members_lem group_session reachable_nodes no_bbox

perform_all-meanings_example :
    (unique_members
        (perform_all (assigns 20 (3 ∷ 2 ∷ []) ∷ removes 20 (2 ∷ []) ∷ []) group_session).db.members
      ≡ true)
    × (relation (perform_all (assigns 20 (3 ∷ 2 ∷ []) ∷ removes 20 (2 ∷ []) ∷ []) group_session)
        ≡ meanings (assigns 20 (3 ∷ 2 ∷ []) ∷ removes 20 (2 ∷ []) ∷ []) (relation group_session))
unfolding nat_eq
perform_all-meanings_example =
    perform_all-meanings (assigns 20 (3 ∷ 2 ∷ []) ∷ removes 20 (2 ∷ []) ∷ []) group_session
      (refl, (tt, tt)) unique_members-some_groups
