-- ===== src/Groups.antt =====
-- groups/service.py: `GroupsService`.
pub mod Members
pub mod Filters
pub mod Resolve
pub mod Relation
mod Tests
use meshonator.Base.{
  ℕ, ◌+◌, ◌≡◌, String, Bool, true, false, not, ◌&&◌, ◌||◌, Option, none, some, List, [], ◌∷◌, ◌++◌,
  map, ◌==◌, if◌then◌else◌, nat_eq, string_eq, contains, find?, filter_by, update_where, count_by,
  any,
}
use meshonator.Base.Assoc.{insert, values, Dict}
use meshonator.Base.Sort.{sort_by}
use meshonator.Base.Text.{text_leb, is_empty}
use meshonator.Json.{Fields, end}
use meshonator.Db.{Uuid, NodeGroupModel, NodeGroupMemberModel, ManagedNodeModel, Db}
use meshonator.Db.Session.{
  value_error, other_error, Session, Exec, ok, raised, pure, raise, gets, or_raise, ◌>>=◌, ◌>>◌,
  modify, commit, commit_if, rollback, new_id,
}

abbrev pub is_member : Uuid → Uuid → NodeGroupMemberModel → Bool
is_member group_id node_id m = m.group_id == group_id && m.node_id == node_id

-- the constraint `uq_group_node`
unfoldable pub unique_members : List NodeGroupMemberModel → Bool
unique_members [] = true
unique_members (m ∷ ms) = not (any (is_member m.group_id m.node_id) ms) && unique_members ms

-- the constraint on the name of a group
unfoldable unique_names : List NodeGroupModel → Bool
unique_names [] = true
unique_names (g ∷ gs) = not (any (λ h. h.name == g.name) gs) && unique_names gs

abbrev pub member_ids : Uuid → Db → List Uuid
member_ids group_id db = map (λ m. m.node_id) (filter_by (λ m. m.group_id == group_id) db.members)

abbrev pub is_removed : Uuid → List Uuid → NodeGroupMemberModel → Bool
is_removed group_id node_ids m = m.group_id == group_id && contains node_ids m.node_id

module _ {N : Type 0} where
  unfoldable list_groups : Exec N (List NodeGroupModel)
  list_groups = gets (λ db. sort_by (λ a b. text_leb a.name b.name) db.groups)

  unfoldable pub get_group : Uuid → Exec N (Option NodeGroupModel)
  get_group group_id = gets (λ db. find? (λ g. g.id == group_id) db.groups)

  unfoldable get_group_by_name : String → Exec N (Option NodeGroupModel)
  get_group_by_name name = gets (λ db. find? (λ g. g.name == name) db.groups)

  unfoldable create_group : String → Option String → Fields → Fields → Exec N NodeGroupModel
  create_group name description dynamic_filter desired_config_template = do
    id ← new_id
    let group : NodeGroupModel = record {
      id = id;
      name = name;
      description = description;
      dynamic_filter = dynamic_filter;
      desired_config_template = desired_config_template;
    }
    modify (λ db. record db { groups = db.groups ++ group ∷ [] })
    commit_if (λ db. unique_names db.groups)
    pure group

  unfoldable update_group : Uuid → Option String → Fields → Fields → Exec N (Unit {0})
  update_group group_id description dynamic_filter desired_config_template = do
    group ← gets (λ db. find? (λ g. g.id == group_id) db.groups)
    or_raise group (value_error "Group not found")
    modify (λ db. record db {
      groups =
          update_where (λ g. g.id == group_id)
            (λ g. record g {
              description = description;
              dynamic_filter = dynamic_filter;
              desired_config_template = desired_config_template;
            })
            db.groups;
    })
    commit

  abbrev add_member : Uuid → Uuid → Exec N (Unit {0})
  add_member group_id node_id = do
    id ← new_id
    modify (λ db. record db {
      members = db.members ++ (record { id = id; group_id = group_id; node_id = node_id }) ∷ [];
    })

  unfoldable assign_node : Uuid → Uuid → Exec N (Unit {0})
  assign_node group_id node_id = do
    existing ← gets (λ db. find? (is_member group_id node_id) db.members)
    elim existing [
      | none ↦ add_member group_id node_id >> commit_if (λ db. unique_members db.members)
      | some m ↦ pure tt
    ]

  -- the loop of `assign_nodes`
  unfoldable pub assign_each : Uuid → List Uuid → List Uuid → Exec N ℕ
  assign_each group_id existing_ids [] = pure 0
  assign_each group_id existing_ids (node_id ∷ node_ids) =
      if contains existing_ids node_id then assign_each group_id existing_ids node_ids else (do
        add_member group_id node_id
        assigned ← assign_each group_id existing_ids node_ids
        pure (assigned + 1))

  unfoldable pub assign_nodes : Uuid → List Uuid → Exec N ℕ
  assign_nodes group_id node_ids = do
    existing_ids ← gets (member_ids group_id)
    assigned ← assign_each group_id existing_ids node_ids
    if assigned == 0 then pure tt else commit_if (λ db. unique_members db.members)
    pure assigned

  unfoldable pub remove_node : Uuid → Uuid → Exec N (Unit {0})
  remove_node group_id node_id = do
    modify (λ db. record db {
      members = filter_by (λ m. not (is_member group_id node_id m)) db.members;
    })
    commit

  -- `list(dict.fromkeys(node_ids))` only drops repetitions, which `IN (…)` does not see
  unfoldable pub remove_nodes : Uuid → List Uuid → Exec N ℕ
  remove_nodes group_id [] = pure 0
  remove_nodes group_id (node_id ∷ node_ids) = do
    let ids : List Uuid = node_id ∷ node_ids
    rowcount ← gets (λ db. count_by (is_removed group_id ids) db.members)
    modify
        (λ db. record db { members = filter_by (λ m. not (is_removed group_id ids m)) db.members })
    commit
    pure rowcount
