-- ===== src/Console/Favorites.antt =====
-- api/app.py: `_collect_current_routing_favorite_targets`, the nodes that the radios have as favorites.
-- The `str` of a role is a parameter.
use meshonator.Base.{
  String, Bool, true, false, ◌&&◌, Option, some, List, [], ◌∷◌, ◌++◌, if◌then◌else◌, string_eq,
  contains,
}
use meshonator.Base.Text.{strip, upper, is_empty}
use meshonator.Json.{Value, bool, str, obj, Fields, end, field, get, truthy, dict_or_empty}
use meshonator.Db.{ManagedNodeModel}
use meshonator.Console.Nested.{or_null}
use meshonator.Discovery.{sorted_set}

-- `payload.get("isFavorite") is True`
unfoldable pub is_favorite : Option Value → Bool
is_favorite (some (bool b)) = b
is_favorite value = false

-- `not allowed_roles or role in allowed_roles`
unfoldable is_allowed : List String → String → Bool
is_allowed [] role = true
is_allowed (allowed ∷ roles) role = contains (allowed ∷ roles) role

-- the stripped text, if it is a text with something in it
unfoldable pub target_id : Value → List String
target_id (str id) = if is_empty (strip id) then [] else strip id ∷ []
target_id value = []

-- `user.get("id") or node_id`
unfoldable pub resolved_id : Fields → String → Value
resolved_id user node_id =
    let id : Value = or_null (get "id" user) in if truthy id then id else str node_id

module _ (str_of : Value → String) where
  -- `str(user.get("role") or "").upper().strip()`
  unfoldable role_of : Fields → String
  role_of user =
      let role : Value = or_null (get "role" user) in
      strip (upper (if truthy role then str_of role else ""))

  -- one node of the mesh
  unfoldable favorite_targets : List String → String → Fields → List String
  favorite_targets allowed_roles node_id payload =
      let user : Fields = dict_or_empty (get "user" payload) in
      if is_favorite (get "isFavorite" payload) && is_allowed allowed_roles (role_of user)
      then target_id (resolved_id user node_id)
      else []

  unfoldable mesh_targets : List String → Fields → List String
  mesh_targets allowed_roles end = []
  mesh_targets allowed_roles (field node_id (obj payload) nodes_in_mesh) =
      favorite_targets allowed_roles node_id payload ++ mesh_targets allowed_roles nodes_in_mesh
  mesh_targets allowed_roles (field node_id value nodes_in_mesh) =
      mesh_targets allowed_roles nodes_in_mesh

  unfoldable source_targets : List String → List ManagedNodeModel → List String
  source_targets allowed_roles [] = []
  source_targets allowed_roles (source ∷ source_nodes) =
      mesh_targets allowed_roles (dict_or_empty (get "nodesInMesh" source.raw_metadata))
      ++ source_targets allowed_roles source_nodes

  unfoldable collect_current_routing_favorite_targets :
      List ManagedNodeModel → List String → List String
  collect_current_routing_favorite_targets source_nodes allowed_roles =
      sorted_set (source_targets allowed_roles source_nodes)
