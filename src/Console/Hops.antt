-- ===== src/Console/Hops.antt =====
-- api/app.py: `_extract_zero_hop_candidates`, `_filter_zero_hop_candidates`,
-- `_find_managed_nodes_for_candidates` and `_collect_routing_favorite_targets`: the nodes that a radio
-- hears over a number of hops. The `str` of a role is a parameter.
pub mod Heard
pub mod Sorted
use meshonator.Base.{
  ℕ, ◌+◌, ◌*◌, ◌&&◌, String, Bool, true, false, not, Option, none, some, List, [], ◌∷◌, ◌++◌, ◌==◌,
  if◌then◌else◌, string_eq, contains, filter_by, ltb, map,
}
use meshonator.Base.Int.{ℤ, ltb_ℤ, pos_part, neg_part, int_eq}
use meshonator.Base.Text.{upper, text_leb}
use meshonator.Console.Favorites.{is_favorite as is_favorite_flag, resolved_id, target_id}
use meshonator.Console.Nested.{or_null}
use meshonator.Console.Baseline.{with_result}
use meshonator.Db.{ManagedNodeModel, Db}
use meshonator.Db.Session.{Exn, other_error, Result, ok, raised}
use meshonator.Discovery.{sorted_set}
use meshonator.Json.{Value, null, str, obj, Fields, end, field, get, truthy, as_int, dict_or_empty}
use meshonator.Json.Equal.{same, number}
use Prim.Native.Nat.{◌^◌}

pub record Candidate : Type 0 where
  pub id : Value
  pub short_name : Value
  pub long_name : Value
  pub role : Value
  pub hw_model : Value
  pub hops_away : ℤ
  pub last_heard : Value
  pub snr : Value
  pub is_favorite : Bool

-- `item.get("short_name") or item.get("id") or ""`
unfoldable pub name_of : Candidate → Value
name_of c = if truthy c.short_name then c.short_name else if truthy c.id then c.id else str ""

abbrev number_lt : Option (ℤ × ℕ) → Option (ℤ × ℕ) → Option Bool
number_lt (some (a, j)) (some (b, k)) =
    some (ltb (pos_part a * 2 ^ k + neg_part b * 2 ^ j) (pos_part b * 2 ^ j + neg_part a * 2 ^ k))
number_lt _ _ = none

-- `<` on two names: texts or numbers; `none` is the TypeError of other pairs
unfoldable pub value_lt : Value → Value → Option Bool
value_lt (str s) (str t) = some (not (text_leb t s))
value_lt v w = number_lt (number v) (number w)

-- `<` on the tuples of hops and names
unfoldable pub candidate_lt : Candidate → Candidate → Option Bool
candidate_lt a b =
    if a.hops_away == b.hops_away
    then if same (name_of a) (name_of b) then some false else value_lt (name_of a) (name_of b)
    else some (ltb_ℤ a.hops_away b.hops_away)

-- a stable insertion, by `lt`
abbrev pub inserted :
    Option Bool → List Candidate → Result (List Candidate) → Result (List Candidate)
inserted none here further = raised (other_error "TypeError")
inserted (some true) here further = further
inserted (some false) here further = ok here

unfoldable pub insert_candidate : Candidate → List Candidate → Result (List Candidate)
insert_candidate x [] = ok (x ∷ [])
insert_candidate x (y ∷ ys) =
    inserted (candidate_lt y x) (x ∷ y ∷ ys)
      (with_result (insert_candidate x ys) (λ zs. ok (y ∷ zs)))

-- `out.sort(key=…)`
unfoldable pub sort_candidates : List Candidate → Result (List Candidate)
sort_candidates [] = ok []
sort_candidates (x ∷ xs) = with_result (sort_candidates xs) (insert_candidate x)

abbrev pub candidate : String → Fields → ℤ → Candidate
candidate node_id payload hops_away =
    let user : Fields = dict_or_empty (get "user" payload) in
    record {
      id = resolved_id user node_id;
      short_name = or_null (get "shortName" user);
      long_name = or_null (get "longName" user);
      role = or_null (get "role" user);
      hw_model = or_null (get "hwModel" user);
      hops_away = hops_away;
      last_heard = or_null (get "lastHeard" payload);
      snr = or_null (get "snr" payload);
      is_favorite = is_favorite_flag (get "isFavorite" payload);
    }

abbrev pub within : ℤ → Option ℤ → Option ℤ
within max_hops none = none
within max_hops (some hops_away) = if ltb_ℤ max_hops hops_away then none else some hops_away

abbrev pub hops_of : Option Value → Option ℤ
hops_of none = none
hops_of (some v) = as_int v

-- the loop over the nodes of the mesh
unfoldable pub candidates_of : ℤ → Fields → List Candidate
candidates_of max_hops end = []
candidates_of max_hops (field node_id (obj payload) nodes) =
    let rest = candidates_of max_hops nodes in
    elim (within max_hops (hops_of (get "hopsAway" payload))) [
      | none ↦ rest
      | some hops_away ↦ candidate node_id payload hops_away ∷ rest
    ]
candidates_of max_hops (field node_id value nodes) = candidates_of max_hops nodes

unfoldable pub extract_zero_hop_candidates : Fields → ℤ → Result (List Candidate)
extract_zero_hop_candidates raw_metadata max_hops =
    sort_candidates (candidates_of max_hops (dict_or_empty (get "nodesInMesh" raw_metadata)))

-- the ids that can be targets
unfoldable targets_of : List Candidate → List String
targets_of [] = []
targets_of (c ∷ candidates) = target_id c.id ++ targets_of candidates

module _ (str_of : Value → String) where
  abbrev is_allowed_candidate : List String → Candidate → Bool
  is_allowed_candidate allowed_roles c = contains allowed_roles (upper (str_of c.role))

  unfoldable filter_zero_hop_candidates : Fields → ℤ → List String → Result (List Candidate)
  filter_zero_hop_candidates raw_metadata max_hops [] =
      extract_zero_hop_candidates raw_metadata max_hops
  filter_zero_hop_candidates raw_metadata max_hops (role ∷ roles) =
      with_result (extract_zero_hop_candidates raw_metadata max_hops)
        (λ candidates. ok (filter_by (is_allowed_candidate (role ∷ roles)) candidates))

  -- the loop over the sources
  unfoldable routing_targets : List ManagedNodeModel → List String → ℤ → Result (List String)
  routing_targets [] allowed_roles max_hops = ok []
  routing_targets (source ∷ source_nodes) allowed_roles max_hops =
      with_result (filter_zero_hop_candidates source.raw_metadata max_hops allowed_roles)
        λ candidates.
          with_result (routing_targets source_nodes allowed_roles max_hops)
            λ targets. ok (targets_of candidates ++ targets)

  unfoldable collect_routing_favorite_targets :
      List ManagedNodeModel → List String → ℤ → Result (List String)
  collect_routing_favorite_targets source_nodes allowed_roles max_hops =
      with_result (routing_targets source_nodes allowed_roles max_hops)
        (λ targets. ok (sorted_set targets))

abbrev id_of : Value → List String
id_of (str id) = id ∷ []
id_of value = []

-- the ids that are texts
unfoldable pub candidate_ids : List Candidate → List String
candidate_ids [] = []
candidate_ids (c ∷ candidates) = id_of c.id ++ candidate_ids candidates

-- without an id nothing is asked of the database; with none, no row is selected either
unfoldable find_managed_nodes_for_candidates : String → List Candidate → Db → List ManagedNodeModel
find_managed_nodes_for_candidates provider candidates db =
    filter_by
      (λ n. n.provider == provider && contains (candidate_ids candidates) n.provider_node_id)
      db.nodes
