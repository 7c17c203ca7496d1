-- ===== src/Console/Visibility.antt =====
-- api/app.py: `_build_visibility_snapshot`, which nodes of the fleet hear each other.
pub mod Pairs
mod Tests
use meshonator.Base.{
  ℕ, ◌+◌, ◌-◌, String, Bool, true, false, ◌&&◌, ◌||◌, not, Option, none, some, List, [], ◌∷◌, ◌++◌,
  ◌==◌, if◌then◌else◌, string_eq, nat_eq, any, contains, filter_by, length, map,
}
use meshonator.Base.Int.{pos}
use meshonator.Base.Sort.{sort_by}
use meshonator.Base.Text.{is_empty, lower, text_leb}
use meshonator.Console.Baseline.{with_result}
use meshonator.Console.Favorites.{target_id}
use meshonator.Console.Hops.{Candidate, extract_zero_hop_candidates}
use meshonator.Db.{Uuid, ManagedNodeModel}
use meshonator.Db.Session.{Result, ok, raised}

-- A node that a radio hears: its candidate, its id without blanks, and the managed node with that
-- id, from which the fields `managed_…` of its row are read.
pub record Peer : Type 0 where
  pub candidate : Candidate
  pub peer_id : String
  pub managed : Option ManagedNodeModel

pub record SourceRow : Type 0 where
  pub node : ManagedNodeModel
  pub managed_peers : List Peer
  pub unmanaged_peers : List Peer

-- `managed_by_provider_id.get(id)`: of two nodes with the id the later one
unfoldable managed_by_id : List ManagedNodeModel → String → Option ManagedNodeModel
managed_by_id [] id = none
managed_by_id (n ∷ nodes) id = elim (managed_by_id nodes id) [
  | some m ↦ some m
  | none ↦ if n.provider_node_id == id && not (is_empty id) then some n else none
]

abbrev is_managed : Peer → Bool
is_managed p = elim p.managed [ none ↦ false | some n ↦ true ]

abbrev add_peer : List ManagedNodeModel → String → Candidate → List String → List Peer → List Peer
add_peer nodes source_id c [] peers = peers
add_peer nodes source_id c (id ∷ ids) peers =
    if id == source_id
    then peers
    else (record { candidate = c; peer_id = id; managed = managed_by_id nodes id }) ∷ peers

-- the peers of a node, itself left out
unfoldable peers_of : List ManagedNodeModel → String → List Candidate → List Peer
peers_of nodes source_id [] = []
peers_of nodes source_id (c ∷ candidates) =
    add_peer nodes source_id c (target_id c.id) (peers_of nodes source_id candidates)

abbrev or_text : Option String → String → String
or_text none default = default
or_text (some s) default = if is_empty s then default else s

abbrev node_before : ManagedNodeModel → ManagedNodeModel → Bool
node_before a b =
    let name_a = lower (or_text a.short_name a.provider_node_id) in
    let name_b = lower (or_text b.short_name b.provider_node_id) in
    if name_a == name_b
    then text_leb a.provider_node_id b.provider_node_id
    else text_leb name_a name_b

-- the loop over the sorted nodes
unfoldable source_rows : List ManagedNodeModel → List ManagedNodeModel → Result (List SourceRow)
source_rows nodes [] = ok []
source_rows nodes (n ∷ rest) =
    with_result (extract_zero_hop_candidates n.raw_metadata (pos 0)) λ candidates.
      with_result (source_rows nodes rest) λ rows.
        let peers : List Peer = peers_of nodes n.provider_node_id candidates in
        ok (
          (record {
            node = n;
            managed_peers = filter_by is_managed peers;
            unmanaged_peers = filter_by (λ p. not (is_managed p)) peers;
          })
          ∷ rows)

-- of two rows with the id the later one
unfoldable pub row_by_id : List SourceRow → String → Option SourceRow
row_by_id [] id = none
row_by_id (r ∷ rows) id = elim (row_by_id rows id) [
  | some s ↦ some s
  | none ↦ if r.node.provider_node_id == id then some r else none
]

abbrev peer_ids : Option SourceRow → List String
peer_ids none = []
peer_ids (some r) = map (λ p. p.peer_id) r.managed_peers

abbrev favorite_ids : Option SourceRow → List String
favorite_ids none = []
favorite_ids (some r) =
    map (λ p. p.peer_id) (filter_by (λ p. p.candidate.is_favorite) r.managed_peers)

-- a source with one of its managed peers
pub record Link : Type 0 where
  pub row : SourceRow
  pub peer : Peer

unfoldable pub links_of_row : SourceRow → List Peer → List Link
links_of_row r [] = []
links_of_row r (p ∷ peers) = (record { row = r; peer = p }) ∷ links_of_row r peers

unfoldable pub links_of : List SourceRow → List Link
links_of [] = []
links_of (r ∷ rows) = links_of_row r r.managed_peers ++ links_of rows

abbrev source_id : Link → String
source_id l = l.row.node.provider_node_id

-- `tuple(sorted((source_id, target_id)))`
abbrev pub pair_key : Link → String × String
pair_key l =
    if text_leb (source_id l) l.peer.peer_id
    then (source_id l, l.peer.peer_id)
    else (l.peer.peer_id, source_id l)

abbrev pub has_pair : List (String × String) → String × String → Bool
has_pair keys k = any (λ j. j.0 == k.0 && j.1 == k.1) keys

abbrev pub add_if : Bool → Link → List Link → List Link
add_if b l links = if b then l ∷ links else links

module _ (rows : List SourceRow) where
  -- the target hears the source too
  unfoldable pub is_mutual : Link → Bool
  is_mutual l = contains (peer_ids (row_by_id rows l.peer.peer_id)) (source_id l)

  -- The loop over the links, by the keys that were seen: the links of the mutual pairs, and those of
  -- the one-way pairs.
  unfoldable pub link_pairs : List (String × String) → List Link → List Link × List Link
  link_pairs seen [] = ([], [])
  link_pairs seen (l ∷ links) =
      let fresh : Bool = is_mutual l && not (has_pair seen (pair_key l)) in
      let (both_ways, one_way) = link_pairs (if fresh then pair_key l ∷ seen else seen) links in
      (add_if fresh l both_ways, add_if (not (is_mutual l)) l one_way)

-- one end of a pair; the rows of one-way pairs do not show the long names
pub record Side : Type 0 where
  pub node_id : Option Uuid
  pub provider_node_id : String
  pub short_name : Option String
  pub long_name : Option String
  pub reachable : Option Bool

abbrev side_of : String → Option String → Option String → Option ManagedNodeModel → Side
side_of id short_name long_name none = record {
  node_id = none;
  provider_node_id = id;
  short_name = short_name;
  long_name = long_name;
  reachable = none;
}
side_of id short_name long_name (some n) = record {
  node_id = some n.id;
  provider_node_id = id;
  short_name = n.short_name;
  long_name = n.long_name;
  reachable = some n.reachable;
}

pub record Pair : Type 0 where
  pub left : Side
  pub right : Side
  pub left_marks_right_favorite : Bool
  pub right_marks_left_favorite : Bool

abbrev short_of : Option ManagedNodeModel → Option String
short_of none = none
short_of (some n) = n.short_name

abbrev long_of : Option SourceRow → Option String
long_of none = none
long_of (some r) = r.node.long_name

unfoldable pair_of : List ManagedNodeModel → List SourceRow → Link → Pair
pair_of nodes rows l =
    let s : String = source_id l in
    let t : String = l.peer.peer_id in
    record {
      left = side_of s l.row.node.short_name l.row.node.long_name (managed_by_id nodes s);
      right =
          side_of t (short_of l.peer.managed) (long_of (row_by_id rows t)) (managed_by_id nodes t);
      left_marks_right_favorite = contains (favorite_ids (row_by_id rows s)) t;
      right_marks_left_favorite = contains (favorite_ids (row_by_id rows t)) s;
    }

abbrev pair_before : Pair → Pair → Bool
pair_before a b =
    let name : Side → String = λ s. lower (or_text s.short_name s.provider_node_id) in
    if name a.left == name b.left
    then text_leb (name a.right) (name b.right)
    else text_leb (name a.left) (name b.left)

abbrev favorite_count : SourceRow → ℕ
favorite_count r = length (filter_by (λ p. p.candidate.is_favorite) r.managed_peers)

unfoldable pub total : (SourceRow → ℕ) → List SourceRow → ℕ
total count [] = 0
total count (r ∷ rows) = count r + total count rows

pub record Visibility : Type 0 where
  pub rows : List SourceRow
  pub mutual_pairs : List Pair
  pub one_way_pairs : List Pair
  pub nodes_total : ℕ
  pub nodes_with_zero_hop : ℕ
  pub managed_directional_links : ℕ
  pub favorite_gaps : ℕ
  pub unmanaged_seen : ℕ

abbrev snapshot_of : List ManagedNodeModel → List SourceRow → Visibility
snapshot_of nodes rows =
    let (both_ways, one_way) = link_pairs rows [] (links_of rows) in
    record {
      rows = sort_by (λ r s. node_before r.node s.node) rows;
      mutual_pairs = sort_by pair_before (map (pair_of nodes rows) both_ways);
      one_way_pairs = sort_by pair_before (map (pair_of nodes rows) one_way);
      nodes_total = length nodes;
      nodes_with_zero_hop =
          total (λ r. if length r.managed_peers == 0 && length r.unmanaged_peers == 0 then 0 else 1)
            rows;
      managed_directional_links = total (λ r. length r.managed_peers) rows;
      favorite_gaps = total (λ r. length r.managed_peers - favorite_count r) rows;
      unmanaged_seen = total (λ r. length r.unmanaged_peers) rows;
    }

unfoldable build_visibility_snapshot : List ManagedNodeModel → Result Visibility
build_visibility_snapshot nodes =
    with_result (source_rows nodes (sort_by node_before nodes))
      (λ rows. ok (snapshot_of nodes rows))
