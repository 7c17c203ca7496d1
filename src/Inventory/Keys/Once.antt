-- ===== src/Inventory/Keys/Once.antt =====
-- The loop of `upsert_nodes` keeps one row for a node of a provider.
use mathlib.Core.Path.{subst}
use meshonator.Base.{
  ◌≡◌, refl, sym, ap, ◌∙◌, String, true, false, Option, none, some, List, [], ◌∷◌, ◌++◌, ◌==◌,
  nat_eq, string_eq, find?, arith, Option-cases, inl, inr, ==_refl, All,
}
use meshonator.Base.Text.{starts_with}
use meshonator.Db.{Uuid, Time, ManagedNodeModel, NodeEndpointModel, Db}
use meshonator.Db.Session.{Session}
use meshonator.Inventory.{
  ManagedNode, Origin, has_key, locate, by_key, nowhere, refreshed, blank_row, assign, add_row,
  is_endpoint, node_row, touch_endpoint, Unflushed, upsert_one, upsert_each, upsert_nodes, flushed,
}
use meshonator.Inventory.Keys.{
  Key, keys, has, EachKeyOnce, Named, has-append, EachKeyOnce-add, Named-add, keys-append,
  keys-update_where, has-find, has-absent, placeholder-Named, not_unknown,
}

-- the keys of the objects of the session
abbrev object_keys : Unflushed → List Key
object_keys u = keys u.tables.nodes

-- the objects have the keys of the rows, each once, and none of them is a placeholder
abbrev Good : Unflushed → Type 0
Good u = (keys u.seen.nodes ≡ object_keys u) × Named (object_keys u) × EachKeyOnce (object_keys u)

-- the node is there afterwards, and so is all that was there
abbrev Saved : ManagedNode → List Key → List Key → Type 0
Saved node before after =
    (has node.provider node.provider_node_id after ≡ true)
    × ((p i : String) → has p i before ≡ true → has p i after ≡ true)

locate-known :
    (node : ManagedNode) (endpoint : String) (seen : Db) (n : ManagedNodeModel)
    → find? (has_key node.provider node.provider_node_id) seen.nodes ≡ some n
    → locate node endpoint seen ≡ by_key n
unfolding locate
locate-known node endpoint seen n h = rw h refl

locate-new :
    (node : ManagedNode) (endpoint : String) (seen : Db)
    → starts_with node.provider_node_id "local-" ≡ false
    → Named (keys seen.nodes)
    → find? (has_key node.provider node.provider_node_id) seen.nodes ≡ none
    → locate node endpoint seen ≡ nowhere
unfolding locate
locate-new node endpoint seen named all h = rw h (
    rw (not_unknown node.provider_node_id named)
      (rw (placeholder-Named node.provider endpoint seen all) refl))

has-added :
    (node : ManagedNode) (before : List Key)
    → Saved node before (before ++ (node.provider, node.provider_node_id) ∷ [])
has-added node before = (
  ground (
    arith,
    has-append node.provider node.provider_node_id before
        ((node.provider, node.provider_node_id) ∷ []),
    ==_refl node.provider,
    ==_refl node.provider_node_id,
  ),
  λ p i there.
      ground (arith, there, has-append p i before ((node.provider, node.provider_node_id) ∷ [])),
)

added_row :
    (node : ManagedNode) (at : Time) (db : Db)
    → starts_with node.provider_node_id "local-" ≡ false
    → Named (keys db.nodes)
    → EachKeyOnce (keys db.nodes)
    → has node.provider node.provider_node_id (keys db.nodes) ≡ false
    → ((keys (add_row node at db).nodes ≡ keys (add_row node at db).nodes)
        × Named (keys (add_row node at db).nodes)
        × EachKeyOnce (keys (add_row node at db).nodes))
      × Saved node (keys db.nodes) (keys (add_row node at db).nodes)
unfolding blank_row
added_row node at db named all once new =
    let p : String = node.provider in
    let i : String = node.provider_node_id in
    let e : keys (add_row node at db).nodes ≡ keys db.nodes ++ (p, i) ∷ [] =
      keys-append db.nodes (blank_row node at db.next_id ∷ []) in
    (
      (
        refl,
        subst Named (sym e) (Named-add p i (keys db.nodes) all named),
        subst EachKeyOnce (sym e) (EachKeyOnce-add p i (keys db.nodes) once new),
      ),
      subst (Saved node (keys db.nodes)) (sym e) (has-added node (keys db.nodes)),
    )

node_row-Good :
    (node : ManagedNode) (o : Origin) (at : Time) (u : Unflushed)
    → starts_with node.provider_node_id "local-" ≡ false
    → Good u
    → Good (node_row node o at u).0
      × Saved node (object_keys u) (object_keys (node_row node o at u).0)
unfolding node_row
node_row-Good node o at u named (same, all, once) =
    elim (Option-cases (find? (has_key node.provider node.provider_node_id) u.seen.nodes)) [
      | inr (n, h) ↦
          rw (locate-known node o.endpoint u.seen n h, node_row)
            (
              (same, all, once),
              (
                rw (sym same) (has-find node.provider node.provider_node_id u.seen.nodes n h),
                λ p i there. there,
              ),
            )
      | inl h ↦
          rw (locate-new node o.endpoint u.seen named (subst Named (sym same) all) h, node_row)
            (added_row node at u.tables named all once (
              subst (λ ks. has node.provider node.provider_node_id ks ≡ false) same
                (has-absent node.provider node.provider_node_id u.seen.nodes h)))
    ]

touch_endpoint-nodes :
    (id : Uuid) (o : Origin) (at : Time) (found : Option NodeEndpointModel) (db : Db)
    → (touch_endpoint id o at found db).nodes ≡ db.nodes
unfolding touch_endpoint
touch_endpoint-nodes id o at none db = refl
touch_endpoint-nodes id o at (some row) db = refl

-- the assignments of a round leave the keys alone
upsert_one-keys :
    (node : ManagedNode) (o : Origin) (at : Time) (u : Unflushed)
    → object_keys (upsert_one node o at u).0 ≡ object_keys (node_row node o at u).0
unfolding upsert_one
upsert_one-keys node o at u =
    let (u', id) = node_row node o at u in
    ap keys (
      touch_endpoint-nodes id o at (find? (is_endpoint id o.endpoint) u'.seen.node_endpoints)
        (assign id (refreshed node at) u'.tables))
    ∙ keys-update_where (λ n. n.id == id) node at u'.tables.nodes

upsert_one-Good :
    (node : ManagedNode) (o : Origin) (at : Time) (u : Unflushed)
    → starts_with node.provider_node_id "local-" ≡ false
    → Good u
    → Good (upsert_one node o at u).0
      × Saved node (object_keys u) (object_keys (upsert_one node o at u).0)
unfolding upsert_one
upsert_one-Good node o at u named good =
    let ((same, all, once), saved) = node_row-Good node o at u named good in
    let e : object_keys (node_row node o at u).0 ≡ object_keys (upsert_one node o at u).0 =
      sym (upsert_one-keys node o at u) in
    (
      (same ∙ e, subst Named e all, subst EachKeyOnce e once),
      subst (Saved node (object_keys u)) e saved,
    )

-- the same for the whole loop
upsert_each-EachKeyOnce :
    (nodes : List ManagedNode) (o : Origin) (at : Time) (u : Unflushed)
    → All (λ node. starts_with node.provider_node_id "local-" ≡ false) nodes
    → (keys u.seen.nodes ≡ keys u.tables.nodes)
    → Named (keys u.tables.nodes)
    → EachKeyOnce (keys u.tables.nodes)
    → EachKeyOnce (keys (upsert_each nodes o at u).0.tables.nodes)
      × All
          (λ node.
            has node.provider node.provider_node_id (keys (upsert_each nodes o at u).0.tables.nodes)
            ≡ true)
          nodes
      × ((p i : String)
          → has p i (keys u.tables.nodes) ≡ true
          → has p i (keys (upsert_each nodes o at u).0.tables.nodes) ≡ true)
unfolding upsert_each
upsert_each-EachKeyOnce [] o at u named same all once = (once, tt, λ p i there. there)
upsert_each-EachKeyOnce (node ∷ nodes) o at u (first, named) same all once =
    let ((same', all', once'), (here, kept)) =
      upsert_one-Good node o at u first (same, all, once) in
    let (last, found, still) =
      upsert_each-EachKeyOnce nodes o at (upsert_one node o at u).0 named same' all' once' in
    (
      last,
      (still node.provider node.provider_node_id here, found),
      λ p i there. still p i (kept p i there),
    )

-- Where the table has each node of a provider once and no placeholder, and no fetched node is one
-- whose id the radio did not tell: `upsert_nodes` commits a table in which each node of a provider has
-- still one row, each fetched node has one, and every node that had one has it still.
pub upsert_nodes-EachKeyOnce :
    {N : Type 0} (nodes : List ManagedNode) (o : Origin) (s : Session N)
    → All (λ node. starts_with node.provider_node_id "local-" ≡ false) nodes
    → Named (keys s.db.nodes)
    → EachKeyOnce (keys s.db.nodes)
    → EachKeyOnce (keys (upsert_nodes nodes o s).1.committed.nodes)
      × All
          (λ node.
            has node.provider node.provider_node_id
              (keys (upsert_nodes nodes o s).1.committed.nodes)
            ≡ true)
          nodes
      × ((p i : String)
          → has p i (keys s.db.nodes) ≡ true
          → has p i (keys (upsert_nodes nodes o s).1.committed.nodes) ≡ true)
unfolding upsert_nodes
upsert_nodes-EachKeyOnce nodes o s named all once =
    upsert_each-EachKeyOnce nodes o (s.clock s.reads) (flushed s.db) named refl all once
