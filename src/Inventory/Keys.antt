-- ===== src/Inventory/Keys.antt =====
-- `upsert_nodes` of inventory/service.py and the constraint uq_provider_node: one row for a node of a
-- provider.
pub mod Once
use mathlib.Core.Logic.{ite}
use mathlib.Core.Path.{subst}
use meshonator.Base.{
  ℕ, ◌+◌, ◌≡◌, refl, sym, ap, ◌∙◌, String, Bool, true, false, ◌&&◌, ◌||◌, not, Option, none, some,
  List, [], ◌∷◌, ◌++◌, ◌==◌, if◌then◌else◌, nat_eq, string_eq, find?, update_where, any, arith,
  Option-cases, Bool-cases, inl, inr, ==_refl, All,
}
use meshonator.Base.Text.{starts_with}
use meshonator.Db.{Uuid, Time, ManagedNodeModel, NodeEndpointModel, Db}
use meshonator.Inventory.{
  ManagedNode, Origin, has_key, reached_by, first_of_two, placeholder, locate, by_key,
  by_placeholder, nowhere, or_nowhere, unless_found, refreshed, blank_row, assign, add_row,
  node_row, touch_endpoint, Unflushed, upsert_one, upsert_each, flushed,
}

abbrev pub Key : Type 0
Key = String × String

abbrev pub keys : List ManagedNodeModel → List Key
keys [] = []
keys (n ∷ nodes) = (n.provider, n.provider_node_id) ∷ keys nodes

abbrev pub has : String → String → List Key → Bool
has p i [] = false
has p i ((q, j) ∷ ks) = (q == p && j == i) || has p i ks

-- no key stands twice
abbrev pub EachKeyOnce : List Key → Type 0
EachKeyOnce [] = Unit {0}
EachKeyOnce ((q, j) ∷ ks) = (has q j ks ≡ false) × EachKeyOnce ks

-- no row is the placeholder of a node whose id the radio did not tell
abbrev pub Named : List Key → Type 0
Named [] = Unit {0}
Named ((q, j) ∷ ks) = (starts_with j "local-" ≡ false) × Named ks

pub has-append : (p i : String) (ks ls : List Key) → has p i (ks ++ ls) ≡ (has p i ks || has p i ls)
has-append p i [] ls = refl
has-append p i ((q, j) ∷ ks) ls = ground (arith, has-append p i ks ls)

pub EachKeyOnce-add :
    (p i : String) (ks : List Key)
    → EachKeyOnce ks
    → has p i ks ≡ false
    → EachKeyOnce (ks ++ (p, i) ∷ [])
EachKeyOnce-add p i [] once new = (refl, tt)
EachKeyOnce-add p i ((q, j) ∷ ks) (first, once) new = (
  ground (arith, first, new, has-append q j ks ((p, i) ∷ [])),
  EachKeyOnce-add p i ks once (ground (arith, new)),
)

pub Named-add :
    (p i : String) (ks : List Key)
    → Named ks
    → starts_with i "local-" ≡ false
    → Named (ks ++ (p, i) ∷ [])
Named-add p i [] h e = (e, tt)
Named-add p i ((q, j) ∷ ks) (first, h) e = (first, Named-add p i ks h e)

pub keys-append : (rows more : List ManagedNodeModel) → keys (rows ++ more) ≡ keys rows ++ keys more
keys-append [] more = refl
keys-append (n ∷ rows) more =
    ap (λ ks. (n.provider, n.provider_node_id) ∷ ks) (keys-append rows more)

pub keys-update_where :
    (t : ManagedNodeModel → Bool) (node : ManagedNode) (at : Time) (rows : List ManagedNodeModel)
    → keys (update_where t (refreshed node at) rows) ≡ keys rows
unfolding refreshed
keys-update_where t node at [] = refl
keys-update_where t node at (n ∷ rows) = ground (arith, keys-update_where t node at rows)

pub has-find :
    (p i : String) (rows : List ManagedNodeModel) (n : ManagedNodeModel)
    → find? (has_key p i) rows ≡ some n
    → has p i (keys rows) ≡ true
has-find p i [] n h = cc
has-find p i (m ∷ rows) n h = ground (arith, has-find p i rows n)

pub has-absent :
    (p i : String) (rows : List ManagedNodeModel)
    → find? (has_key p i) rows ≡ none
    → has p i (keys rows) ≡ false
has-absent p i [] h = refl
has-absent p i (m ∷ rows) h = ground (arith, has-absent p i rows)

pub not_unknown : (i : String) → starts_with i "local-" ≡ false → (i == "local-unknown") ≡ false
not_unknown i h = elim (string_eq.dec i "local-unknown") as (λ d. ite d true false ≡ false) [
  | yes p ↦ subst (λ x. starts_with x "local-" ≡ false) p h
  | no n ↦ refl
]

-- where every row is named, there is no placeholder
no_unknown :
    (p endpoint : String) (db : Db) (rows : List ManagedNodeModel)
    → Named (keys rows)
    → find? (λ n. reached_by p endpoint db n && n.provider_node_id == "local-unknown") rows ≡ none
no_unknown p endpoint db [] h = refl
no_unknown p endpoint db (n ∷ rows) (first, h) =
    ground (arith, not_unknown n.provider_node_id first, no_unknown p endpoint db rows h)

no_local :
    (p endpoint : String) (db : Db) (rows : List ManagedNodeModel)
    → Named (keys rows)
    → find? (λ n. reached_by p endpoint db n && starts_with n.provider_node_id "local-") rows ≡ none
no_local p endpoint db [] h = refl
no_local p endpoint db (n ∷ rows) (first, h) = ground (arith, first, no_local p endpoint db rows h)

pub placeholder-Named :
    (p endpoint : String) (db : Db) → Named (keys db.nodes) → placeholder p endpoint db ≡ none
unfolding placeholder
placeholder-Named p endpoint db h =
    ap
      (λ o. first_of_two o (
        find? (λ n. reached_by p endpoint db n && starts_with n.provider_node_id "local-")
          db.nodes))
      (no_unknown p endpoint db db.nodes h)
    ∙ no_local p endpoint db db.nodes h
