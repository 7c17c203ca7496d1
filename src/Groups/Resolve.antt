-- ===== src/Groups/Resolve.antt =====
-- `resolve_dynamic_members` and `resolve_all_members`: the nodes that a group's filter selects, and
-- these together with the assigned members.
use meshonator.Base.{
  ◌≡◌, refl, ◌∙◌, sym, ap, Bool, true, false, not, ◌&&◌, ◌||◌, Option, none, some, List, [], ◌∷◌,
  ◌++◌, arith, ◌==◌, nat_eq, string_eq, bool_eq, filter_by, any, All,
}
use meshonator.Base.Assoc.{Dict, insert, lookup, values, NodupKeys, insert-NodupKeys}
use meshonator.Base.Sort.{sort_by, any-sort_by}
use meshonator.Base.Text.{text_leb}
use meshonator.Json.{Fields, end, field, get}
use meshonator.Db.{Uuid, ManagedNodeModel, NodeGroupModel, Db}
use meshonator.Db.Session.{bind-eq, ok, Session, Exec, Exn, pure, raise, gets, ◌>>=◌}
use meshonator.Groups.{is_member}
use meshonator.Groups.Filters.{selects, bbox_error}

-- the nodes of a join with the membership table, ordered by provider and provider id
unfoldable assigned_nodes : Uuid → Db → List ManagedNodeModel
assigned_nodes group_id db =
    sort_by (λ a b. text_leb a.provider b.provider)
      (sort_by (λ a b. text_leb a.provider_node_id b.provider_node_id)
        (filter_by (λ n. any (is_member group_id n.id) db.members) db.nodes))

unfoldable pub dedup :
    List ManagedNodeModel → Dict Uuid ManagedNodeModel → Dict Uuid ManagedNodeModel
dedup [] d = d
dedup (node ∷ nodes) d = dedup nodes (insert node.id node d)

module _ {N : Type 0} where
  unfoldable pub list_assigned_members : Uuid → Exec N (List ManagedNodeModel)
  unfolding assigned_nodes
  list_assigned_members group_id = gets (assigned_nodes group_id)

  abbrev pub unless_error : {A : Type 0} → Option Exn → Exec N A → Exec N A
  unless_error none m = m
  unless_error (some e) m = raise e

  unfoldable pub resolve_dynamic_members : Fields → Exec N (List ManagedNodeModel)
  resolve_dynamic_members end = pure []
  resolve_dynamic_members (field k v d) =
      unless_error (bbox_error (get "bbox" (field k v d)))
        (gets (λ db. filter_by (selects (field k v d)) db.nodes))

  unfoldable pub resolve_all_members : NodeGroupModel → Exec N (List ManagedNodeModel)
  resolve_all_members group = do
    assigned ← list_assigned_members group.id
    dynamic ← resolve_dynamic_members group.dynamic_filter
    pure (values (dedup (assigned ++ dynamic) []))

abbrev pub has_id : Uuid → List ManagedNodeModel → Bool
has_id k = any (λ n. n.id == k)

-- every entry stands under its node's id
abbrev IsKeyed : Dict Uuid ManagedNodeModel → Type 0
IsKeyed = All (λ (k, n). k ≡ n.id)

insert-IsKeyed :
    (n : ManagedNodeModel) (d : Dict Uuid ManagedNodeModel) → IsKeyed d → IsKeyed (insert n.id n d)
unfolding insert
insert-IsKeyed n [] h = (refl, tt)
insert-IsKeyed n ((k, m) ∷ d) (here, h) = ground (arith, insert-IsKeyed n d h)

has_id-insert :
    (k : Uuid) (n : ManagedNodeModel) (d : Dict Uuid ManagedNodeModel)
    → IsKeyed d
    → has_id k (values (insert n.id n d)) ≡ (n.id == k || has_id k (values d))
unfolding insert
has_id-insert k n [] h = refl
has_id-insert k n ((j, m) ∷ d) (here, h) = ground (arith, has_id-insert k n d h)

has_id-dedup :
    (k : Uuid) (nodes : List ManagedNodeModel) (d : Dict Uuid ManagedNodeModel)
    → IsKeyed d
    → has_id k (values (dedup nodes d)) ≡ (has_id k nodes || has_id k (values d))
unfolding dedup
has_id-dedup k [] d h = refl
has_id-dedup k (n ∷ nodes) d h =
    ground
      (arith, has_id-dedup k nodes (insert n.id n d) (insert-IsKeyed n d h), has_id-insert k n d h)

-- no two rows of the list share an id
abbrev pub unique_ids : List ManagedNodeModel → Bool
unique_ids [] = true
unique_ids (n ∷ ns) = not (has_id n.id ns) && unique_ids ns

has_id-values :
    (k : Uuid) (d : Dict Uuid ManagedNodeModel)
    → IsKeyed d
    → lookup k d ≡ none
    → has_id k (values d) ≡ false
unfolding lookup
has_id-values k [] h e = refl
has_id-values k ((j, n) ∷ d) (here, h) e = ground (arith, has_id-values k d h)

unique_ids-values :
    (d : Dict Uuid ManagedNodeModel) → IsKeyed d → NodupKeys d → unique_ids (values d) ≡ true
unique_ids-values [] h u = refl
unique_ids-values ((k, n) ∷ d) (here, h) (fresh, u) =
    ground (arith, unique_ids-values d h u, has_id-values k d h fresh)

unique_ids-dedup :
    (nodes : List ManagedNodeModel) (d : Dict Uuid ManagedNodeModel)
    → IsKeyed d
    → NodupKeys d
    → unique_ids (values (dedup nodes d)) ≡ true
unfolding dedup
unique_ids-dedup [] d h u = unique_ids-values d h u
unique_ids-dedup (n ∷ nodes) d h u =
    unique_ids-dedup nodes (insert n.id n d) (insert-IsKeyed n d h) (insert-NodupKeys n.id n d u)

any-filter_by :
    (p q : ManagedNodeModel → Bool) (ns : List ManagedNodeModel)
    → any p (filter_by q ns) ≡ any (λ n. p n && q n) ns
any-filter_by p q [] = refl
any-filter_by p q (n ∷ ns) = ground (arith, any-filter_by p q ns)

any-append :
    (p : ManagedNodeModel → Bool) (ms ns : List ManagedNodeModel)
    → any p (ms ++ ns) ≡ (any p ms || any p ns)
any-append p [] ns = refl
any-append p (m ∷ ms) ns = ground (arith, any-append p ms ns)

any-or :
    (p q r : ManagedNodeModel → Bool) (ns : List ManagedNodeModel)
    → (any (λ n. p n && q n) ns || any (λ n. p n && r n) ns) ≡ any (λ n. p n && (q n || r n)) ns
any-or p q r [] = refl
any-or p q r (n ∷ ns) = ground (arith, any-or p q r ns)

-- an empty filter selects nothing
abbrev pub filter_selects : Fields → ManagedNodeModel → Bool
filter_selects end node = false
filter_selects (field k v d) node = selects (field k v d) node

any-false :
    (p : ManagedNodeModel → Bool) (ns : List ManagedNodeModel) → any (λ n. p n && false) ns ≡ false
any-false p [] = refl
any-false p (n ∷ ns) = ground (arith, any-false p ns)

module _ {N : Type 0} (s : Session N) where
  dynamic_lem :
      (f : Fields)
      → bbox_error (get "bbox" f) ≡ none
      → (ns : List ManagedNodeModel) × (resolve_dynamic_members f s ≡ (ok ns, s))
        × ((k : Uuid) → has_id k ns ≡ any (λ n. n.id == k && filter_selects f n) s.db.nodes)
  unfolding resolve_dynamic_members
  dynamic_lem end e = ([], refl, λ k. sym (any-false (λ n. n.id == k) s.db.nodes))
  dynamic_lem (field k v d) e = (
    filter_by (selects (field k v d)) s.db.nodes,
    ap (λ o. unless_error o (gets (λ db. filter_by (selects (field k v d)) db.nodes)) s) e,
    λ j. any-filter_by (λ n. n.id == j) (selects (field k v d)) s.db.nodes,
  )

  has_id-assigned :
      (g k : Uuid)
      → has_id k (assigned_nodes g s.db)
        ≡ any (λ n. n.id == k && any (is_member g n.id) s.db.members) s.db.nodes
  unfolding assigned_nodes
  has_id-assigned g k =
      any-sort_by _ (λ n. n.id == k) _
      ∙ any-sort_by _ (λ n. n.id == k) _
      ∙ any-filter_by (λ n. n.id == k) (λ n. any (is_member g n.id) s.db.members) s.db.nodes

  -- For a filter whose bounding box, if it has one, is complete, `resolve_all_members` returns no
  -- node twice, changes nothing, and returns a node of an id exactly when a node of the table with
  -- that id is assigned to the group or selected by its filter.
  pub resolve_all_members_lem :
      (group : NodeGroupModel)
      → bbox_error (get "bbox" group.dynamic_filter) ≡ none
      → (ns : List ManagedNodeModel) × (resolve_all_members group s ≡ (ok ns, s))
        × (unique_ids ns ≡ true)
        × ((k : Uuid)
            → has_id k ns
              ≡ any
                  (λ n.
                    n.id == k
                    && (any (is_member group.id n.id) s.db.members
                        || filter_selects group.dynamic_filter n))
                  s.db.nodes)
  unfolding resolve_all_members list_assigned_members
  resolve_all_members_lem group e =
      let (dynamic, resolved, selected) = dynamic_lem group.dynamic_filter e in
      let all : List ManagedNodeModel = assigned_nodes group.id s.db ++ dynamic in
      let finish : List ManagedNodeModel → Exec N (List ManagedNodeModel) =
        λ d. pure (values (dedup (assigned_nodes group.id s.db ++ d) [])) in
      (
        values (dedup all []),
        bind-eq (resolve_dynamic_members group.dynamic_filter) finish s s dynamic resolved,
        unique_ids-dedup all [] tt tt,
        λ k.
            has_id-dedup k all [] tt
            ∙ ground (
              arith,
              any-append (λ n. n.id == k) (assigned_nodes group.id s.db) dynamic,
              has_id-assigned group.id k,
              selected k,
              any-or (λ n. n.id == k) (λ n. any (is_member group.id n.id) s.db.members)
                  (filter_selects group.dynamic_filter) s.db.nodes,
            ),
      )
