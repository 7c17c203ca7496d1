-- ===== src/Groups/Relation.antt =====
-- The membership table of groups/service.py as what it stands for: a relation between groups and
-- nodes, which assigning enlarges and removing reduces.
use mathlib.Core.Path.{fun_ext}
use meshonator.Base.{
  ◌≡◌, refl, ap, ◌∙◌, Bool, true, false, not, ◌&&◌, ◌||◌, List, [], ◌∷◌, ◌==◌, nat_eq, contains,
  filter_by, any, arith, All,
}
use meshonator.Db.{Uuid, NodeGroupMemberModel}
use meshonator.Db.Session.{Session}
use meshonator.Groups.{is_member, is_removed, unique_members, assign_nodes, remove_nodes}
use meshonator.Groups.Members.{distinct, assign_nodes_lem}
use meshonator.Groups.Members.Removed.{any-remove_nodes}

-- a change of the members of a group
pub data Operation : Type 0 where
  assigns removes : (group_id : Uuid) (node_ids : List Uuid) → Operation

abbrev pub Relation : Type 0
Relation = Uuid → Uuid → Bool

-- what the operation means
unfoldable pub meaning : Operation → Relation → Relation
meaning (assigns g ns) before h k = before h k || (h == g && contains ns k)
meaning (removes g ns) before h k = before h k && not (h == g && contains ns k)

unfoldable pub meanings : List Operation → Relation → Relation
meanings [] before = before
meanings (op ∷ ops) before = meanings ops (meaning op before)

-- the list of the operation has no id twice
abbrev IsClean : Operation → Type 0
IsClean (assigns g ns) = distinct ns ≡ true
IsClean (removes g ns) = Unit {0}

-- the relation that a session's table stands for
abbrev pub relation : {N : Type 0} → Session N → Relation
relation s h k = any (is_member h k) s.db.members

module _ {N : Type 0} where
  unfoldable pub perform : Operation → Session N → Session N
  perform (assigns g ns) s = (assign_nodes g ns s).1
  perform (removes g ns) s = (remove_nodes g ns s).1

  unfoldable pub perform_all : List Operation → Session N → Session N
  perform_all [] s = s
  perform_all (op ∷ ops) s = perform_all ops (perform op s)

any-filter_by :
    (q p : NodeGroupMemberModel → Bool) (ms : List NodeGroupMemberModel)
    → any q ms ≡ false
    → any q (filter_by p ms) ≡ false
any-filter_by q p [] h = refl
any-filter_by q p (m ∷ ms) h = ground (arith, h, any-filter_by q p ms)

unique_members-filter_by :
    (p : NodeGroupMemberModel → Bool) (ms : List NodeGroupMemberModel)
    → unique_members ms ≡ true
    → unique_members (filter_by p ms) ≡ true
unfolding unique_members
unique_members-filter_by p [] h = refl
unique_members-filter_by p (m ∷ ms) h =
    ground
      (arith, h, any-filter_by (is_member m.group_id m.node_id) p ms, unique_members-filter_by p ms)

module _ {N : Type 0} where
  unique_members-remove_nodes :
      (g : Uuid) (ns : List Uuid) (s : Session N)
      → unique_members s.db.members ≡ true
      → unique_members (remove_nodes g ns s).1.db.members ≡ true
  unfolding remove_nodes
  unique_members-remove_nodes g [] s u = u
  unique_members-remove_nodes g (n ∷ ns) s u =
      unique_members-filter_by (λ m. not (is_removed g (n ∷ ns) m)) s.db.members u

  unique_members-perform :
      (op : Operation) (s : Session N)
      → IsClean op
      → unique_members s.db.members ≡ true
      → unique_members (perform op s).db.members ≡ true
  unfolding perform
  unique_members-perform (assigns g ns) s clean u = (assign_nodes_lem g ns s u clean).1
  unique_members-perform (removes g ns) s clean u = unique_members-remove_nodes g ns s u

  relation-perform :
      (op : Operation) (s : Session N)
      → IsClean op
      → unique_members s.db.members ≡ true
      → relation (perform op s) ≡ meaning op (relation s)
  unfolding perform meaning
  relation-perform (assigns g ns) s clean u =
      fun_ext λ h. fun_ext λ k. (assign_nodes_lem g ns s u clean).2 h k
  relation-perform (removes g ns) s clean u = fun_ext λ h. fun_ext λ k. any-remove_nodes h k g ns s

  -- From a table with no pair twice, any sequence of assignments and removals, with no id twice in
  -- the list of an assignment, leaves a table with no pair twice that stands for the relation which
  -- the sequence means: assigning adds the pairs of the group with the nodes of the list, removing
  -- takes them away, and nothing else changes.
  pub perform_all-meanings :
      (ops : List Operation) (s : Session N)
      → All IsClean ops
      → unique_members s.db.members ≡ true
      → (unique_members (perform_all ops s).db.members ≡ true)
        × (relation (perform_all ops s) ≡ meanings ops (relation s))
  unfolding perform_all meanings
  perform_all-meanings [] s clean u = (u, refl)
  perform_all-meanings (op ∷ ops) s (first, clean) u =
      let (unique, means) =
        perform_all-meanings ops (perform op s) clean (unique_members-perform op s first u) in
      (unique, means ∙ ap (meanings ops) (relation-perform op s first u))
