-- ===== src/Groups/Members/Removed.antt =====
-- Who is a member after nodes are removed from a group, and the way back from `assign_nodes`.
use meshonator.Base.{
  ◌≡◌, refl, ◌∙◌, true, false, not, ◌&&◌, List, [], ◌∷◌, arith, ◌==◌, nat_eq, contains, filter_by,
  any,
}
use meshonator.Db.{Uuid, NodeGroupMemberModel}
use meshonator.Db.Session.{Session}
use meshonator.Groups.{is_member, unique_members, is_removed, assign_nodes, remove_nodes}
use meshonator.Groups.Members.{distinct, assign_nodes_lem}

any-removed :
    (h k g : Uuid) (ns : List Uuid) (ms : List NodeGroupMemberModel)
    → any (is_member h k) (filter_by (λ m. not (is_removed g ns m)) ms)
      ≡ (any (is_member h k) ms && not (h == g && contains ns k))
any-removed h k g ns [] = refl
any-removed h k g ns (m ∷ ms) = elim (nat_eq.dec m.node_id k) [
  | yes p ↦ rw p (ground (arith, any-removed h k g ns ms))
  | no p ↦ ground (arith, any-removed h k g ns ms)
]

pub any-remove_nodes :
    {N : Type 0} (h k g : Uuid) (ns : List Uuid) (s : Session N)
    → any (is_member h k) (remove_nodes g ns s).1.db.members
      ≡ (any (is_member h k) s.db.members && not (h == g && contains ns k))
unfolding remove_nodes
any-remove_nodes h k g [] s = ground arith
any-remove_nodes h k g (n ∷ ns) s = any-removed h k g (n ∷ ns) s.db.members

-- Assigning nodes to a group that none of them belongs to and removing them again leaves the
-- members of every group as they were, if no pair is twice in the table and no id twice in the list.
pub remove_nodes-assign_nodes :
    {N : Type 0} (g : Uuid) (ns : List Uuid) (s : Session N)
    → unique_members s.db.members ≡ true
    → distinct ns ≡ true
    → ((k : Uuid) → (contains ns k && any (is_member g k) s.db.members) ≡ false)
    → (h k : Uuid)
    → any (is_member h k) (remove_nodes g ns (assign_nodes g ns s).1).1.db.members
      ≡ any (is_member h k) s.db.members
remove_nodes-assign_nodes g ns s u d new h k =
    any-remove_nodes h k g ns (assign_nodes g ns s).1 ∙ round (nat_eq.dec h g)
  where
    round :
        Dec (h ≡ g)
        → (any (is_member h k) (assign_nodes g ns s).1.db.members && not (h == g && contains ns k))
          ≡ any (is_member h k) s.db.members
    round (yes p) = rw p (ground (arith, (assign_nodes_lem g ns s u d).2 g k, new k))
    round (no p) = ground (arith, (assign_nodes_lem g ns s u d).2 h k)
