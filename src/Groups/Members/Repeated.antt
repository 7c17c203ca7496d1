-- ===== src/Groups/Members/Repeated.antt =====
-- An assignment that lists a new member twice.
use Prim.Native.Nat.{◌≤◌}
use meshonator.Base.{
  ◌≡◌, refl, ◌∙◌, true, false, not, List, [], ◌∷◌, arith, ◌==◌, nat_eq, contains, count_by, any,
}
use meshonator.Db.{Uuid, NodeGroupMemberModel}
use meshonator.Db.Session.{integrity_error, Session, raised}
use meshonator.Groups.{is_member, unique_members, member_ids, assign_nodes}
use meshonator.Groups.Members.{
  any-append_one, unique_members-append, contains-member_ids, with_member, extended,
  assign_each-extended,
}

contains-counted :
    (n : Uuid) (ns : List Uuid) → 1 ≤ count_by (λ k. k == n) ns → contains ns n ≡ true
contains-counted n [] h = ground arith
contains-counted n (k ∷ ns) h = ground (arith, contains-counted n ns)

counted_new :
    (existing : List Uuid) (n : Uuid) (ns : List Uuid)
    → contains existing n ≡ false
    → 1 ≤ count_by (λ k. k == n) ns
    → 1 ≤ count_by (λ k. not (contains existing k)) ns
counted_new existing n [] e h = h
counted_new existing n (k ∷ ns) e h = elim (nat_eq.dec k n) [
  | yes p ↦ rw (p, e) (omega arith)
  | no p ↦ ground (arith, counted_new existing n ns e)
]

module _ {N : Type 0} (g : Uuid) (existing : List Uuid) where
  still_twice :
      (ns : List Uuid) (s : Session N)
      → unique_members s.db.members ≡ false
      → unique_members (extended g existing ns s).db.members ≡ false
  unfolding extended
  still_twice [] s u = u
  still_twice (n ∷ ns) s u = ground (
    arith,
    still_twice ns s,
    still_twice ns (with_member g existing n s),
    unique_members-append (record { id = s.db.next_id; group_id = g; node_id = n }) s.db.members,
  )

  added_twice :
      (n : Uuid) (ns : List Uuid) (s : Session N)
      → contains existing n ≡ false
      → any (is_member g n) s.db.members ≡ true
      → contains ns n ≡ true
      → unique_members (extended g existing ns s).db.members ≡ false
  unfolding extended
  added_twice n [] s e m h = cc
  added_twice n (k ∷ ns) s e m h =
      let row : NodeGroupMemberModel = record { id = s.db.next_id; group_id = g; node_id = k } in
      ground (
        arith,
        added_twice n ns s e m,
        added_twice n ns (with_member g existing k s) e,
        any-append_one (is_member g n) row s.db.members,
        still_twice ns (with_member g existing k s),
        unique_members-append row s.db.members,
      )

  repeated_twice :
      (n : Uuid) (ns : List Uuid) (s : Session N)
      → contains existing n ≡ false
      → 2 ≤ count_by (λ k. k == n) ns
      → unique_members (extended g existing ns s).db.members ≡ false
  unfolding extended
  repeated_twice n [] s e h = ground arith
  repeated_twice n (k ∷ ns) s e h =
      let row : NodeGroupMemberModel = record { id = s.db.next_id; group_id = g; node_id = k } in
      ground (
        arith,
        repeated_twice n ns s e,
        repeated_twice n ns (with_member g existing k s) e,
        added_twice n ns (with_member g existing k s) e,
        any-append_one (is_member g n) row s.db.members,
        contains-counted n ns,
      )

  extended-committed :
      (ns : List Uuid) (s : Session N) → (extended g existing ns s).committed ≡ s.committed
  unfolding extended
  extended-committed [] s = refl
  extended-committed (n ∷ ns) s =
      ground (arith, extended-committed ns s, extended-committed ns (with_member g existing n s))

-- If an id that is no member yet stands at least twice in the list, it is added twice, so the commit
-- breaks the constraint on the table: `assign_nodes` raises an IntegrityError, and the database,
-- pending and committed, is what was committed before the call.
pub assign_nodes_repeated :
    {N : Type 0} (g n : Uuid) (ns : List Uuid) (s : Session N)
    → any (is_member g n) s.db.members ≡ false
    → 2 ≤ count_by (λ k. k == n) ns
    → ((assign_nodes g ns s).0 ≡ raised (integrity_error "IntegrityError"))
      × ((assign_nodes g ns s).1.db ≡ s.committed)
      × ((assign_nodes g ns s).1.committed ≡ s.committed)
unfolding assign_nodes
assign_nodes_repeated g n ns s free twice =
    let ids : List Uuid = member_ids g s.db in
    let new : contains ids n ≡ false = contains-member_ids g n s.db.members ∙ free in
    let bad : unique_members (extended g ids ns s).db.members ≡ false =
      repeated_twice g ids n ns s new twice in
    let some_new : 1 ≤ count_by (λ k. not (contains ids k)) ns =
      counted_new ids n ns new (omega arith) in
    let kept = extended-committed g ids ns s in
    (
      ground (arith, assign_each-extended g ids ns s),
      ground (arith, assign_each-extended g ids ns s),
      ground (arith, assign_each-extended g ids ns s),
    )
