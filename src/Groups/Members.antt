-- ===== src/Groups/Members.antt =====
-- Who is a member after nodes are assigned to a group.
pub mod Removed
pub mod Repeated
use Prim.Native.Nat.{◌≤◌}
use meshonator.Base.{
  ◌+◌, ◌≡◌, refl, ◌∙◌, sym, Bool, true, false, not, ◌&&◌, ◌||◌, List, [], ◌∷◌, ◌++◌, map, arith,
  ◌==◌, if◌then◌else◌, nat_eq, contains, filter_by, count_by, any, All, ◌⊎◌, inl, inr, Bool-cases,
}
use meshonator.Db.{Uuid, NodeGroupMemberModel}
use meshonator.Db.Session.{integrity_error, Session, ok, raised}
use meshonator.Groups.{
  is_member, unique_members, member_ids, is_removed, assign_each, assign_nodes, remove_nodes,
}

any-append_one :
    (p : NodeGroupMemberModel → Bool) (m : NodeGroupMemberModel) (ms : List NodeGroupMemberModel)
    → any p (ms ++ m ∷ []) ≡ (any p ms || p m)
any-append_one p m [] = ground arith
any-append_one p m (x ∷ ms) = ground (arith, any-append_one p m ms)

unique_members-append :
    (m : NodeGroupMemberModel) (ms : List NodeGroupMemberModel)
    → unique_members (ms ++ m ∷ [])
      ≡ (unique_members ms && not (any (is_member m.group_id m.node_id) ms))
unfolding unique_members
unique_members-append m [] = refl
unique_members-append m (x ∷ ms) =
    ground (arith, any-append_one (is_member x.group_id x.node_id) m ms, unique_members-append m ms)

contains-member_ids :
    (g n : Uuid) (ms : List NodeGroupMemberModel)
    → contains (map (λ m. m.node_id) (filter_by (λ m. m.group_id == g) ms)) n
      ≡ any (is_member g n) ms
contains-member_ids g n [] = refl
contains-member_ids g n (m ∷ ms) = ground (arith, contains-member_ids g n ms)

-- no id twice
abbrev pub distinct : List Uuid → Bool
distinct [] = true
distinct (n ∷ ns) = not (contains ns n) && distinct ns

module _ {N : Type 0} (g : Uuid) (existing : List Uuid) where
  abbrev with_member : Uuid → Session N → Session N
  with_member n s = record s {
    db = record s.db {
      members = s.db.members ++ (record { id = s.db.next_id; group_id = g; node_id = n }) ∷ [];
      next_id = s.db.next_id + 1;
    };
  }

  extended : List Uuid → Session N → Session N
  extended [] s = s
  extended (n ∷ ns) s = extended ns (if contains existing n then s else with_member n s)

  assign_each-extended :
      (ns : List Uuid) (s : Session N)
      → assign_each g existing ns s
        ≡ (ok (count_by (λ n. not (contains existing n)) ns), extended ns s)
  unfolding assign_each extended
  assign_each-extended [] s = refl
  assign_each-extended (n ∷ ns) s =
      ground (arith, assign_each-extended ns s, assign_each-extended ns (with_member n s))

  any-extended :
      (h k : Uuid) (ns : List Uuid) (s : Session N)
      → any (is_member h k) (extended ns s).db.members ≡ (
          any (is_member h k) s.db.members
          || (h == g && not (contains existing k) && contains ns k))
  unfolding extended
  any-extended h k [] s = ground arith
  any-extended h k (n ∷ ns) s = ground (
    arith,
    any-extended h k ns s,
    any-extended h k ns (with_member n s),
    any-append_one (is_member h k) (record { id = s.db.next_id; group_id = g; node_id = n })
        s.db.members,
  )

  -- an id of the list that is not among the existing ones is no member yet
  abbrev Fresh : List Uuid → Session N → Type 0
  Fresh ns s =
      All (λ n. (contains existing n ≡ true) ⊎ (any (is_member g n) s.db.members ≡ false)) ns

  Fresh-step :
      (n : Uuid) (ns : List Uuid) (s : Session N)
      → contains ns n ≡ false
      → Fresh ns s
      → Fresh ns (with_member n s)
  Fresh-step n [] s h f = tt
  Fresh-step n (m ∷ ns) s h (fm, f) = (
    elim fm [
      | inl old ↦ inl old
      | inr free ↦ inr (
          any-append_one (is_member g m) (record { id = s.db.next_id; group_id = g; node_id = n })
            s.db.members
          ∙ ground arith)
    ],
    Fresh-step n ns s (ground arith) f,
  )

  unique-extended :
      (ns : List Uuid) (s : Session N)
      → unique_members s.db.members ≡ true
      → distinct ns ≡ true
      → Fresh ns s
      → unique_members (extended ns s).db.members ≡ true
  unfolding extended
  unique-extended [] s u d f = u
  unique-extended (n ∷ ns) s u d (fn, f) = elim (Bool-cases (contains existing n)) [
    | inl e ↦ ground (arith, unique-extended ns s u (ground arith) f)
    | inr e ↦ ground (
      arith,
      unique-extended ns (with_member n s) (unique_members-append _ s.db.members ∙ ground arith)
          (ground arith) (Fresh-step n ns s (ground arith) f),
    )
  ]

module _ {N : Type 0} (g : Uuid) (ns : List Uuid) (s : Session N) where
  abbrev pub assigned : Session N
  assigned = (assign_nodes g ns s).1

  abbrev old_ids : List Uuid
  old_ids = member_ids g s.db

  Fresh-old : (ks : List Uuid) → Fresh g old_ids ks s
  Fresh-old [] = tt
  Fresh-old (k ∷ ks) = (fresh (Bool-cases (contains old_ids k)), Fresh-old ks)
    where
      fresh :
          (contains old_ids k ≡ true) ⊎ (contains old_ids k ≡ false)
          → (contains old_ids k ≡ true) ⊎ (any (is_member g k) s.db.members ≡ false)
      fresh (inl e) = inl e
      fresh (inr e) = inr (sym (contains-member_ids g k s.db.members) ∙ e)

  -- If no pair is twice in the member table and no id twice in the list, `assign_nodes` returns how
  -- many of the nodes were not yet members, leaves no pair twice in the table, and then the members
  -- of the group are the old ones and the nodes of the list, and those of every other group are
  -- what they were.
  pub assign_nodes_lem :
      unique_members s.db.members ≡ true
      → distinct ns ≡ true
      → ((assign_nodes g ns s).0 ≡ ok (count_by (λ n. not (contains (member_ids g s.db) n)) ns))
        × (unique_members assigned.db.members ≡ true)
        × ((h k : Uuid)
            → any (is_member h k) assigned.db.members
              ≡ (any (is_member h k) s.db.members || (h == g && contains ns k)))
  unfolding assign_nodes
  assign_nodes_lem u d =
      let unique = unique-extended g old_ids ns s u d (Fresh-old ns) in
      (
        ground (arith, assign_each-extended g old_ids ns s),
        ground (arith, assign_each-extended g old_ids ns s),
        λ h k. ground (
          arith,
          assign_each-extended g old_ids ns s,
          any-extended g old_ids h k ns s,
          contains-member_ids g k s.db.members,
        ),
      )
