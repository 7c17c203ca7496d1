-- ===== src/Inventory/Stale/Twice.antt =====
-- A second `stale_mark` at the same time finds nothing to do.
use meshonator.Base.{
  ℕ, ◌+◌, ◌≡◌, refl, ap, Bool, true, false, some, List, [], ◌∷◌, arith, map, count_by, bool_eq,
  Bool-cases, Option-cases, inl, inr,
}
use meshonator.Json.{Fields, bool}
use meshonator.Json.Laws.{get-set_self}
use meshonator.Db.{Time, ManagedNodeModel}
use meshonator.Db.Session.{Session, ok}
use meshonator.Inventory.Stale.{
  equals_bool, differs, marked_metadata, is_fresh, is_outdated, marked, stale_mark,
}

equals_bool_self : (b : Bool) → equals_bool b (some (bool b)) ≡ true
equals_bool_self true = ground arith
equals_bool_self false = ground arith

differs-marked_metadata : (b : Bool) (raw : Fields) → differs b (marked_metadata b raw) ≡ false
differs-marked_metadata b raw = elim (Bool-cases (differs b raw)) [
  | inl e ↦ rw (e, get-set_self "fresh" (bool b) raw, equals_bool_self b) refl
  | inr e ↦ rw (e, e) refl
]

module _ (m : ℕ) (at : Time) where
  is_outdated-marked : (n : ManagedNodeModel) → is_outdated m at (marked m at n) ≡ false
  is_outdated-marked n = elim (Option-cases n.last_seen) [
    | inl e ↦ rw e refl
    | inr (seen, e) ↦ rw e (differs-marked_metadata (is_fresh m at seen) n.raw_metadata)
  ]

  count-marked :
      (ns : List ManagedNodeModel) → count_by (is_outdated m at) (map (marked m at) ns) ≡ 0
  count-marked [] = refl
  count-marked (n ∷ ns) = ground (arith, is_outdated-marked n, count-marked ns)

-- After `stale_mark`, running it again with the clock at the same reading changes no node's mark:
-- it returns 0. Nodes that were never seen are never marked, and count for nothing.
stale_mark_twice :
    {N : Type 0} (stale_minutes : ℕ) (s : Session N)
    → s.clock (s.reads + 1) ≡ s.clock s.reads
    → (stale_mark stale_minutes (stale_mark stale_minutes s).1).0 ≡ ok 0
unfolding stale_mark
stale_mark_twice stale_minutes s h =
    rw h (ap ok (count-marked stale_minutes (s.clock s.reads) s.db.nodes))
