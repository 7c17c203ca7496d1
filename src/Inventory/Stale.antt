-- ===== src/Inventory/Stale.antt =====
-- inventory/service.py: `stale_mark`, which notes in a node's metadata whether it was seen lately.
pub mod Twice
use Prim.Native.Nat.{◌^◌}
use meshonator.Base.{
  ℕ, ◌+◌, Bool, false, not, Option, none, some, ◌==◌, if◌then◌else◌, bool_eq, nat_eq, leb, map,
  count_by,
}
use meshonator.Base.Int.{pos, int_eq}
use meshonator.Json.{Fields, Value, bool, int, float, get, set}
use meshonator.Db.{Time, minutes, ManagedNodeModel}
use meshonator.Db.Session.{Exec, pure, gets, ◌>>=◌, ◌>>◌, modify, commit, now}

-- Python's `==` of a value and a bool, which counts as 1 or 0
abbrev pub equals_bool : Bool → Option Value → Bool
equals_bool b (some (bool c)) = b == c
equals_bool b (some (int z)) = z == pos (if b then 1 else 0)
equals_bool b (some (float m k)) = m == pos (if b then 2 ^ k else 0)
equals_bool b _ = false

-- seen at most `stale_minutes` before `at`
abbrev pub is_fresh : ℕ → Time → Time → Bool
is_fresh stale_minutes at seen = leb at (seen + minutes stale_minutes)

-- whether the mark in the metadata has to change, and the metadata after it
abbrev pub differs : Bool → Fields → Bool
differs fresh raw_metadata = not (equals_bool fresh (get "fresh" raw_metadata))

abbrev pub marked_metadata : Bool → Fields → Fields
marked_metadata fresh raw_metadata =
    if differs fresh raw_metadata then set "fresh" (bool fresh) raw_metadata else raw_metadata

-- the same of a node; one that was never seen is left alone
abbrev pub is_outdated : ℕ → Time → ManagedNodeModel → Bool
is_outdated stale_minutes at n = elim n.last_seen [
  | none ↦ false
  | some seen ↦ differs (is_fresh stale_minutes at seen) n.raw_metadata
]

abbrev pub marked : ℕ → Time → ManagedNodeModel → ManagedNodeModel
marked stale_minutes at n = elim n.last_seen [
  | none ↦ n
  | some seen ↦ (record n {
    raw_metadata = marked_metadata (is_fresh stale_minutes at seen) n.raw_metadata;
  })
]

module _ {N : Type 0} where
  unfoldable pub stale_mark : ℕ → Exec N ℕ
  stale_mark stale_minutes = do
    at ← now
    count ← gets (λ db. count_by (is_outdated stale_minutes at) db.nodes)
    modify (λ db. record db { nodes = map (marked stale_minutes at) db.nodes })
    commit
    pure count
