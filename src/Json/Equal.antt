-- ===== src/Json/Equal.antt =====
-- Python's `==` on JSON values: numbers by value, dicts by their entries in any order.
use Prim.Native.Nat.{◌^◌}
use meshonator.Base.{
  ◌≡◌, refl, ℕ, ◌+◌, ◌*◌, String, Bool, true, false, ◌&&◌, Option, none, some, ◌==◌, string_eq,
  nat_eq, arith, ==_refl,
}
use meshonator.Base.Int.{ℤ, pos, pos_part, neg_part}
use meshonator.Json.{
  Value, null, bool, int, float, str, obj, arr, Fields, end, field, Items, nil, cons, get, IsWf,
  IsWfFields, IsWfItems,
}

-- the number m / 2 ^ k that a bool, an int or a float is
abbrev pub number : Value → Option (ℤ × ℕ)
number (bool true) = some (pos 1, 0)
number (bool false) = some (pos 0, 0)
number (int z) = some (z, 0)
number (float m k) = some (m, k)
number _ = none

unfoldable pub same_number : Option (ℤ × ℕ) → Option (ℤ × ℕ) → Bool
same_number (some (a, j)) (some (b, k)) =
    pos_part a * 2 ^ k == pos_part b * 2 ^ j && neg_part a * 2 ^ k == neg_part b * 2 ^ j
same_number _ _ = false

-- `len(d)`
abbrev size : Fields → ℕ
size end = 0
size (field k v d) = size d + 1

unfoldable mutual
  pub same : Value → Value → Bool
  same null null = true
  same (str s) (str t) = s == t
  same (arr xs) (arr ys) = same_items xs ys
  same (obj d) (obj e) = same_fields d e && size d == size e
  same (bool b) w = same_number (number (bool b)) (number w)
  same (int z) w = same_number (number (int z)) (number w)
  same (float m k) w = same_number (number (float m k)) (number w)
  same _ _ = false

  pub same_items : Items → Items → Bool
  same_items nil nil = true
  same_items (cons x xs) (cons y ys) = same x y && same_items xs ys
  same_items _ _ = false

  -- every entry of the first dict is in the second
  pub same_fields : Fields → Fields → Bool
  same_fields end e = true
  same_fields (field k v d) e =
      elim (get k e) [ none ↦ false | some w ↦ same v w ] && same_fields d e

same_number_self : (z : ℤ) (k : ℕ) → same_number (some (z, k)) (some (z, k)) ≡ true
unfolding same_number
same_number_self z k = ground (arith, ==_refl (pos_part z * 2 ^ k), ==_refl (neg_part z * 2 ^ k))

-- what every lookup in the first dict finds, a lookup in the second finds
abbrev pub Within : Fields → Fields → Type 0
Within d e = (k : String) (v : Value) → get k d ≡ some v → get k e ≡ some v

pub Within-tail :
    (k : String) (v : Value) (d e : Fields) → get k d ≡ none → Within (field k v d) e → Within d e
unfolding get
Within-tail k v d e fresh all j w h = all j w (ground (arith, h, fresh))

pub Within-head :
    (k : String) (v : Value) (d e : Fields) → Within (field k v d) e → get k e ≡ some v
unfolding get
Within-head k v d e all = all k v (ground (arith, ==_refl k))

mutual
  unfolding same

  -- every value with distinct keys in its dicts equals itself
  pub same_self : (v : Value) → IsWf v → same v v ≡ true
  same_self null w = refl
  same_self (bool true) w = same_number_self (pos 1) 0
  same_self (bool false) w = same_number_self (pos 0) 0
  same_self (int z) w = same_number_self z 0
  same_self (float m k) w = same_number_self m k
  same_self (str s) w = ==_refl s
  same_self (obj d) w = ground (arith, same_fields_self d d w (λ k v h. h), ==_refl (size d))
  same_self (arr xs) w = same_items_self xs w

  same_items_self : (xs : Items) → IsWfItems xs → same_items xs xs ≡ true
  same_items_self nil w = refl
  same_items_self (cons x xs) w = ground (arith, same_self x w.0, same_items_self xs w.1)

  same_fields_self : (d e : Fields) → IsWfFields d → Within d e → same_fields d e ≡ true
  same_fields_self end e w all = refl
  same_fields_self (field k v d) e w all = ground (
    arith,
    same_self v w.0,
    Within-head k v d e all,
    same_fields_self d e w.2 (Within-tail k v d e w.1 all),
  )
