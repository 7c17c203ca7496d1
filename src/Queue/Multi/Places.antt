-- ===== src/Queue/Multi/Places.antt =====
-- The places that `_spread_location` of jobs/queue.py gives to the nodes of a batch.
use Prim.Native.Nat.{◌≤◌, ◌<◌}
use meshonator.Base.{◌≡◌, ◌≢◌, ◌*◌, ◌+◌, ℕ, arith, ◌⊎◌, inl, inr, nat_eq}
use meshonator.Base.Int.{pos, ◌≤ℤ◌}
use meshonator.Db.{Real}
use meshonator.Queue.Multi.{Python, ring, slot, spread_location}

module _ (py : Python) (total : ℕ) (center_lat center_lon step_m : Real) where
  -- the place that is `r` steps away from the center, in the direction of `45 * s` degrees
  abbrev at_place : ℕ → ℕ → Real × Real
  at_place r s = py.offset_lat_lon center_lat center_lon (py.times step_m r) (45 * s)

  -- a node stands on ring `r`, in one of the eight directions, and the ring is no further out than
  -- the number of nodes needs with eight on each ring
  abbrev pub Placed : ℕ → ℕ → ℕ → Type 0
  Placed index r s =
      (spread_location py index total center_lat center_lon step_m ≡ at_place r s)
      × (1 ≤ r)
      × (s < 8)
      × (8 * r ≤ total + 7)

  placed :
      (index : ℕ)
      → 2 ≤ total
      → pos 1 ≤ℤ step_m.mantissa
      → index < total
      → Placed index (ring index) (slot index)
  unfolding spread_location ring slot
  placed index many apart h = (ground arith, omega arith, omega arith, omega arith)

  places_differ : (i j : ℕ) → i ≢ j → (ring i ≢ ring j) ⊎ (slot i ≢ slot j)
  unfolding ring slot
  places_differ i j h = elim (nat_eq.dec (ring i) (ring j)) [
    | yes same ↦ inr (λ e. h (omega arith))
    | no differ ↦ inl differ
  ]

  -- Where a batch has more than one node and the step is positive, two different nodes of it are
  -- each placed a number of whole steps away from the center, at least one and no more than the
  -- number of nodes needs with eight on a ring, in one of eight directions 45 degrees apart, and the
  -- two differ in the number of steps or in the direction.
  pub spread_location_lem :
      (i j : ℕ)
      → 2 ≤ total
      → pos 1 ≤ℤ step_m.mantissa
      → i < total
      → j < total
      → i ≢ j
      → (r s q t : ℕ) × Placed i r s × Placed j q t × ((r ≢ q) ⊎ (s ≢ t))
  spread_location_lem i j many apart hi hj differ = (
    ring i,
    slot i,
    ring j,
    slot j,
    placed i many apart hi,
    placed j many apart hj,
    places_differ i j differ,
  )
