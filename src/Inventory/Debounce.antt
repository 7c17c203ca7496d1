-- ===== src/Inventory/Debounce.antt =====
-- The debounce of `refresh_transport_reachability`: an endpoint that answered stays reachable until
-- it has failed a number of probes in a row.
use meshonator.Base.{
  ℕ, zero, suc, ◌≡◌, refl, ◌∙◌, String, Bool, true, false, Option, none, some, List, [], ◌∷◌, arith,
  if◌then◌else◌, string_eq, ltb,
}
use meshonator.Base.Int.{ℤ, pos, int_eq}
use meshonator.Json.{Fields, int, set, truthy}
use meshonator.Json.Laws.{get-set_self}
use meshonator.Db.{Time, ProviderEndpointModel}
use meshonator.Inventory.Reachability.{
  to_int, failures_key, failures_of, is_online, max_one, probed, counted, effective,
}

-- the failures at the end of a history of probes, the newest first
abbrev pub trailing_failures : List Fields → ℕ
trailing_failures [] = 0
trailing_failures (probe ∷ earlier) =
    let n = trailing_failures earlier in if is_online probe then 0 else suc n

module _ (isoformat : Time → String) (limit : ℕ) (clock : ℕ → Time) where
  abbrev with_count : Option ℤ → ℕ → Fields → ProviderEndpointModel → ProviderEndpointModel
  with_count none n probe row = row
  with_count (some z) n probe row = probed isoformat limit (clock n) probe z row

  -- the endpoint's row after a history of probes, the newest first, each reading the counter that
  -- the one before it stored
  abbrev pub after_probes : List Fields → ProviderEndpointModel → ProviderEndpointModel
  after_probes [] row = row
  after_probes (probe ∷ earlier) row =
      let old = after_probes earlier row in
      with_count (failures_of old.meta_json) (trailing_failures earlier) probe old

failures_of-set :
    (n : ℕ) (meta : Fields) → failures_of (set failures_key (int (pos n)) meta) ≡ some (pos n)
unfolding truthy to_int int_eq
failures_of-set n meta = rw (get-set_self failures_key (int (pos n)) meta) (ground arith)

counted_lem :
    (is_open : Bool) (n : ℕ) → counted is_open (pos n) ≡ pos (if is_open then 0 else suc n)
counted_lem true n = refl
counted_lem false n = ground arith

effective_lem :
    (is_open : Bool) (n limit : ℕ)
    → effective is_open (ltb n (max_one limit)) (pos (if is_open then 0 else suc n)) limit
      ≡ ltb (if is_open then 0 else suc n) (max_one limit)
effective_lem true n zero = refl
effective_lem true n (suc limit) = ground arith
effective_lem false n zero = ground arith
effective_lem false n (suc limit) = ground arith

zero-max_one : (limit : ℕ) → true ≡ ltb 0 (max_one limit)
zero-max_one zero = refl
zero-max_one (suc limit) = ground arith

module _ (isoformat : Time → String) (limit : ℕ) (clock : ℕ → Time) where
  -- the counter is that of the history
  failures-after_probes :
      (history : List Fields) (row : ProviderEndpointModel)
      → failures_of row.meta_json ≡ some (pos 0)
      → failures_of (after_probes isoformat limit clock history row).meta_json
        ≡ some (pos (trailing_failures history))
  unfolding probed
  failures-after_probes [] row h = h
  failures-after_probes (probe ∷ earlier) row h =
      rw
        (
          failures-after_probes earlier row h,
          counted_lem (is_online probe) (trailing_failures earlier),
        )
        (failures_of-set (if is_online probe then 0 else suc (trailing_failures earlier)) _)

  -- Take an endpoint that is reachable with no failures counted, and any history of probes. After
  -- it the endpoint is reachable exactly when the number of failures at the end of the history is
  -- below `failures_before_offline`, or below 1 if that is 0.
  pub after_probes-reachable :
      (history : List Fields) (row : ProviderEndpointModel)
      → row.reachable ≡ true
      → failures_of row.meta_json ≡ some (pos 0)
      → (after_probes isoformat limit clock history row).reachable
        ≡ ltb (trailing_failures history) (max_one limit)
  unfolding probed
  after_probes-reachable [] row up h = up ∙ zero-max_one limit
  after_probes-reachable (probe ∷ earlier) row up h =
      rw
        (
          failures-after_probes earlier row h,
          after_probes-reachable earlier row up h,
          counted_lem (is_online probe) (trailing_failures earlier),
        )
        (effective_lem (is_online probe) (trailing_failures earlier) limit)
