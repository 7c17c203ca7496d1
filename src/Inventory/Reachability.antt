-- ===== src/Inventory/Reachability.antt =====
-- inventory/service.py: `refresh_transport_reachability`, which probes the host of every provider
-- endpoint and carries what it finds over to the nodes. The probe (`ping_probe` with the timeout)
-- and `datetime.isoformat` are parameters. `failures_before_offline` is not negative: `max(1, …)`
-- makes a negative one 1.
use Prim.Native.Char.{code}
use Prim.Native.Nat.{◌^◌}
use meshonator.Base.{
  ℕ, zero, suc, ◌+◌, ◌-◌, ◌*◌, ◌/◌, String, Bool, true, false, not, ◌&&◌, Option, none, some, List,
  [], ◌∷◌, ◌==◌, if◌then◌else◌, nat_eq, string_eq, bool_eq, length, leb, update_where, any,
  count_by, map,
}
use meshonator.Base.Int.{ℤ, pos, negsuc, ltb_ℤ}
use meshonator.Base.Assoc.{Dict, lookup, insert}
use meshonator.Base.Sort.{sort_by}
use meshonator.Base.Text.{text_leb, strip}
use meshonator.Json.{Value, Fields, null, bool, int, float, str, arr, obj, get, set, truthy}
use meshonator.Db.{Time, Real, ManagedNodeModel, NodeEndpointModel, ProviderEndpointModel}
use meshonator.Db.Session.{
  other_error, Exec, ok, pure, gets, or_raise, ◌>>=◌, ◌>>◌, modify, commit, now,
}

abbrev pub failures_key : String
failures_key = "consecutive_transport_failures"

-- int of a text of ASCII digits
digits : Option ℕ → String → Option ℕ
digits n String.[] = n
digits n (String.◌∷◌ c s) =
    let value : Option ℕ = elim n [
      | none ↦ some (code c - 48)
      | some k ↦ some (k * 10 + (code c - 48))
    ] in
    let rest = digits value s in if leb 48 (code c) && leb (code c) 57 then rest else none

negated : ℕ → ℤ
negated zero = pos 0
negated (suc n) = negsuc n

signed : String → Option ℤ
signed String.[] = none
signed (String.◌∷◌ c s) =
    let plain : Option ℤ = elim (digits none (String.◌∷◌ c s)) [
      | none ↦ none
      | some n ↦ some (pos n)
    ] in
    let positive : Option ℤ = elim (digits none s) [ none ↦ none | some n ↦ some (pos n) ] in
    let negative : Option ℤ = elim (digits none s) [ none ↦ none | some n ↦ some (negated n) ] in
    if code c == 45 then negative else (if code c == 43 then positive else plain)

-- `int(value)`, with `none` where it raises
unfoldable pub to_int : Value → Option ℤ
unfolding signed digits negated
to_int (int z) = some z
to_int (bool true) = some (pos 1)
to_int (bool false) = some (pos 0)
to_int (float (pos n) k) = some (pos (n / 2 ^ k))
to_int (float (negsuc n) k) = some (negated ((n + 1) / 2 ^ k))
to_int (str s) = signed (strip s)
to_int null = none
to_int (arr xs) = none
to_int (obj d) = none

abbrev int_or_zero : Option Value → Option ℤ
int_or_zero none = some (pos 0)
int_or_zero (some v) = if truthy v then to_int v else some (pos 0)

-- `int(meta_json.get("consecutive_transport_failures", 0) or 0)`
abbrev pub failures_of : Fields → Option ℤ
failures_of meta = int_or_zero (get failures_key meta)

abbrev pub is_online : Fields → Bool
is_online probe = elim (get "is_online" probe) [ none ↦ false | some v ↦ truthy v ]

abbrev one_more : ℤ → ℤ
one_more (pos n) = pos (n + 1)
one_more (negsuc zero) = pos 0
one_more (negsuc (suc n)) = negsuc n

abbrev pub max_one : ℕ → ℕ
max_one zero = 1
max_one (suc n) = suc n

-- the counter after a probe
abbrev pub counted : Bool → ℤ → ℤ
counted is_open failures = if is_open then pos 0 else one_more failures

-- whether the endpoint counts as reachable after a probe, by the counter after it
abbrev pub effective : Bool → Bool → ℤ → ℕ → Bool
effective is_open previous failures limit =
    if is_open then true else (previous && ltb_ℤ failures (pos (max_one limit)))

module _ (isoformat : Time → String) where
  -- the endpoint's row after a probe
  unfoldable pub probed : ℕ → Time → Fields → ℤ → ProviderEndpointModel → ProviderEndpointModel
  probed limit at probe failures row =
      let is_open : Bool = is_online probe in
      let count : ℤ = counted is_open failures in
      record row {
        reachable = effective is_open row.reachable count limit;
        last_seen = if is_open then some at else row.last_seen;
        meta_json = set failures_key (int count) (
            set "last_transport_probe" (obj probe)
              (set "last_transport_probe_at" (str (isoformat at)) row.meta_json));
      }

-- the counts of the endpoints, and `endpoint_state`
pub record Tally : Type 0 where
  pub online : ℕ
  pub offline : ℕ
  pub state : Dict String Bool

abbrev tallied : String → Bool → Tally → Tally
tallied endpoint is_up t = record {
  online = if is_up then t.online + 1 else t.online;
  offline = if is_up then t.offline else t.offline + 1;
  state = insert endpoint is_up t.state;
}

pub record Report : Type 0 where
  pub checked_at : Time
  pub timeout_s : Real
  pub endpoints_total : ℕ
  pub endpoints_online : ℕ
  pub endpoints_offline : ℕ
  pub nodes_total : ℕ
  pub nodes_online : ℕ
  pub nodes_offline : ℕ
  pub node_changes : ℕ

abbrev is_up : Dict String Bool → String → Bool
is_up state endpoint = elim (lookup endpoint state) [ none ↦ false | some b ↦ b ]

-- whether one of the node's endpoints is up
abbrev is_reachable : Dict String Bool → List NodeEndpointModel → ManagedNodeModel → Bool
is_reachable state endpoints n = any (λ e. e.node_id == n.id && is_up state e.endpoint) endpoints

abbrev set_reachable : (ManagedNodeModel → Bool) → ManagedNodeModel → ManagedNodeModel
set_reachable reach n = record n { reachable = reach n }

module _ {N : Type 0} (ping_probe : String → Real → N → Fields × N)
    (isoformat : Time → String) where
  abbrev ask : String → Real → Exec N Fields
  ask host timeout s =
      let (probe, net) = ping_probe host timeout s.net in (ok probe, record s { net = net })

  -- one round of the loop over the endpoints
  unfoldable pub refresh_endpoint : Real → ℕ → Time → Tally → ProviderEndpointModel → Exec N Tally
  refresh_endpoint timeout limit at t row = do
    probe ← ask row.host timeout
    failures ← or_raise (failures_of row.meta_json) (other_error "int")
    let row' : ProviderEndpointModel = probed isoformat limit at probe failures row
    modify (λ db. record db {
      provider_endpoints = update_where (λ p. p.id == row.id) (λ _. row') db.provider_endpoints;
      node_endpoints =
          update_where (λ e. e.endpoint == row.endpoint) (λ e. record e { last_seen = some at })
            db.node_endpoints;
    })
    pure (tallied row.endpoint row'.reachable t)

  unfoldable pub refresh_endpoints :
      Real → ℕ → Time → Tally → List ProviderEndpointModel → Exec N Tally
  refresh_endpoints timeout limit at t [] = pure t
  refresh_endpoints timeout limit at t (row ∷ rows) =
      refresh_endpoint timeout limit at t row >>= λ t'. refresh_endpoints timeout limit at t' rows

  unfoldable pub refresh_transport_reachability : Real → ℕ → Exec N Report
  refresh_transport_reachability timeout failures_before_offline = do
    at ← now
    endpoint_rows ← gets (λ db. sort_by (λ a b. text_leb a.host b.host) db.provider_endpoints)
    t ←
        refresh_endpoints timeout failures_before_offline at
          (record { online = 0; offline = 0; state = [] }) endpoint_rows
    before ← gets (λ db. db)
    let reach : ManagedNodeModel → Bool = is_reachable t.state before.node_endpoints
    modify (λ db. record db { nodes = map (set_reachable reach) db.nodes })
    commit
    pure (record {
      checked_at = at;
      timeout_s = timeout;
      endpoints_total = length endpoint_rows;
      endpoints_online = t.online;
      endpoints_offline = t.offline;
      nodes_total = length before.nodes;
      nodes_online = count_by reach before.nodes;
      nodes_offline = count_by (λ n. not (reach n)) before.nodes;
      node_changes = count_by (λ n. not (n.reachable == reach n)) before.nodes;
    })
