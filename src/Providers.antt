-- ===== src/Providers.antt =====
-- providers/base.py: `Provider`, the interface to a kind of radio, and the part of domain/models.py
-- that it takes. Its implementations speak to the radios by third-party libraries, so the services
-- take them as parameters. A call of a provider changes the state `N` of the world outside, returns
-- or raises, and never sees the database.
use meshonator.Base.{◌≡◌, ap, ◌∙◌, ℕ, String, Bool, Option, none, some, List}
use meshonator.Json.{Fields, Items}
use meshonator.Db.{Real}
use meshonator.Db.Session.{Session, Exec, Result, ok, raised, value_error, or_raise}
use meshonator.Inventory.{ManagedNode}

pub record ConfigPatch : Type 0 where
  pub short_name : Option String
  pub long_name : Option String
  pub role : Option String
  pub favorite : Option Bool
  pub latitude : Option Real
  pub longitude : Option Real
  pub altitude : Option Real
  pub local_config_patch : Fields
  pub module_config_patch : Fields
  pub channels_patch : Items

pub record ProviderConnection : Type 0 where
  pub endpoint : String
  pub host : String
  pub port : ℕ

abbrev pub Net : Type 0 → Type 0 → Type 0
Net N A = N → Result A × N

-- `conn` is of the type `C`; `disconnect` is also called with None, when connecting raised
pub record Provider (N C : Type 0) : Type 0 where
  pub connect : ProviderConnection → Net N C
  pub disconnect : Option C → Net N (Unit {0})
  pub fetch_nodes : C → Net N (List ManagedNode)
  pub fetch_config : C → String → Net N Fields
  pub apply_config_patch : C → String → ConfigPatch → Bool → Net N Fields
  pub mutate_node_db : C → String → String → String → Bool → Net N Fields

-- the providers by name, as `ProviderRegistry` holds them
abbrev pub Registry : Type 0 → Type 0 → Type 0
Registry N C = String → Option (Provider N C)

-- what `try: … finally: …` gives, from the outcomes of its two parts
abbrev after_finally : {A : Type 0} → Result A → Result (Unit {0}) → Result A
after_finally r (ok u) = r
after_finally r (raised e) = raised e

module _ {N : Type 0} where
  abbrev pub call : {A : Type 0} → Net N A → Exec N A
  call m s = let (r, net) = m s.net in (r, record s { net = net })

  -- `registry.get(name)`
  abbrev pub provider_of : {C : Type 0} → Registry N C → String → Exec N (Provider N C)
  provider_of registry name = or_raise (registry name) (value_error "Provider is not configured")

  module _ {C A : Type 0} (provider : Provider N C) where
    -- the `finally` part
    abbrev pub closed : Option C → Result A × Session N → Result A × Session N
    closed conn (r, s) = let (d, s') = call (provider.disconnect conn) s in (after_finally r d, s')

    abbrev pub used : (C → Exec N A) → Result C × Session N → Result A × Session N
    used body (ok conn, s) = closed (some conn) (body conn s)
    used body (raised e, s) = closed none (raised e, s)

    -- `conn = None; try: conn = provider.connect(…); body finally: provider.disconnect(conn)`
    unfoldable pub connected : ProviderConnection → (C → Exec N A) → Exec N A
    connected endpoint body s = used body (call (provider.connect endpoint) s)

module _ {N C A : Type 0} (provider : Provider N C) (conn : C) (endpoint : ProviderConnection) where
  -- a connection that is made and closed without an exception
  pub connected_lem :
      (body : C → Exec N A) (s s1 s2 : Session N) (r : Result A)
      → call (provider.connect endpoint) s ≡ (ok conn, s1)
      → body conn s1 ≡ (r, s2)
      → (provider.disconnect (some conn) s2.net).0 ≡ ok tt
      → connected provider endpoint body s
        ≡ (r, record s2 { net = (provider.disconnect (some conn) s2.net).1 })
  unfolding connected
  connected_lem body s s1 s2 r h b d =
      ap (used provider body) h
      ∙ ap (closed provider (some conn)) b
      ∙ ap
          (λ o. (after_finally r o, record s2 { net = (provider.disconnect (some conn) s2.net).1 }))
          d
