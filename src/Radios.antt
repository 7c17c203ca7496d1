-- ===== src/Radios.antt =====
-- providers/meshtastic/provider.py and providers/meshcore/provider.py: the two kinds of radio behind
-- `Provider`. The library that speaks to a radio (`meshtastic`, with protobuf) is a parameter: a
-- record of its calls, which act on the state `N` of the world outside and may raise.
pub mod Settings
pub mod Connect
pub mod Sections
pub mod Channels
pub mod Apply
pub mod Info
pub mod Meshtastic
pub mod Meshcore
pub mod Capabilities
pub mod Discover
pub mod JsonSafe
mod Tests
use meshonator.Base.{◌≡◌, ap, ℕ, String, Option, List}
use meshonator.Base.Int.{ℤ}
use meshonator.Json.{Fields, Value, Items}
use meshonator.Db.{Real}
use meshonator.Db.Session.{Exn, Result, ok, raised}
use meshonator.Providers.{Net, ProviderConnection}

-- the process: `socket`'s default timeout, and the world outside
pub record Process (N : Type 0) : Type 0 where
  pub timeout : Option Real
  pub net : N

mutual
  -- an object of the library that is no protobuf message, by its attributes
  pub data Attributes : Type 0 where
    no_more : Attributes
    attribute : (name : String) (held : Attribute) (rest : Attributes) → Attributes

  pub data Attribute : Type 0 where
    plain : Value → Attribute
    object : Attributes → Attribute

-- A section of a configuration: a protobuf message, which `ParseDict` writes to, or else an object
-- whose attributes are read and set.
pub data Section (N : Type 0) : Type 0 where
  descriptor : (Fields → Net N (Unit {0})) → Section N
  attributes : (N → Attributes) → (Attributes → N → N) → Section N

pub record Channel (N : Type 0) : Type 0 where
  pub index : Option ℤ
  pub settings : Option (Section N)
  pub module_settings : Option (Section N)
  -- `channel.role = enum_type.Value(name)`
  pub set_role : String → Net N (Unit {0})

-- `conn.localNode`; a method that the object lacks is `none`
pub record LocalNode (N : Type 0) : Type 0 where
  pub set_owner : Option (Option String → Option String → Net N (Unit {0}))
  pub set_fixed_position : Option (Real → Real → ℤ → Net N (Unit {0}))
  pub write_config : Option (String → Net N (Unit {0}))
  pub write_channel : Option (ℤ → Net N (Unit {0}))
  pub set_favorite : String → Net N (Unit {0})
  pub remove_favorite : String → Net N (Unit {0})
  pub remove_node : String → Net N (Unit {0})
  -- `hasattr` and `getattr` of `localConfig` and `moduleConfig`
  pub local_section : String → Option (Section N)
  pub module_section : String → Option (Section N)
  pub channels : List (Channel N)

-- What is read of a connection, its protobuf messages as the dicts of `MessageToDict`. The nodes are
-- JSON values, which `to_json_safe` leaves as they are.
pub record LocalInfo : Type 0 where
  pub local_config : Fields
  pub module_config : Fields
  pub channels : Items
  -- `local_node.getURL()`
  pub url : Option (Result String)

pub record ConnInfo : Type 0 where
  pub nodes : Value
  pub my_info : Fields
  pub metadata : Fields
  pub local_info : Option LocalInfo

-- `TCPInterface` and the connection `C` that it gives. The default timeout is an argument of the
-- calls that open sockets: they read it and leave it alone.
pub record Library (N C : Type 0) : Type 0 where
  pub tcp_interface : ProviderConnection → ℕ → Option Real → Net N C
  pub wait_for_config : C → Option Real → Net N (Unit {0})
  pub close : C → Option (Net N (Unit {0}))
  pub local_node : C → Option (LocalNode N)
  pub info : C → N → ConnInfo
  pub wait_for_ack : C → Option (Net N (Unit {0}))
  -- the text of `round(time.monotonic() - started_at, 2)`
  pub elapsed_s : N → N → String

module _ {N : Type 0} where
  abbrev pub done : {A : Type 0} → A → Net N A
  done a n = (ok a, n)

  abbrev pub fail : {A : Type 0} → Exn → Net N A
  fail e n = (raised e, n)

  infixl 5 ◌>>=◌ ◌>>◌
  abbrev pub ◌>>=◌ : {A B : Type 0} → Net N A → (A → Net N B) → Net N B
  ◌>>=◌ m f n = let (r, n') = m n in elim r [ ok a ↦ f a n' | raised e ↦ fail e n' ]

  abbrev pub ◌>>◌ : {B : Type 0} → Net N (Unit {0}) → Net N B → Net N B
  m >> k = m >>= λ _. k

  -- `try: m except Exception: pass`
  abbrev pub swallow : Net N (Unit {0}) → Net N (Unit {0})
  swallow m n = (ok tt, (m n).1)

  -- a call on the world outside, made by the process
  abbrev pub outside : {A : Type 0} → Net N A → Net (Process N) A
  outside m p = let (r, net) = m p.net in (r, record p { net = net })

-- a bind whose first part returns
pub bind-ok :
    {N A B : Type 0} (m : Net N A) (f : A → Net N B) (n : N) (a : A)
    → (m n).0 ≡ ok a
    → (m >>= f) n ≡ f a (m n).1
bind-ok {N = N} {B = B} m f n a h =
    ap
      (λ r.
        let out : Result B × N = elim r [ ok x ↦ f x (m n).1 | raised e ↦ fail e (m n).1 ] in out)
      h
