-- ===== src/Radios/Connect.antt =====
-- providers/meshtastic/provider.py: `_socket_timeout`, `connect` with its retries, and `disconnect`.
pub mod Rounds
use meshonator.Base.{
  ◌≡◌, refl, sym, ap, ◌∙◌, ℕ, zero, suc, ◌+◌, ◌≤◌, ◌<◌, String, Option, none, some, ◌⊎◌, inl, inr,
  arith,
}
use meshonator.Base.Int.{ℤ, pos_part}
use meshonator.Db.{Real}
use meshonator.Db.Session.{Exn, provider_error, other_error, exn_text, Result, ok, raised}
use meshonator.Providers.{Net, ProviderConnection}
use meshonator.Radios.Settings.{Settings, interface_timeout}
use meshonator.Radios.{Process, Library, done, fail, swallow, outside, ◌>>=◌, ◌>>◌}
use Prim.Native.String

-- `with _socket_timeout(t): body`: the timeout of before is set again, whatever the body does
abbrev socket_timeout : {N A : Type 0} → Real → Net (Process N) A → Net (Process N) A
socket_timeout t body p =
    let (r, q) = body (record p { timeout = some t }) in (r, record q { timeout = p.timeout })

-- `max(0, int(retries)) + 1`, the number of rounds of the loop
unfoldable pub rounds_of : ℤ → ℕ
rounds_of retries = suc (pos_part retries)

abbrev pub connect_error : ProviderConnection → Exn → Exn
connect_error endpoint e = provider_error (
    String.◌++◌ "Failed to connect to "
      (String.◌++◌ endpoint.endpoint (String.◌++◌ ": " (exn_text e))))

module _ {N C : Type 0} (library : Library N C) where
  -- a call that reads the default timeout
  abbrev timed : {A : Type 0} → (Option Real → Net N A) → Net (Process N) A
  timed m p = outside (m p.timeout) p

  unfoldable pub disconnect : Option C → Net (Process N) (Unit {0})
  disconnect none = done tt
  disconnect (some conn) = elim (library.close conn) [
    | none ↦ done tt
    | some close ↦ swallow (outside close)
  ]

  module _ (settings : Settings) (endpoint : ProviderConnection) where
    -- the `try` of a round; an exception leaves it before `conn` is set
    unfoldable pub connect_round : Net (Process N) C
    connect_round = socket_timeout settings.provider_timeout_s (do
      conn ← timed (library.tcp_interface endpoint (interface_timeout settings.provider_timeout_s))
      swallow (timed (library.wait_for_config conn))
      done conn)

    abbrev pub after_round :
        (Option Exn → Net (Process N) C) → Result C × Process N → Result C × Process N
    after_round again (ok conn, p) = (ok conn, p)
    after_round again (raised e, p) = (disconnect none >> again (some e)) p

    -- the loop, by the rounds that are left and the last error
    unfoldable pub connect_rounds : ℕ → Option Exn → Net (Process N) C
    connect_rounds zero none = fail (other_error "")
    connect_rounds zero (some last_error) = fail (connect_error endpoint last_error)
    connect_rounds (suc n) last_error = λ p. after_round (connect_rounds n) (connect_round p)

    -- `k` rounds in a row that fail, with the last error before them and after them
    pub data Failing : ℕ → Option Exn → Option Exn → Process N → Process N → Type 0 where
      no_round : {e : Option Exn} {p : Process N} → Failing 0 e e p p
      one_round :
          {k : ℕ} {d : Exn} {e e' : Option Exn} {p q r : Process N}
          → connect_round p ≡ (raised d, q)
          → Failing k (some d) e' q r
          → Failing (suc k) e e' p r

-- `connect` of a provider whose library may be missing
unfoldable pub connect :
    {N C : Type 0} → Option (Library N C) → Settings → ProviderConnection → Net (Process N) C
connect none settings endpoint = fail (provider_error "meshtastic python library unavailable")
connect (some library) settings endpoint =
    connect_rounds library settings endpoint (rounds_of settings.provider_connect_retries) none
