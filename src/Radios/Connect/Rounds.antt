-- ===== src/Radios/Connect/Rounds.antt =====
-- How `connect` of the Meshtastic provider ends, and the default timeout that it leaves behind.
use meshonator.Base.{◌≡◌, refl, ◌∙◌, ℕ, zero, suc, ◌<◌, Option, none, some, ◌⊎◌, inl, inr, arith}
use meshonator.Base.Int.{pos_part}
use meshonator.Db.Session.{Exn, Result, ok, raised}
use meshonator.Providers.{ProviderConnection}
use meshonator.Radios.Connect.{
  connect_round, after_round, connect_rounds, connect, connect_error, disconnect, rounds_of,
  Failing, no_round, one_round,
}
use meshonator.Radios.Settings.{Settings}
use meshonator.Radios.{Process, Library}

module _ {N C : Type 0} (library : Library N C) (settings : Settings)
    (endpoint : ProviderConnection) where
  -- some round succeeds, after fewer than `n` that fail
  abbrev pub Connected : ℕ → Option Exn → Process N → Result C × Process N → Type 0
  Connected n e p out =
      (k : ℕ) × (e' : Option Exn) × (q : Process N) × (conn : C) × (p' : Process N) × (k < n)
      × Failing library settings endpoint k e e' p q
      × (connect_round library settings endpoint q ≡ (ok conn, p'))
      × (out ≡ (ok conn, p'))

  -- `n` rounds fail, and the last exception is the one that is told
  abbrev GivenUp : ℕ → Option Exn → Process N → Result C × Process N → Type 0
  GivenUp n e p out =
      (e' : Option Exn) × (q : Process N) × Failing library settings endpoint n e e' p q
      × (out ≡ connect_rounds library settings endpoint zero e' q)

  abbrev pub Ended : ℕ → Option Exn → Process N → Result C × Process N → Type 0
  Ended n e p out = Connected n e p out ⊎ GivenUp n e p out

  -- one more round that failed
  Ended-suc :
      (n : ℕ) (d : Exn) (e : Option Exn) (p q : Process N) (out : Result C × Process N)
      → connect_round library settings endpoint p ≡ (raised d, q)
      → Ended n (some d) q out
      → Ended (suc n) e p out
  Ended-suc n d e p q out h (inl (k, e', r, conn, p', below, failing, good, ends)) =
      inl (suc k, e', r, conn, p', omega arith, one_round h failing, good, ends)
  Ended-suc n d e p q out h (inr (e', r, failing, ends)) = inr (e', r, one_round h failing, ends)

  after_round-Ended :
      (n : ℕ) (e : Option Exn) (p : Process N) (o : Result C × Process N)
      → connect_round library settings endpoint p ≡ o
      → ((d : Exn) (q : Process N)
          → Ended n (some d) q (connect_rounds library settings endpoint n (some d) q))
      → Ended
          (suc n)
          e
          p
          (after_round library settings endpoint (connect_rounds library settings endpoint n) o)
  unfolding disconnect
  after_round-Ended n e p (ok conn, q) h again =
      inl (zero, e, p, conn, q, omega arith, no_round, h, refl)
  after_round-Ended n e p (raised d, q) h again =
      Ended-suc n d e p q (connect_rounds library settings endpoint n (some d) q) h (again d q)

  connect_rounds-Ended :
      (n : ℕ) (e : Option Exn) (p : Process N)
      → Ended n e p (connect_rounds library settings endpoint n e p)
  unfolding connect_rounds
  connect_rounds-Ended zero e p = inr (e, p, no_round, refl)
  connect_rounds-Ended (suc n) e p =
      after_round-Ended n e p (connect_round library settings endpoint p) refl
        (λ d q. connect_rounds-Ended n (some d) q)

  -- after a round there is a last exception
  Failing-some :
      (k : ℕ) (c : Exn) (e' : Option Exn) (p q : Process N)
      → Failing library settings endpoint k (some c) e' p q
      → (d : Exn) × (e' ≡ some d)
  Failing-some k c e' p q no_round = (c, refl)
  Failing-some k c e' p q (one_round {k = j} {d = d} {q = r} first rest) =
      Failing-some j d e' r q rest

  Failing-not_none :
      (k : ℕ) (e : Option Exn) (p q : Process N)
      → ¬ Failing library settings endpoint (suc k) e none p q
  Failing-not_none k e p q (one_round {k = j} {d = d} {q = r} first rest) =
      let (d', h) = Failing-some j d none r q rest in absurd cc

  -- `connect` tries at most one time more than the setting says, and a setting below zero counts as
  -- zero. It returns the first connection
  -- that a round gives, or, if every round fails, raises a ProviderError with the last exception. It
  -- never reaches the assertion's failure.
  pub connect_lem :
      (p : Process N)
      → Connected
          (suc (pos_part settings.provider_connect_retries))
          none
          p
          (connect (some library) settings endpoint p)
        ⊎ ((d : Exn) × (q : Process N) × Failing library settings endpoint
              (suc (pos_part settings.provider_connect_retries))
              none
              (some d)
              p
              q
            × (connect (some library) settings endpoint p ≡ (raised (connect_error endpoint d), q)))
  unfolding connect connect_rounds rounds_of
  connect_lem p = elim (connect_rounds-Ended (rounds_of settings.provider_connect_retries) none p) [
    | inl found ↦ inl found
    | inr (none, q, failing, ends) ↦
        absurd (Failing-not_none (pos_part settings.provider_connect_retries) none p q failing)
    | inr (some d, q, failing, ends) ↦ inr (d, q, failing, ends)
  ]

  connect_round-timeout :
      (p : Process N) → (connect_round library settings endpoint p).1.timeout ≡ p.timeout
  unfolding connect_round
  connect_round-timeout p = refl

  after_round-timeout :
      (n : ℕ) (o : Result C × Process N)
      → ((e : Option Exn) (q : Process N)
          → (connect_rounds library settings endpoint n e q).1.timeout ≡ q.timeout)
      → (after_round library settings endpoint
          (connect_rounds library settings endpoint n)
          o).1.timeout
        ≡ o.1.timeout
  unfolding disconnect
  after_round-timeout n (ok conn, q) again = refl
  after_round-timeout n (raised d, q) again = again (some d) q

  connect_rounds-timeout :
      (n : ℕ) (e : Option Exn) (p : Process N)
      → (connect_rounds library settings endpoint n e p).1.timeout ≡ p.timeout
  unfolding connect_rounds
  connect_rounds-timeout zero none p = refl
  connect_rounds-timeout zero (some e) p = refl
  connect_rounds-timeout (suc n) e p =
      after_round-timeout n (connect_round library settings endpoint p) (connect_rounds-timeout n)
      ∙ connect_round-timeout p

-- `connect` leaves the default timeout of sockets as it was, whether it returns or raises.
connect-timeout :
    {N C : Type 0} (library : Option (Library N C)) (settings : Settings)
    (endpoint : ProviderConnection) (p : Process N)
    → (connect library settings endpoint p).1.timeout ≡ p.timeout
unfolding connect
connect-timeout none settings endpoint p = refl
connect-timeout (some library) settings endpoint p =
    connect_rounds-timeout library settings endpoint (rounds_of settings.provider_connect_retries)
      none p
