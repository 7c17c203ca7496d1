-- ===== src/Db/Session.antt =====
-- A database session (db/session.py, SQLAlchemy's `Session`) as the services use it, and actions on
-- it that may raise. `db` is what the session sees, its own pending changes included; `committed`
-- is what a rollback goes back to. `clock` and `reads` give the readings of `datetime.now`: the
-- n-th reading is `clock n`. `net` is the state of what lies outside: the network and the radios.
pub mod Keeps
use meshonator.Base.{◌≡◌, ap, ℕ, ◌+◌, String, Bool, Option, none, some, if◌then◌else◌}
use meshonator.Db.{Uuid, Time, Db}

-- ValueError, ProviderError, SQLAlchemy's IntegrityError and any other exception, with its text
pub data Exn : Type 0 where
  value_error provider_error integrity_error other_error : String → Exn

-- str(exc)
abbrev pub exn_text : Exn → String
exn_text (value_error s) = s
exn_text (provider_error s) = s
exn_text (integrity_error s) = s
exn_text (other_error s) = s

pub data Result (A : Type 0) : Type 0 where
  ok : A → Result A
  raised : Exn → Result A

abbrev present : {A : Type 0} → Option A → Exn → Result A
present none e = raised e
present (some a) e = ok a

pub record Session (N : Type 0) : Type 0 where
  pub db : Db
  pub committed : Db
  pub clock : ℕ → Time
  pub reads : ℕ
  pub net : N

abbrev pub Exec : Type 0 → Type 0 → Type 0
Exec N A = Session N → Result A × Session N

module _ {N A : Type 0} where
  abbrev pub pure : A → Exec N A
  pure a s = (ok a, s)

  abbrev pub raise : Exn → Exec N A
  raise e s = (raised e, s)

  -- a query
  abbrev pub gets : (Db → A) → Exec N A
  gets f s = (ok (f s.db), s)

  abbrev pub or_raise : Option A → Exn → Exec N A
  or_raise o e s = (present o e, s)

module _ {N A B : Type 0} where
  infixl 5 ◌>>=◌ ◌>>◌
  abbrev pub ◌>>=◌ : Exec N A → (A → Exec N B) → Exec N B
  ◌>>=◌ m f s = let (r, s') = m s in elim r [ ok a ↦ f a s' | raised e ↦ raise e s' ]

  abbrev pub ◌>>◌ : Exec N A → Exec N B → Exec N B
  m >> k = m >>= λ _. k

module _ {N : Type 0} where
  -- a pending change of the session's objects
  abbrev pub modify : (Db → Db) → Exec N (Unit {0})
  modify f s = (ok tt, record s { db = f s.db })

  abbrev pub commit : Exec N (Unit {0})
  commit s = (ok tt, record s { committed = s.db })

  -- a commit under a constraint: a violation rolls the transaction back and raises
  abbrev pub commit_if : (Db → Bool) → Exec N (Unit {0})
  commit_if holds s =
      if holds s.db
      then commit s
      else (raised (integrity_error "IntegrityError"), record s { db = s.committed })

  abbrev pub rollback : Exec N (Unit {0})
  rollback s = (ok tt, record s { db = s.committed })

  -- datetime.now(timezone.utc)
  abbrev pub now : Exec N Time
  now s = (ok (s.clock s.reads), record s { reads = s.reads + 1 })

  -- uuid.uuid4()
  abbrev pub new_id : Exec N Uuid
  new_id s = (ok s.db.next_id, record s { db = record s.db { next_id = s.db.next_id + 1 } })

  -- `try: m except Exception as exc: handler(exc)`
  abbrev pub catch : {A : Type 0} → Exec N A → (Exn → Exec N A) → Exec N A
  catch m handler s = let (r, s') = m s in elim r [ ok a ↦ pure a s' | raised e ↦ handler e s' ]

  -- `with SessionLocal() as db: m`: closing the session drops what was not committed
  abbrev pub with_session : {A : Type 0} → Exec N A → Exec N A
  with_session m s = let (r, s') = m s in (r, record s' { db = s'.committed })

-- a bind whose first part returns
pub bind-ok :
    {N A B : Type 0} (m : Exec N A) (f : A → Exec N B) (s : Session N) (a : A)
    → (m s).0 ≡ ok a
    → (m >>= f) s ≡ f a (m s).1
bind-ok {N = N} {B = B} m f s a h =
    ap
      (λ r.
        let out : Result B × Session N = elim r [
          | ok x ↦ f x (m s).1
          | raised e ↦ raise e (m s).1
        ] in
        out)
      h

-- the same where the whole outcome of the first part is known
pub bind-eq :
    {N A B : Type 0} (m : Exec N A) (f : A → Exec N B) (s t : Session N) (a : A)
    → m s ≡ (ok a, t)
    → (m >>= f) s ≡ f a t
bind-eq {N = N} {B = B} m f s t a h =
    ap
      (λ o.
        let out : Result B × Session N = elim o.0 [ ok x ↦ f x o.1 | raised e ↦ raise e o.1 ] in
        out)
      h

-- a bind whose first part raises
pub bind-raised :
    {N A B : Type 0} (m : Exec N A) (f : A → Exec N B) (s t : Session N) (e : Exn)
    → m s ≡ (raised e, t)
    → (m >>= f) s ≡ (raised e, t)
bind-raised {N = N} {B = B} m f s t e h =
    ap
      (λ o.
        let out : Result B × Session N = elim o.0 [ ok x ↦ f x o.1 | raised x ↦ raise x o.1 ] in
        out)
      h
