-- ===== src/Db/Session/Keeps.antt =====
-- Invariants of actions on a session, with one rule for each way to build an action.
use meshonator.Base.{Bool, true, false, Option, if◌then◌else◌}
use meshonator.Db.{Db}
use meshonator.Db.Session.{
  Exn, Result, ok, raised, Session, Exec, pure, raise, gets, or_raise, ◌>>=◌, commit, rollback, now,
  catch,
}

-- a predicate on the tables holds of what the session sees and of what is committed
abbrev pub Both : {N : Type 0} → (Db → Type 0) → Session N → Type 0
Both P s = P s.db × P s.committed

-- `m` keeps `P`, whether it returns or raises
pub record Keeps {N A : Type 0} (P : Db → Type 0) (m : Exec N A) : Type 0 where
  pub at : (s : Session N) → Both P s → Both P (m s).1

module _ {N A : Type 0} {P : Db → Type 0} where
  pub Keeps-pure : (a : A) → Keeps {N = N} P (pure a)
  Keeps-pure a = record { at = λ s h. h }

  pub Keeps-raise : (e : Exn) → Keeps {N = N} {A = A} P (raise e)
  Keeps-raise e = record { at = λ s h. h }

  pub Keeps-gets : (f : Db → A) → Keeps {N = N} P (gets f)
  Keeps-gets f = record { at = λ s h. h }

  pub Keeps-or_raise : (o : Option A) (e : Exn) → Keeps {N = N} P (or_raise o e)
  Keeps-or_raise o e = record { at = λ s h. h }

  pub Keeps-if : (b : Bool) (m n : Exec N A) → Keeps P m → Keeps P n → Keeps P (if b then m else n)
  Keeps-if true m n km kn = km
  Keeps-if false m n km kn = kn

  step-catch :
      (handler : Exn → Exec N A)
      → ((e : Exn) → Keeps P (handler e))
      → (r : Result A) (s : Session N) → Both P s
      → (let o : Result A × Session N = elim r [ ok a ↦ pure a s | raised e ↦ handler e s ] in
          Both P o.1)
  step-catch handler kh (ok a) s h = h
  step-catch handler kh (raised e) s h = (kh e).at s h

  pub Keeps-catch :
      (m : Exec N A) (handler : Exn → Exec N A)
      → Keeps P m
      → ((e : Exn) → Keeps P (handler e))
      → Keeps P (catch m handler)
  Keeps-catch m handler km kh = record {
    at = λ s h. step-catch handler kh (m s).0 (m s).1 (km.at s h);
  }

module _ {N A B : Type 0} {P : Db → Type 0} where
  step-bind :
      (f : A → Exec N B)
      → ((a : A) → Keeps P (f a))
      → (r : Result A) (s : Session N) → Both P s
      → (let o : Result B × Session N = elim r [ ok a ↦ f a s | raised e ↦ raise e s ] in
          Both P o.1)
  step-bind f kf (ok a) s h = (kf a).at s h
  step-bind f kf (raised e) s h = h

  pub Keeps-bind :
      (m : Exec N A) (f : A → Exec N B) → Keeps P m → ((a : A) → Keeps P (f a)) → Keeps P (m >>= f)
  Keeps-bind m f km kf = record { at = λ s h. step-bind f kf (m s).0 (m s).1 (km.at s h) }

module _ {N : Type 0} {P : Db → Type 0} where
  pub Keeps-now : Keeps {N = N} P now
  Keeps-now = record { at = λ s h. h }

  pub Keeps-commit : Keeps {N = N} P commit
  Keeps-commit = record { at = λ s h. (h.0, h.0) }

  pub Keeps-rollback : Keeps {N = N} P rollback
  Keeps-rollback = record { at = λ s h. (h.1, h.1) }

pub ruleset keeps_rules = (
  Keeps-pure, Keeps-raise, Keeps-gets, Keeps-or_raise, Keeps-if, Keeps-now, Keeps-commit,
  Keeps-rollback, Keeps-catch, Keeps-bind,
)
