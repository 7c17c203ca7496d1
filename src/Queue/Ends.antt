-- ===== src/Queue/Ends.antt =====
-- A job that a worker runs is never left running: whatever its handler meets, the job has ended as a
-- success or a failure when the handler returns.
pub mod Bodies
pub mod Run
pub mod Discovery
use mathlib.Core.Path.{subst}
use meshonator.Base.{
  ◌≡◌, refl, sym, ◌∙◌, ap, arith, Bool, true, false, ◌||◌, Option, none, some, List, [], ◌∷◌,
  String, ℕ, ◌+◌, ◌==◌, if◌then◌else◌, nat_eq, string_eq, find?, update_where, inl, inr, Bool-cases,
}
use meshonator.Json.{end}
use meshonator.Audit.{Entry, log}
use meshonator.Db.{
  Uuid, Time, Status, success, failed, running, status_eq, JobModel, Db, Message, text,
}
use meshonator.Db.Session.{
  Exn, exn_text, Result, ok, raised, Session, Exec, raise, ◌>>=◌, ◌>>◌, catch, rollback, now, pure,
  bind-eq,
}
use meshonator.Db.Session.Keeps.{Both, Keeps}
use meshonator.Jobs.{find_job, start, finish, add_result}
use meshonator.Jobs.Keeps.{OnJobs, Keeps-add_result}
use meshonator.Queue.{closing, give_up, attempt}

-- the job is in the table
abbrev pub has_job : Uuid → List JobModel → Bool
has_job id [] = false
has_job id (j ∷ jobs) = j.id == id || has_job id jobs

-- no row of the job is left pending or running
abbrev all_ended : Uuid → List JobModel → Bool
all_ended id [] = true
all_ended id (j ∷ jobs) =
    let rest = all_ended id jobs in
    if j.id == id then (if j.status == success || j.status == failed then rest else false) else rest

abbrev pub Present : Uuid → List JobModel → Type 0
Present id jobs = has_job id jobs ≡ true

abbrev pub Ended : Uuid → List JobModel → Type 0
Ended id jobs = (has_job id jobs ≡ true) × (all_ended id jobs ≡ true)

-- the outcome where an exception leaves `P`, and a return leaves `Q`
abbrev pub After : {N A : Type 0} → (Db → Type 0) → (Db → Type 0) → Result A → Session N → Type 0
After P Q (ok a) s = Both Q s
After P Q (raised e) s = Both P s

pub record Ends {N A : Type 0} (P Q : Db → Type 0) (m : Exec N A) : Type 0 where
  pub at : (s : Session N) → Both P s → After P Q (m s).0 (m s).1

module _ {N A B : Type 0} {P Q : Db → Type 0} where
  step-bind :
      (f : A → Exec N B)
      → ((a : A) → Ends P Q (f a))
      → (r : Result A) (s : Session N) → Both P s
      → (let o : Result B × Session N = elim r [ ok a ↦ f a s | raised e ↦ raise e s ] in
          After P Q o.0 o.1)
  step-bind f kf (ok a) s h = (kf a).at s h
  step-bind f kf (raised e) s h = h

  pub Ends-bind :
      (m : Exec N A) (f : A → Exec N B)
      → Keeps P m
      → ((a : A) → Ends P Q (f a))
      → Ends P Q (m >>= f)
  Ends-bind m f km kf = record { at = λ s h. step-bind f kf (m s).0 (m s).1 (km.at s h) }

pub has_job-update :
    (id : Uuid) (p : JobModel → Bool) (f : JobModel → JobModel) (jobs : List JobModel)
    → ((j : JobModel) → (f j).id ≡ j.id)
    → has_job id (update_where p f jobs) ≡ has_job id jobs
has_job-update id p f [] same = refl
has_job-update id p f (j ∷ jobs) same = ground (arith, has_job-update id p f jobs same, same j)

all_ended-update :
    (id : Uuid) (f : JobModel → JobModel) (jobs : List JobModel)
    → ((j : JobModel) → (f j).id ≡ j.id)
    → ((j : JobModel) → ((f j).status == success || (f j).status == failed) ≡ true)
    → all_ended id (update_where (λ j. j.id == id) f jobs) ≡ true
all_ended-update id f [] same over = refl
all_ended-update id f (j ∷ jobs) same over =
    ground (arith, all_ended-update id f jobs same over, same j, over j)

has_job-find :
    (id : Uuid) (jobs : List JobModel)
    → Present id jobs
    → (j : JobModel) × (find? (λ j. j.id == id) jobs ≡ some j)
has_job-find id [] h = cc
has_job-find id (j ∷ jobs) h = elim (Bool-cases (j.id == id)) [
  | inl e ↦ (j, ground arith)
  | inr e ↦
      let (found, known) = has_job-find id jobs (ground arith) in (found, ground (arith, known))
]

-- what `finish` writes into the row of the job
abbrev ended_row : Bool → Time → JobModel → JobModel
ended_row succeeded at j = record j {
  status = if succeeded then success else failed;
  finished_at = some at;
}

over-ended_row :
    (succeeded : Bool) (at : Time) (j : JobModel)
    → ((ended_row succeeded at j).status == success || (ended_row succeeded at j).status == failed)
      ≡ true
unfolding status_eq
over-ended_row true at j = refl
over-ended_row false at j = refl

update_where-Ended :
    (id : Uuid) (succeeded : Bool) (at : Time) (jobs : List JobModel)
    → Present id jobs
    → Ended id (update_where (λ j. j.id == id) (ended_row succeeded at) jobs)
update_where-Ended id succeeded at jobs h = (
  has_job-update id (λ j. j.id == id) (ended_row succeeded at) jobs (λ j. refl) ∙ h,
  all_ended-update id (ended_row succeeded at) jobs (λ j. refl) (over-ended_row succeeded at),
)

-- the action returns, and `Q` holds of both tables
abbrev pub Finished : {N : Type 0} → (Db → Type 0) → Exec N (Unit {0}) → Session N → Type 0
Finished Q m s = ((m s).0 ≡ ok tt) × Both Q (m s).1

module _ {N : Type 0} where
  done_at :
      (Q : Db → Type 0) (m : Exec N (Unit {0})) (s t : Session N)
      → m s ≡ (ok tt, t)
      → Both Q t
      → Finished Q m s
  done_at Q m s t e h = subst (λ o. (o.0 ≡ ok tt) × Both Q o.1) (sym e) (refl, h)

  after_return :
      (P Q : Db → Type 0) (r : Result (Unit {0})) (s : Session N)
      → r ≡ ok tt
      → Both Q s
      → After P Q r s
  after_return P Q r s e h = subst (λ x. After P Q x s) (sym e) h

module _ {N : Type 0} (id : Uuid) where
  -- the session after `finish`
  abbrev finished : Bool → Session N → Session N
  finished succeeded s =
      let db : Db = record s.db {
        jobs = update_where (λ j. j.id == id) (ended_row succeeded (s.clock s.reads)) s.db.jobs;
      } in
      record s { db = db; committed = db; reads = s.reads + 1 }

  finish-eq :
      (succeeded : Bool) (s : Session N) (j : JobModel)
      → find? (λ j. j.id == id) s.db.jobs ≡ some j
      → finish id succeeded s ≡ (ok tt, finished succeeded s)
  unfolding finish
  finish-eq succeeded s j known = rw known

  pub finish-Ended :
      (succeeded : Bool) (s : Session N)
      → Both (OnJobs (Present id)) s
      → Finished (OnJobs (Ended id)) (finish id succeeded) s
  finish-Ended succeeded s h =
      let (j, known) = has_job-find id s.db.jobs h.0.holds in
      let rows = update_where-Ended id succeeded (s.clock s.reads) s.db.jobs h.0.holds in
      done_at (OnJobs (Ended id)) (finish id succeeded) s (finished succeeded s)
        (finish-eq succeeded s j known) (record { holds = rows }, record { holds = rows })

  closing-Ended :
      (succeeded : Bool) (made : Time → Entry) (s : Session N)
      → Both (OnJobs (Present id)) s
      → Finished (OnJobs (Ended id)) (closing id succeeded made) s
  unfolding log
  closing-Ended succeeded made s h =
      let (j, known) = has_job-find id s.db.jobs h.0.holds in
      let rows = update_where-Ended id succeeded (s.clock s.reads) s.db.jobs h.0.holds in
      let rest : Exec N (Unit {0}) = now >>= λ at. log (made at) >> pure tt in
      done_at (OnJobs (Ended id)) (closing id succeeded made) s (rest (finished succeeded s)).1
        (bind-eq (finish id succeeded) (λ _. rest) s (finished succeeded s) tt
          (finish-eq succeeded s j known))
        (record { holds = rows }, record { holds = rows })

  pub Ends-closing :
      (succeeded : Bool) (made : Time → Entry)
      → Ends {N = N} (OnJobs (Present id)) (OnJobs (Ended id)) (closing id succeeded made)
  Ends-closing succeeded made = record {
    at = λ s h.
        let (returns, ended) = closing-Ended succeeded made s h in
        after_return (OnJobs (Present id)) (OnJobs (Ended id)) (closing id succeeded made s).0
          (closing id succeeded made s).1 returns ended;
  }

  pub give_up-Ended :
      (x : Exn) (s : Session N)
      → Both (OnJobs (Present id)) s
      → Finished (OnJobs (Ended id)) (give_up id x) s
  unfolding add_result
  give_up-Ended x s h =
      finish-Ended false (add_result id failed none (text (exn_text x)) end s).1
        ((Keeps-add_result id failed none (text (exn_text x)) end).at s h)

  step-attempt :
      (handler : Exn → Exec N (Unit {0}))
      → ((x : Exn) (s : Session N)
          → Both (OnJobs (Present id)) s
          → Finished (OnJobs (Ended id)) (handler x) s)
      → (r : Result (Unit {0})) (s : Session N)
      → After (OnJobs (Present id)) (OnJobs (Ended id)) r s
      → (let o : Result (Unit {0}) × Session N = elim r [
        | ok a ↦ pure a s
        | raised e ↦ handler e s
      ] in
          (o.0 ≡ ok tt) × Both (OnJobs (Ended id)) o.1)
  step-attempt handler ends (ok a) s h = (refl, h)
  step-attempt handler ends (raised e) s h = ends e s h

  -- the `except` part of the handlers ends the job where the body did not
  pub attempt-Ended :
      (body : Exec N (Unit {0})) (s : Session N)
      → Ends (OnJobs (Present id)) (OnJobs (Ended id)) body
      → Both (OnJobs (Present id)) s
      → Finished (OnJobs (Ended id)) (attempt id body) s
  attempt-Ended body s ends h =
      step-attempt (λ x. rollback >> give_up id x)
        (λ x t g. give_up-Ended x (rollback t).1 (g.1, g.1)) (body s).0 (body s).1 (ends.at s h)

  -- the same without the rollback
  pub catch-Ended :
      (body : Exec N (Unit {0})) (s : Session N)
      → Ends (OnJobs (Present id)) (OnJobs (Ended id)) body
      → Both (OnJobs (Present id)) s
      → Finished (OnJobs (Ended id)) (catch body (give_up id)) s
  catch-Ended body s ends h =
      step-attempt (give_up id) give_up-Ended (body s).0 (body s).1 (ends.at s h)
