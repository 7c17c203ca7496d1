-- ===== src/Jobs/Race.antt =====
-- Several workers and the console on one job table: the transactions of `JobsService` as the steps of
-- a run, in any order. Two workers that read the same candidates race in their UPDATE statements.
pub mod Once
use Prim.Native.Nat.{◌<◌, ◌≤◌}
use meshonator.Base.{
  ◌≡◌, ◌≢◌, refl, ℕ, suc, ◌+◌, String, Bool, true, false, ◌&&◌, Option, none, some, List, [], ◌∷◌,
  ◌++◌, ◌==◌, if◌then◌else◌, nat_eq, arith, count_by, count_by-append, update_where, All,
  All-append, Option-cases, inl, inr, find?,
}
use meshonator.Json.{Fields}
use meshonator.Db.{
  Uuid, Time, Status, pending, running, success, failed, status_eq, JobModel, Message, Db,
}
use meshonator.Db.Session.{Session, ok}
use meshonator.Jobs.{is_candidate, claimed, create, start, finish, add_result, try_claim}

-- The runs from one session to another, with the jobs that were won by a worker, in their order.
pub data Run {N : Type 0} : Session N → List Uuid → Session N → Type 0 where
  stop : (s : Session N) → Run s [] s
  wins :
      (id : Uuid) (at : Time) (s : Session N) {won : List Uuid} {t : Session N}
      → (try_claim id at s).0 ≡ ok 1
      → Run (try_claim id at s).1 won t
      → Run s (id ∷ won) t
  loses :
      (id : Uuid) (at : Time) (s : Session N) {won : List Uuid} {t : Session N}
      → (try_claim id at s).0 ≢ ok 1
      → Run (try_claim id at s).1 won t
      → Run s won t
  creates :
      (job_type requested_by source : String) (payload : Fields) (s : Session N) {won : List Uuid}
      {t : Session N}
      → Run (create job_type requested_by source payload s).1 won t
      → Run s won t
  starts :
      (id : Uuid) (s : Session N) {won : List Uuid} {t : Session N}
      → Run (start id s).1 won t
      → Run s won t
  finishes :
      (id : Uuid) (succeeded : Bool) (s : Session N) {won : List Uuid} {t : Session N}
      → Run (finish id succeeded s).1 won t
      → Run s won t
  reports :
      (id : Uuid) (status : Status) (node_id : Option Uuid) (message : Message) (details : Fields)
      (s : Session N) {won : List Uuid} {t : Session N}
      → Run (add_result id status node_id message details s).1 won t
      → Run s won t

-- What a step does to the job table: nothing, rows that do not become pending, or one new row.
pub data Change (d e : Db) : Type 0 where
  unchanged : e.jobs ≡ d.jobs → d.next_id ≤ e.next_id → Change d e
  updated :
      (p : JobModel → Bool) (f : JobModel → JobModel)
      → ((j : JobModel) → (f j).id ≡ j.id)
      → ((j : JobModel) → ((f j).status == pending) ≡ false)
      → e.jobs ≡ update_where p f d.jobs
      → e.next_id ≡ d.next_id
      → Change d e
  added :
      (j : JobModel)
      → j.id ≡ d.next_id
      → e.jobs ≡ d.jobs ++ j ∷ []
      → e.next_id ≡ d.next_id + 1
      → Change d e

-- the ids in the table are below the supply of ids
abbrev Known : ℕ → JobModel → Type 0
Known n j = j.id < n

abbrev pub Supplied : Db → Type 0
Supplied d = All (Known d.next_id) d.jobs

-- no row of the job is pending, and no new row can have its id
abbrev pub Taken : Uuid → Db → Type 0
Taken id d = (count_by (is_candidate id) d.jobs ≡ 0) × (id < d.next_id)

Known-update :
    (n : ℕ) (p : JobModel → Bool) (f : JobModel → JobModel) (jobs : List JobModel)
    → ((j : JobModel) → (f j).id ≡ j.id)
    → All (Known n) jobs
    → All (Known n) (update_where p f jobs)
Known-update n p f [] same h = tt
Known-update n p f (j ∷ jobs) same (first, rest) =
    (ground (arith, same j, first), Known-update n p f jobs same rest)

Known-later : (m n : ℕ) (jobs : List JobModel) → m ≤ n → All (Known m) jobs → All (Known n) jobs
Known-later m n [] le h = tt
Known-later m n (j ∷ jobs) le (first, rest) =
    (omega (arith, first, le), Known-later m n jobs le rest)

-- a row that is not made pending is no candidate
count_by-update :
    (id : Uuid) (p : JobModel → Bool) (f : JobModel → JobModel) (jobs : List JobModel)
    → ((j : JobModel) → ((f j).status == pending) ≡ false)
    → count_by (is_candidate id) jobs ≡ 0
    → count_by (is_candidate id) (update_where p f jobs) ≡ 0
count_by-update id p f [] off h = refl
count_by-update id p f (j ∷ jobs) off h = ground (arith, h, off j, count_by-update id p f jobs off)

claimed-off : (at : Time) (j : JobModel) → ((claimed at j).status == pending) ≡ false
unfolding status_eq
claimed-off at j = refl

pub count_by-claimed :
    (id : Uuid) (at : Time) (jobs : List JobModel)
    → count_by (is_candidate id) (update_where (is_candidate id) (claimed at) jobs) ≡ 0
count_by-claimed id at [] = refl
count_by-claimed id at (j ∷ jobs) = ground (arith, count_by-claimed id at jobs, claimed-off at j)

pub candidate-Known :
    (id n : ℕ) (jobs : List JobModel)
    → All (Known n) jobs
    → count_by (is_candidate id) jobs ≡ 1
    → id < n
candidate-Known id n [] h e = cc
candidate-Known id n (j ∷ jobs) (first, rest) e =
    ground (arith, e, first, candidate-Known id n jobs rest)

pub Supplied-Change : (d e : Db) → Change d e → Supplied d → Supplied e
Supplied-Change d e (unchanged jobs later) h =
    rw jobs (Known-later d.next_id e.next_id d.jobs later h)
Supplied-Change d e (updated p f ids off jobs next) h =
    rw (jobs, next) (Known-update d.next_id p f d.jobs ids h)
Supplied-Change d e (added j fresh jobs next) h = rw jobs (
    rw next (
      All-append (Known (d.next_id + 1)) d.jobs (j ∷ [])
        (Known-later d.next_id (d.next_id + 1) d.jobs (omega arith) h) (omega (arith, fresh), tt)))

pub Taken-Change : (id : Uuid) (d e : Db) → Change d e → Taken id d → Taken id e
Taken-Change id d e (unchanged jobs later) (none_left, below) =
    (rw jobs none_left, omega (arith, below, later))
Taken-Change id d e (updated p f ids off jobs next) (none_left, below) =
    (rw jobs (count_by-update id p f d.jobs off none_left), rw next below)
Taken-Change id d e (added j fresh jobs next) (none_left, below) = (
  rw jobs
      (ground (arith, count_by-append (is_candidate id) d.jobs (j ∷ []), none_left, below, fresh)),
  omega (arith, below, next),
)

ended-off : (succeeded : Bool) → ((if succeeded then success else failed) == pending) ≡ false
unfolding status_eq
ended-off true = refl
ended-off false = refl

module _ {N : Type 0} where
  pub Change-try_claim :
      (id : Uuid) (at : Time) (s : Session N) → Change s.db (try_claim id at s).1.db
  unfolding try_claim
  Change-try_claim id at s =
      updated (is_candidate id) (claimed at) (λ j. refl) (claimed-off at) refl refl

  pub Change-create :
      (job_type requested_by source : String) (payload : Fields) (s : Session N)
      → Change s.db (create job_type requested_by source payload s).1.db
  unfolding create
  Change-create job_type requested_by source payload s = added _ refl refl refl

  pub Change-start : (id : Uuid) (s : Session N) → Change s.db (start id s).1.db
  unfolding start status_eq
  Change-start id s = elim (Option-cases (find? (λ j. j.id == id) s.db.jobs)) [
    | inl e ↦ rw (e, start) (unchanged refl (omega arith))
    | inr (j, e) ↦
        rw (e, start)
          (updated (λ j. j.id == id)
            (λ j. record j { status = running; started_at = some (s.clock s.reads) }) (λ j. refl)
            (λ j. refl) refl refl)
  ]

  pub Change-finish :
      (id : Uuid) (succeeded : Bool) (s : Session N) → Change s.db (finish id succeeded s).1.db
  unfolding finish
  Change-finish id succeeded s = elim (Option-cases (find? (λ j. j.id == id) s.db.jobs)) [
    | inl e ↦ rw (e, finish) (unchanged refl (omega arith))
    | inr (j, e) ↦
        rw (e, finish)
          (updated (λ j. j.id == id)
            (λ j. record j {
              status = if succeeded then success else failed;
              finished_at = some (s.clock s.reads);
            })
            (λ j. refl) (λ j. ended-off succeeded) refl refl)
  ]

  pub Change-add_result :
      (id : Uuid) (status : Status) (node_id : Option Uuid) (message : Message) (details : Fields)
      (s : Session N)
      → Change s.db (add_result id status node_id message details s).1.db
  unfolding add_result
  Change-add_result id status node_id message details s = unchanged refl (omega arith)
