-- ===== src/Jobs/Race/Once.antt =====
-- No job is won twice, in any run of jobs/service.py's transactions.
use mathlib.Core.Path.{subst}
use meshonator.Base.{◌≡◌, ◌≢◌, List, [], ◌∷◌, arith, count_by, All}
use meshonator.Db.{Uuid, Time}
use meshonator.Db.Session.{Session, ok}
use meshonator.Jobs.{is_candidate, create, start, finish, add_result, try_claim}
use meshonator.Jobs.Race.{
  Run, stop, wins, loses, creates, starts, finishes, reports, Supplied, Taken, count_by-claimed,
  candidate-Known, Supplied-Change, Taken-Change, Change-try_claim, Change-create, Change-start,
  Change-finish, Change-add_result,
}

-- no job stands twice in the list
abbrev pub EachOnce : List Uuid → Type 0
EachOnce [] = Unit {0}
EachOnce (id ∷ won) = All (λ k. k ≢ id) won × EachOnce won

rowcount :
    {N : Type 0} (id : Uuid) (at : Time) (s : Session N)
    → (try_claim id at s).0 ≡ ok 1
    → count_by (is_candidate id) s.db.jobs ≡ 1
unfolding try_claim
rowcount id at s h = ground (arith, h)

-- who wins the job takes it
Taken-won :
    {N : Type 0} (id : Uuid) (at : Time) (s : Session N)
    → Supplied s.db
    → (try_claim id at s).0 ≡ ok 1
    → Taken id (try_claim id at s).1.db
unfolding try_claim
Taken-won id at s supplied h = (
  count_by-claimed id at s.db.jobs,
  candidate-Known id s.db.next_id s.db.jobs supplied (rowcount id at s h),
)

not_again :
    {N : Type 0} (id k : Uuid) (at : Time) (s : Session N)
    → Taken id s.db
    → (try_claim k at s).0 ≡ ok 1
    → k ≢ id
not_again id k at s taken h p =
    omega
      (arith, subst (λ x. count_by (is_candidate x) s.db.jobs ≡ 1) p (rowcount k at s h), taken.0)

module _ {N : Type 0} (id : Uuid) where
  never_won :
      {s t : Session N} {won : List Uuid} → Taken id s.db → Run s won t → All (λ k. k ≢ id) won
  never_won taken (stop s) = tt
  never_won taken (wins k at s h run) = (
    not_again id k at s taken h,
    never_won (Taken-Change id s.db (try_claim k at s).1.db (Change-try_claim k at s) taken) run,
  )
  never_won taken (loses k at s h run) =
      never_won (Taken-Change id s.db (try_claim k at s).1.db (Change-try_claim k at s) taken) run
  never_won taken (creates job_type requested_by source payload s run) =
      never_won
        (Taken-Change id s.db (create job_type requested_by source payload s).1.db
          (Change-create job_type requested_by source payload s) taken)
        run
  never_won taken (starts k s run) =
      never_won (Taken-Change id s.db (start k s).1.db (Change-start k s) taken) run
  never_won taken (finishes k succeeded s run) =
      never_won
        (Taken-Change id s.db (finish k succeeded s).1.db (Change-finish k succeeded s) taken) run
  never_won taken (reports k status node_id message details s run) =
      never_won
        (Taken-Change id s.db (add_result k status node_id message details s).1.db
          (Change-add_result k status node_id message details s) taken)
        run

-- In every run of any number of workers and of the console on one job table, in whatever order their
-- transactions come, no job is won by two claims, if the ids of the jobs at the start are below the
-- supply of new ids.
pub won_once :
    {N : Type 0} {s t : Session N} {won : List Uuid} → Supplied s.db → Run s won t → EachOnce won
won_once supplied (stop s) = tt
won_once supplied (wins id at s h run) = (
  never_won id (Taken-won id at s supplied h) run,
  won_once (Supplied-Change s.db (try_claim id at s).1.db (Change-try_claim id at s) supplied) run,
)
won_once supplied (loses id at s h run) =
    won_once (Supplied-Change s.db (try_claim id at s).1.db (Change-try_claim id at s) supplied) run
won_once supplied (creates job_type requested_by source payload s run) =
    won_once
      (Supplied-Change s.db (create job_type requested_by source payload s).1.db
        (Change-create job_type requested_by source payload s) supplied)
      run
won_once supplied (starts id s run) =
    won_once (Supplied-Change s.db (start id s).1.db (Change-start id s) supplied) run
won_once supplied (finishes id succeeded s run) =
    won_once
      (Supplied-Change s.db (finish id succeeded s).1.db (Change-finish id succeeded s) supplied)
      run
won_once supplied (reports id status node_id message details s run) =
    won_once
      (Supplied-Change s.db (add_result id status node_id message details s).1.db
        (Change-add_result id status node_id message details s) supplied)
      run
