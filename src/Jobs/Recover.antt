-- ===== src/Jobs/Recover.antt =====
-- `JobsService.recover_stale_running_jobs`: which jobs it fails, what it leaves alone, and what it
-- records.
use mathlib.Core.List.{append-nil, append_assoc, map-append}
use mathlib.Core.Option
use mathlib.Core.Path.{subst}
use meshonator.Base.{
  ℕ, ◌+◌, ◌≡◌, ◌≢◌, refl, sym, ◌∙◌, Bool, true, false, ◌&&◌, ◌||◌, Option, none, some, List, [],
  ◌∷◌, ◌++◌, map, arith, ◌==◌, if◌then◌else◌, nat_eq, find?, filter_by, update_where, count_by, any,
  All, Bool-cases, inl, inr,
}
use meshonator.Base.Member.{DistinctBy}
use meshonator.Db.{Uuid, Time, JobModel, JobResultModel, failed}
use meshonator.Db.Session.{Session, ok}
use meshonator.Jobs.{
  find_job, recoverable, is_stale, recovery_row, recover_rows, recover_stale_running_jobs,
}
use meshonator.Jobs.Claim.{DistinctJobs}

-- a job after its recovery
abbrev pub mark : Time → JobModel → JobModel
mark at j = record j { status = failed; finished_at = some at }

abbrev mark_if : Bool → Time → Option JobModel → Option JobModel
mark_if b at none = none
mark_if b at (some j) = some (if b then mark at j else j)

find_marked :
    (k i : Uuid) (at : Time) (jobs : List JobModel)
    → find? (λ j. j.id == k) (update_where (λ j. j.id == i) (mark at) jobs)
      ≡ mark_if (i == k) at (find? (λ j. j.id == k) jobs)
find_marked k i at [] = refl
find_marked k i at (j ∷ jobs) = ground (arith, find_marked k i at jobs)

mark_if-false : (at : Time) (o : Option JobModel) → o ≡ mark_if false at o
mark_if-false at none = refl
mark_if-false at (some j) = refl

mark_if-mark_if :
    (b c : Bool) (at : Time) (o : Option JobModel)
    → mark_if b at (mark_if c at o) ≡ mark_if (c || b) at o
mark_if-mark_if b c at none = refl
mark_if-mark_if true true at (some j) = refl
mark_if-mark_if true false at (some j) = refl
mark_if-mark_if false true at (some j) = refl
mark_if-mark_if false false at (some j) = refl

module _ (stale_after : Option ℕ) (at : Time) where
  abbrev stale_at : Uuid → JobModel → Bool
  stale_at k r = r.id == k && is_stale stale_after at r

  abbrev job_ids : List JobResultModel → List Uuid
  job_ids = map (λ r. r.job_id)

  module _ {N : Type 0} where
    abbrev recover_one : JobModel → Session N → Session N
    recover_one job s = record s {
      db = record s.db {
        jobs = update_where (λ j. j.id == job.id) (mark at) s.db.jobs;
        results = s.db.results ++ recovery_row stale_after job.id s.db.next_id ∷ [];
        next_id = s.db.next_id + 1;
      };
    }

    recover_rows-count :
        (rows : List JobModel) (s : Session N)
        → (recover_rows stale_after at rows s).0 ≡ ok (count_by (is_stale stale_after at) rows)
    unfolding recover_rows
    recover_rows-count [] s = refl
    recover_rows-count (job ∷ rows) s =
        ground (arith, recover_rows-count rows s, recover_rows-count rows (recover_one job s))

    recover_rows-cons :
        (job : JobModel) (rows : List JobModel) (s : Session N)
        → (recover_rows stale_after at (job ∷ rows) s).1
          ≡ (recover_rows stale_after at rows
              (if is_stale stale_after at job then recover_one job s else s)).1
    unfolding recover_rows
    recover_rows-cons job rows s = ground (arith, recover_rows-count rows (recover_one job s))

    find-recover_rows :
        (k : Uuid) (rows : List JobModel) (s : Session N)
        → find_job k (recover_rows stale_after at rows s).1.db
          ≡ mark_if (any (stale_at k) rows) at (find_job k s.db)
    unfolding recover_rows
    find-recover_rows k [] s = mark_if-false at (find_job k s.db)
    find-recover_rows k (job ∷ rows) s = elim (Bool-cases (is_stale stale_after at job)) [
      | inl e ↦
          rw
            (
              recover_rows-cons job rows s,
              e,
              find-recover_rows k rows (recover_one job s),
              find_marked k job.id at s.db.jobs,
              mark_if-mark_if,
            )
            (ground arith)
      | inr e ↦ rw (recover_rows-cons job rows s, e) (ground (arith, find-recover_rows k rows s))
    ]

    results-recover_rows :
        (rows : List JobModel) (s : Session N)
        → job_ids (recover_rows stale_after at rows s).1.db.results
          ≡ job_ids s.db.results ++ map (λ j. j.id) (filter_by (is_stale stale_after at) rows)
    unfolding recover_rows
    results-recover_rows [] s = sym (append-nil _)
    results-recover_rows (job ∷ rows) s = elim (Bool-cases (is_stale stale_after at job)) [
      | inl e ↦
          rw (recover_rows-cons job rows s, e, results-recover_rows rows (recover_one job s))
            (simp (map-append, append_assoc))
      | inr e ↦ rw (recover_rows-cons job rows s, e) (results-recover_rows rows s)
    ]

-- the test by which the method picks a job
abbrev pub is_recovered : Option ℕ → Bool → Time → JobModel → Bool
is_recovered stale_after include_pending at j =
    recoverable include_pending j && is_stale stale_after at j

module _ (stale_after : Option ℕ) (include_pending : Bool) (at : Time) where
  -- among the loaded rows, those of a job's id are the job itself
  any-absent :
      (k : Uuid) (jobs : List JobModel)
      → All (λ j. j.id ≢ k) jobs
      → any (stale_at stale_after at k) (filter_by (recoverable include_pending) jobs) ≡ false
  any-absent k [] h = refl
  any-absent k (j ∷ jobs) (hj, h) = ground (arith, any-absent k jobs h)

  any-missing :
      (k : Uuid) (jobs : List JobModel)
      → find? (λ j. j.id == k) jobs ≡ none
      → any (stale_at stale_after at k) (filter_by (recoverable include_pending) jobs) ≡ false
  any-missing k [] h = refl
  any-missing k (j ∷ jobs) h = ground (arith, any-missing k jobs)

  any-found :
      (k : Uuid) (jobs : List JobModel) (j : JobModel)
      → DistinctBy (λ j. j.id) jobs
      → find? (λ j. j.id == k) jobs ≡ some j
      → any (stale_at stale_after at k) (filter_by (recoverable include_pending) jobs)
        ≡ is_recovered stale_after include_pending at j
  any-found k [] j d h = cc
  any-found k (i ∷ jobs) j (apart, d) h = elim (Bool-cases (i.id == k)) [
    | inl here ↦
        let same : i ≡ j = ground arith in
        let rest = any-absent k jobs (subst (λ m. All (λ j. j.id ≢ m) jobs) (ground arith) apart) in
        rw (← same) (ground arith)
    | inr elsewhere ↦ ground (arith, any-found k jobs j d)
  ]

  filter_both :
      (jobs : List JobModel)
      → filter_by (is_stale stale_after at) (filter_by (recoverable include_pending) jobs)
        ≡ filter_by (is_recovered stale_after include_pending at) jobs
  filter_both [] = refl
  filter_both (j ∷ jobs) = ground (arith, filter_both jobs)

  count_both :
      (jobs : List JobModel)
      → count_by (is_stale stale_after at) (filter_by (recoverable include_pending) jobs)
        ≡ count_by (is_recovered stale_after include_pending at) jobs
  count_both [] = refl
  count_both (j ∷ jobs) = ground (arith, count_both jobs)

module _ {N : Type 0} (stale_after : Option ℕ) (include_pending : Bool) (s : Session N) where
  abbrev picked : JobModel → Bool
  picked = is_recovered stale_after include_pending (s.clock s.reads)

  abbrev pub recovered_session : Session N
  recovered_session = (recover_stale_running_jobs stale_after include_pending s).1

  abbrev rows : List JobModel
  rows = filter_by (recoverable include_pending) s.db.jobs

  abbrev after_now : Session N
  after_now = record s { reads = s.reads + 1 }

  recover_count :
      (recover_stale_running_jobs stale_after include_pending s).0
      ≡ ok (count_by (is_stale stale_after (s.clock s.reads)) rows)
  unfolding recover_stale_running_jobs
  recover_count = ground (arith, recover_rows-count stale_after (s.clock s.reads) rows after_now)

  recover_db :
      recovered_session.db ≡ (recover_rows stale_after (s.clock s.reads) rows after_now).1.db
  unfolding recover_stale_running_jobs
  recover_db = ground (arith, recover_rows-count stale_after (s.clock s.reads) rows after_now)

  mark_found :
      (k : Uuid) (o : Option JobModel)
      → DistinctJobs s.db
      → find_job k s.db ≡ o
      → mark_if (any (stale_at stale_after (s.clock s.reads) k) rows) (s.clock s.reads) o
        ≡ Option.map (λ j. if picked j then mark (s.clock s.reads) j else j) o
  mark_found k none d h = refl
  mark_found k (some j) d h =
      rw (any-found stale_after include_pending (s.clock s.reads) k s.db.jobs j d h)

  -- The method returns how many jobs it picked; a job that it picked (running, or pending if these
  -- are included, and started or created longer ago than the limit, if there is one) is failed now,
  -- and every other job is what it was; and the new rows of the result table are one for each job
  -- picked, in the order of the job table.
  pub recover_stale_running_jobs_lem :
      DistinctJobs s.db
      → ((recover_stale_running_jobs stale_after include_pending s).0
          ≡ ok (count_by picked s.db.jobs))
        × ((k : Uuid)
            → find_job k recovered_session.db
              ≡ Option.map
                  (λ j. if picked j then mark (s.clock s.reads) j else j)
                  (find_job k s.db))
        × (map (λ r. r.job_id) recovered_session.db.results
            ≡ map (λ r. r.job_id) s.db.results ++ map (λ j. j.id) (filter_by picked s.db.jobs))
  recover_stale_running_jobs_lem d = (
    rw recover_count (rw (count_both stale_after include_pending (s.clock s.reads) s.db.jobs)),
    (λ k. rw recover_db (
        find-recover_rows stale_after (s.clock s.reads) k rows after_now
        ∙ mark_found k (find_job k s.db) d refl)),
    rw recover_db (
        results-recover_rows stale_after (s.clock s.reads) rows after_now
        ∙ rw (filter_both stale_after include_pending (s.clock s.reads) s.db.jobs)),
  )
