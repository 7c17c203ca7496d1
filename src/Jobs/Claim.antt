-- ===== src/Jobs/Claim.antt =====
-- `JobsService.claim_next_pending_id`, with no other session at work: it takes the oldest pending
-- job and nothing else. (Jobs/Race.antt has several workers.)
use meshonator.Base.{
  ◌+◌, ◌≤◌, ◌≡◌, refl, Bool, Option, none, some, List, [], ◌∷◌, ◌⊎◌, inl, inr, arith, ◌==◌,
  if◌then◌else◌, nat_eq, leb, find?, filter_by, update_where, count_by, All,
}
use meshonator.Base.Sort.{sort_by, sort_by-eq-nil, sort_by-Increasing, Increasing}
use meshonator.Base.Member.{
  In, In-filter_by, All-at, All-build, In-sort_by, sort_by-In, DistinctBy, find?-of_In,
  count_by-of_In,
}
use meshonator.Db.{running, Uuid, Time, JobModel, pending, status_eq, Db}
use meshonator.Db.Session.{Session, ok}
use meshonator.Jobs.{find_job, is_candidate, claimed, try_claim, claim_first, claim_next_pending_id}

-- job ids are primary keys
abbrev pub DistinctJobs : Db → Type 0
DistinctJobs db = DistinctBy (λ j. j.id) db.jobs

abbrev pub is_pending : JobModel → Bool
is_pending j = j.status == pending

by_age : Db → List JobModel
by_age db = sort_by (λ a b. leb a.created_at b.created_at) (filter_by is_pending db.jobs)

-- a job that runs since `t`
abbrev running_since : Time → JobModel → JobModel
running_since t j = record j { status = running; started_at = some t }

-- the row of a job after the UPDATE of a claim
abbrev pub after_claim : Uuid → Time → Option JobModel → Option JobModel
after_claim c t none = none
after_claim c t (some j) = some (if is_candidate c j then running_since t j else j)

find_claimed :
    (c k : Uuid) (t : Time) (jobs : List JobModel)
    → find? (λ j. j.id == k) (update_where (is_candidate c) (claimed t) jobs)
      ≡ after_claim c t (find? (λ j. j.id == k) jobs)
find_claimed c k t [] = refl
find_claimed c k t (j ∷ jobs) = ground (arith, find_claimed c k t jobs)

-- the oldest pending row, if there is one
module _ (db : Db) where
  abbrev pub Oldest : JobModel → Type 0
  Oldest j =
      In j db.jobs
      × (j.status ≡ pending)
      × All (λ k. j.created_at ≤ k.created_at) (filter_by is_pending db.jobs)

  none_pending : by_age db ≡ [] → filter_by is_pending db.jobs ≡ []
  unfolding by_age
  none_pending e = sort_by-eq-nil (λ a b. leb a.created_at b.created_at) _ e

  head-In : (j : JobModel) (rest : List JobModel) → by_age db ≡ j ∷ rest → In j (by_age db)
  head-In j rest e = rw e (inl refl)

  head_least :
      (j : JobModel) (rest : List JobModel)
      → by_age db ≡ j ∷ rest
      → (k : JobModel) → In k (by_age db)
      → j.created_at ≤ k.created_at
  unfolding by_age
  head_least j rest e k m =
      let ordered : Increasing (λ a. a.created_at) (j ∷ rest) =
        rw e at (sort_by-Increasing (λ a. a.created_at) (filter_by is_pending db.jobs)) in
      least (rw e at m) ordered.0
    where
      least :
          In k (j ∷ rest)
          → All (λ z. j.created_at ≤ z.created_at) rest
          → j.created_at ≤ k.created_at
      least (inl same) a = ground arith
      least (inr later) a = All-at (λ z. j.created_at ≤ z.created_at) k rest a later

  head-Oldest : (j : JobModel) (rest : List JobModel) → by_age db ≡ j ∷ rest → Oldest j
  unfolding by_age
  head-Oldest j rest e =
      let order : JobModel → JobModel → Bool = λ a b. leb a.created_at b.created_at in
      let found =
        In-filter_by is_pending j db.jobs
          (In-sort_by order j (filter_by is_pending db.jobs) (head-In j rest e)) in
      (
        found.0,
        ground arith,
        All-build _ (filter_by is_pending db.jobs)
            λ k m. head_least j rest e k (sort_by-In order k (filter_by is_pending db.jobs) m),
      )

module _ {N : Type 0} (s : Session N) where
  nothing_pending : by_age s.db ≡ [] → claim_next_pending_id s ≡ (ok none, s)
  unfolding claim_next_pending_id claim_first by_age
  nothing_pending e = rw e

  -- the session after the claim of `c`
  abbrev pub claimed_session : Uuid → Session N
  claimed_session c =
      let db : Db = record s.db {
        jobs = update_where (is_candidate c) (running_since (s.clock s.reads)) s.db.jobs;
      } in
      record s { db = db; committed = db; reads = s.reads + 1 }

  first_claimed :
      (j : JobModel) (rest : List JobModel)
      → by_age s.db ≡ j ∷ rest
      → count_by (is_candidate j.id) s.db.jobs ≡ 1
      → claim_next_pending_id s ≡ (ok (some j.id), claimed_session j.id)
  unfolding claim_next_pending_id claim_first try_claim by_age nat_eq
  first_claimed j rest e once = rw (e, once)

  -- Either nothing is pending, and the claim returns `None` and changes nothing; or the claim
  -- returns the id of a pending job that no pending job is older than, that job is now running
  -- since the time of the claim, every other job is what it was, and the change is committed.
  pub claim_next_pending_id_lem :
      DistinctJobs s.db
      → ((claim_next_pending_id s ≡ (ok none, s)) × (filter_by is_pending s.db.jobs ≡ []))
        ⊎ ((j : JobModel) × Oldest s.db j
            × (claim_next_pending_id s ≡ (ok (some j.id), claimed_session j.id))
            × (find_job j.id s.db ≡ some j)
            × ((k : Uuid)
                → find_job k (claimed_session j.id).db
                  ≡ after_claim j.id (s.clock s.reads) (find_job k s.db)))
  claim_next_pending_id_lem distinct = go (by_age s.db) refl
    where
      go :
          (queue : List JobModel)
          → by_age s.db ≡ queue
          → ((claim_next_pending_id s ≡ (ok none, s)) × (filter_by is_pending s.db.jobs ≡ []))
            ⊎ ((j : JobModel) × Oldest s.db j
                × (claim_next_pending_id s ≡ (ok (some j.id), claimed_session j.id))
                × (find_job j.id s.db ≡ some j)
                × ((k : Uuid)
                    → find_job k (claimed_session j.id).db
                      ≡ after_claim j.id (s.clock s.reads) (find_job k s.db)))
      go [] e = inl (nothing_pending e, none_pending s.db e)
      go (j ∷ rest) e =
          let oldest = head-Oldest s.db j rest e in
          let once : count_by (is_candidate j.id) s.db.jobs ≡ 1 =
            count_by-of_In (λ k. k.id) (is_candidate j.id) j s.db.jobs (λ k h. ground arith)
              distinct oldest.0 (ground arith) in
          inr (
            j,
            oldest,
            first_claimed j rest e once,
            find?-of_In (λ k. k.id) j s.db.jobs distinct oldest.0,
            (λ k. find_claimed j.id k (s.clock s.reads) s.db.jobs),
          )
