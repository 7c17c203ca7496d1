-- ===== src/Queue/Ends/Discovery.antt =====
-- The handler of discovery jobs ends its job, unless the commit of what it found meets an endpoint
-- that another session has stored: then its `except` part raises too.
use mathlib.Core.Path.{subst}
use meshonator.Base.{
  ◌≡◌, refl, sym, Bool, true, false, Option, none, some, List, [], ◌∷◌, String, ℕ, suc, ◌⊎◌, inl,
  inr, if◌then◌else◌, nat_eq,
}
use meshonator.Db.{Uuid, JobModel, Db, ProviderEndpointModel}
use meshonator.Db.Session.{
  Exn, value_error, provider_error, integrity_error, other_error, Result, ok, raised, Session, Exec,
  pure, catch, commit, commit_if, ◌>>=◌,
}
use meshonator.Db.Session.Keeps.{Both, Keeps, Keeps-bind}
use meshonator.Discovery.{Networks, scan, save_row, save_found, save_each, unless_raised}
use meshonator.Jobs.Keeps.{OnJobs, Keeps-call, job_rules}
use meshonator.Json.{Fields}
use meshonator.Providers.{ProviderConnection, Registry, call}
use meshonator.Queue.{External}
use meshonator.Queue.Discover.{
  ProbeCounts, Names, progress, request_of, sync_found, discover, run_discovery_job,
  give_up_unrolled, pending_rollback,
}
use meshonator.Queue.Ends.{Ends, Present, Ended, After, give_up-Ended}
use meshonator.Queue.Ends.Run.{started, started-Present, with_job_lem}
use meshonator.Jobs.{find_job}
use meshonator.Queue.Ends.Bodies.{ends_rules}
use meshonator.Queue.Keeps.{queue_rules}
use meshonator.Radios.Discover.{
  Scanner, discover_each, discover_endpoints, keep_open, is_open, told,
}

save_row-jobs :
    (provider_name source : String) (found : ProviderConnection) (at : ℕ)
    (o : Option ProviderEndpointModel) (db : Db)
    → (save_row provider_name source found at o db).0.jobs ≡ db.jobs
unfolding save_row
save_row-jobs provider_name source found at none db = refl
save_row-jobs provider_name source found at (some row) db = refl

module _ {N : Type 0} {Q : List JobModel → Type 0} where
  Keeps-commit_if : (test : Db → Bool) → Keeps {N = N} (OnJobs Q) (commit_if test)
  Keeps-commit_if test = record {
    at = λ s h.
        elim (test s.db)
          as (λ b.
            Both (OnJobs Q)
              (if b then commit s else (
                raised (integrity_error "IntegrityError"),
                record s { db = s.committed },
              )).1) [ true ↦ (h.0, h.0) | false ↦ (h.1, h.1) ];
  }

  Keeps-save_found :
      (provider_name source : String) (seen : Db) (found : ProviderConnection)
      → Keeps {N = N} (OnJobs Q) (save_found provider_name source seen found)
  unfolding save_found
  Keeps-save_found provider_name source seen found = search (job_rules, save_row-jobs) depth 12

  Keeps-save_each :
      (provider_name source : String) (seen : Db) (found : List ProviderConnection)
      → Keeps {N = N} (OnJobs Q) (save_each provider_name source seen found)
  unfolding save_each
  Keeps-save_each provider_name source seen [] = search job_rules
  Keeps-save_each provider_name source seen (found ∷ discovered) =
      Keeps-bind (save_found provider_name source seen found)
        (λ first. save_each provider_name source seen discovered >>= λ rest. pure (first ∷ rest))
        (Keeps-save_found provider_name source seen found)
        (λ first.
          Keeps-bind (save_each provider_name source seen discovered) (λ rest. pure (first ∷ rest))
            (Keeps-save_each provider_name source seen discovered) (λ rest. search job_rules))

  Keeps-unless_raised : {A : Type 0} (r : Result A) → Keeps {N = N} (OnJobs Q) (unless_raised r)
  Keeps-unless_raised r = record { at = λ s h. h }

  module _ {K : Type 0} (port_text : ℕ → String)
      (report : ℕ → ℕ → String → Bool → Fields → K → Exec N K)
      (reports : (i n : ℕ) (host : String) (b : Bool) (d : Fields) (k : K)
        → Keeps (OnJobs Q) (report i n host b d k)) where
    Keeps-discover_each :
        (scanner : Scanner N) (port total index : ℕ) (hosts : List String) (k : K)
        → Keeps (OnJobs Q) (discover_each port_text scanner report port total index hosts k)
    unfolding discover_each
    Keeps-discover_each scanner port total index [] k = search job_rules
    Keeps-discover_each scanner port total index (host ∷ hosts) k =
        Keeps-bind (call (scanner.probe host port)) _ (Keeps-call (scanner.probe host port))
          (λ result.
            Keeps-bind
              (report index total host (is_open result) (told port_text scanner report result) k) _
              (reports index total host (is_open result) (told port_text scanner report result) k)
              (λ k'.
                Keeps-bind (discover_each port_text scanner report port total (suc index) hosts k')
                  (λ out. pure (keep_open port_text scanner report result port host out))
                  (Keeps-discover_each scanner port total (suc index) hosts k')
                  (λ out. search job_rules)))

    Keeps-discover_endpoints :
        (scanner : Scanner N) (hosts : List String) (port : Option ℕ) (k : K)
        → Keeps (OnJobs Q) (discover_endpoints port_text scanner report hosts port k)
    unfolding discover_endpoints
    Keeps-discover_endpoints scanner hosts port k = Keeps-discover_each scanner _ _ 1 hosts k

    Keeps-scan :
        (net : Networks) (registry : String → Option (Scanner N)) (provider_name : String)
        (hosts cidrs manual_endpoints : List String) (port : Option ℕ) (source : String) (k : K)
        → Keeps (OnJobs Q) (
            scan net port_text registry report provider_name hosts cidrs manual_endpoints port
              source k)
    unfolding scan
    Keeps-scan net registry provider_name hosts cidrs manual_endpoints port source k =
        search
          (
            job_rules, Keeps-unless_raised, Keeps-discover_endpoints, Keeps-save_each,
            Keeps-commit_if,
          )
          depth 20

module _ {N C : Type 0} {Q : List JobModel → Type 0} (registry : Registry N C) (ext : External)
    (names : Names) (scanners : String → Option (Scanner N)) (id : Uuid) where
  Keeps-progress :
      (i n : ℕ) (host : String) (b : Bool) (d : Fields) (k : ProbeCounts)
      → Keeps {N = N} (OnJobs Q) (progress ext.str_of id i n host b d k)
  unfolding progress
  Keeps-progress i n host b d k = search job_rules

  Keeps-request_of :
      (payload : Fields) → Keeps (OnJobs Q) (request_of registry ext names scanners payload)
  unfolding request_of
  Keeps-request_of payload = search queue_rules

  Keeps-sync_found : (b : Bool) → Keeps (OnJobs Q) (sync_found registry ext names scanners id b)
  unfolding sync_found
  Keeps-sync_found false = search queue_rules
  Keeps-sync_found true = search queue_rules

module _ {N C : Type 0} (registry : Registry N C) (ext : External) (names : Names)
    (scanners : String → Option (Scanner N)) (id : Uuid) where
  Ends-discover :
      (job : JobModel)
      → Ends (OnJobs (Present id)) (OnJobs (Ended id)) (discover registry ext names scanners id job)
  unfolding discover
  Ends-discover job =
      search (ends_rules, Keeps-request_of, Keeps-scan, Keeps-progress, Keeps-sync_found) depth 24

  -- the run of the handler returns with the job ended, or its session refuses after a failed flush
  abbrev pub EndedOrRefused : Result (Unit {0}) → Result (Unit {0}) × Session N → Type 0
  EndedOrRefused body o =
      ((o.0 ≡ ok tt) × Ended id o.1.db.jobs × Ended id o.1.committed.jobs)
      ⊎ ((x : String) × (body ≡ raised (integrity_error x)) × (o.0 ≡ raised pending_rollback))

  abbrev closed : Result (Unit {0}) × Session N → Result (Unit {0}) × Session N
  closed (r, s) = (r, record s { db = s.committed })

  gave_up :
      (x : Exn) (s : Session N)
      → Both (OnJobs (Present id)) s
      → EndedOrRefused (raised x) (closed (give_up_unrolled id x s))
  gave_up (integrity_error x) s h = inr (x, refl, refl)
  gave_up (value_error x) s h =
      let (returns, ended) = give_up-Ended id (value_error x) s h in
      inl (returns, ended.1.holds, ended.1.holds)
  gave_up (provider_error x) s h =
      let (returns, ended) = give_up-Ended id (provider_error x) s h in
      inl (returns, ended.1.holds, ended.1.holds)
  gave_up (other_error x) s h =
      let (returns, ended) = give_up-Ended id (other_error x) s h in
      inl (returns, ended.1.holds, ended.1.holds)

  step-catch :
      (r : Result (Unit {0})) (s : Session N)
      → After (OnJobs (Present id)) (OnJobs (Ended id)) r s
      → (let o : Result (Unit {0}) × Session N = elim r [
        | ok a ↦ pure a s
        | raised e ↦ give_up_unrolled id e s
      ] in
          EndedOrRefused r (closed o))
  step-catch (ok a) s h = inl (refl, h.1.holds, h.1.holds)
  step-catch (raised e) s h = gave_up e s h

  -- For a job that is in the table the handler of discovery jobs either returns, with each row of the
  -- job a success or a failure in the session and in what is committed, or its body has raised an
  -- IntegrityError; then the `except` part, which does not roll back, raises as well.
  pub run_discovery_job_ends :
      (s : Session N) (job : JobModel)
      → find_job id s.db ≡ some job
      → EndedOrRefused
          (discover registry ext names scanners id job (started id s)).0
          (run_discovery_job registry ext names scanners id s)
  unfolding run_discovery_job
  run_discovery_job_ends s job known =
      let body = discover registry ext names scanners id job in
      subst (EndedOrRefused (body (started id s)).0)
        (sym (
          with_job_lem id
            (λ j. catch (discover registry ext names scanners id j) (give_up_unrolled id)) s job
            known))
        (step-catch (body (started id s)).0 (body (started id s)).1
          ((Ends-discover job).at (started id s) (started-Present id s job known)))
