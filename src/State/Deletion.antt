-- ===== src/State/Deletion.antt =====
-- Deletion of a job with its events and its report.
use dokploymigrator.Base.{
  ℕ, Text, List, [], ◌∷◌, Option, none, true, false, ◌==◌, ◌!=◌, text_eq, any, filter_by,
  if◌then◌else◌, ok, err, ◌≡◌, ◌≢◌, refl, arith, ◌⊎◌,
}
use dokploymigrator.State.Tables.{Event, Report, Store, Failure, has_job, job_not_found}
use dokploymigrator.State.Jobs.{delete_rows, delete_job}

-- The store with no trace of a job.
abbrev pub without : Text → Store → Store
without id s = record s {
  jobs = filter_by (λ j. j.id != id) s.jobs;
  events = filter_by (λ e. e.job_id != id) s.events;
  reports = filter_by (λ r. r.job_id != id) s.reports;
}

no_event :
    (id : Text) (events : List Event)
    → any (λ e. e.job_id == id) (filter_by (λ e. e.job_id != id) events) ≡ false
no_event id [] = refl
no_event id (e ∷ events) = ground (arith, no_event id events)

no_report :
    (id : Text) (reports : List Report)
    → any (λ r. r.job_id == id) (filter_by (λ r. r.job_id != id) reports) ≡ false
no_report id [] = refl
no_report id (r ∷ reports) = ground (arith, no_report id reports)

-- Where no statement is refused, a job that is there goes with its events and its report and nothing
-- else, and for a job that is not there the store stays as it is and the error says so.
pub delete_job-eq :
    (id : Text) (s : Store)
    → delete_job (λ n. none) id s
      ≡ (if has_job id s.jobs then (ok tt, without id s) else (err (job_not_found id), s))
unfolding delete_job
delete_job-eq id s = ground (arith, no_event id s.events, no_report id s.reports)

delete_rows-ok :
    (faults : ℕ → Option Failure) (id : Text) (s s' : Store)
    → delete_rows faults id s ≡ ok s'
    → (has_job id s.jobs ≡ true) × (s' ≡ without id s)
unfolding delete_rows
delete_rows-ok faults id s s' h = ground arith

-- Whatever is refused, a deletion that succeeds leaves the store from before less the job, its
-- events and its report, and one that fails leaves the store as it was.
pub delete_job-atomic :
    (faults : ℕ → Option Failure) (id : Text) (s : Store)
    → ((delete_job faults id s).0 ≡ ok tt) × ((delete_job faults id s).1 ≡ without id s)
      ⊎ ((delete_job faults id s).0 ≢ ok tt) × ((delete_job faults id s).1 ≡ s)
unfolding delete_job
delete_job-atomic faults id s = ground (arith, delete_rows-ok faults id s)
