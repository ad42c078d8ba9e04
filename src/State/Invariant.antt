-- ===== src/State/Invariant.antt =====
-- The invariant of the state database, which its keys promise.
use dokploymigrator.Base.{
  ℕ, ◌<◌, Text, List, [], ◌∷◌, ◌++◌, map, Bool, true, false, ◌==◌, text_eq, any, ◌≡◌, refl, arith,
  All, ◌||◌, Option, none, some,
}
use dokploymigrator.State.Tables.{JobStatus, JobRow, Event, Report, Store, has_job}
use dokploymigrator.State.Jobs.{set_status}

-- The primary key of `jobs`.
abbrev pub UniqueIds : List JobRow → Type 0
UniqueIds [] = Unit
UniqueIds (j ∷ jobs) = (has_job j.id jobs ≡ false) × UniqueIds jobs

abbrev pub has_report : Text → List Report → Bool
has_report id reports = any (λ r. r.job_id == id) reports

-- The primary key of `reports`.
abbrev pub UniqueReports : List Report → Type 0
UniqueReports [] = Unit
UniqueReports (r ∷ reports) = (has_report r.job_id reports ≡ false) × UniqueReports reports

-- Events stand by growing IDs, all of them below the next one.
abbrev pub Numbered : ℕ → List Event → Type 0
Numbered next [] = Unit
Numbered next (e ∷ events) = (e.id < next) × All (λ f. e.id < f.id) events × Numbered next events

abbrev pub EventOf : List JobRow → Event → Type 0
EventOf jobs e = has_job e.job_id jobs ≡ true

abbrev pub ReportOf : List JobRow → Report → Type 0
ReportOf jobs r = has_job r.job_id jobs ≡ true

pub record IsWellFormed (s : Store) : Type 0 where
  pub unique : UniqueIds s.jobs
  pub events_owned : All (EventOf s.jobs) s.events
  pub reports_owned : All (ReportOf s.jobs) s.reports
  pub one_report : UniqueReports s.reports
  pub numbered : Numbered s.next_event_id s.events

-- Jobs are only added, or changed under the same ID.
pub has_job-append :
    (id : Text) (jobs : List JobRow) (j : JobRow)
    → has_job id (jobs ++ j ∷ []) ≡ (has_job id jobs || j.id == id)
unfolding has_job
has_job-append id [] j = ground arith
has_job-append id (k ∷ jobs) j = ground (arith, has_job-append id jobs j)

pub has_job-set_status :
    (i id : Text) (status : JobStatus) (checkpoint at : Text) (jobs : List JobRow)
    → has_job i (map (set_status id status checkpoint at) jobs) ≡ has_job i jobs
unfolding has_job set_status
has_job-set_status i id status checkpoint at [] = refl
has_job-set_status i id status checkpoint at (j ∷ jobs) =
    ground (arith, has_job-set_status i id status checkpoint at jobs)

pub unique-append :
    (jobs : List JobRow) (j : JobRow)
    → has_job j.id jobs ≡ false
    → UniqueIds jobs
    → UniqueIds (jobs ++ j ∷ [])
unfolding has_job
unique-append [] j h u = (refl, tt)
unique-append (k ∷ jobs) j h (f, u) =
    (ground (arith, has_job-append k.id jobs j), unique-append jobs j (ground arith) u)

pub unique-set_status :
    (id : Text) (status : JobStatus) (checkpoint at : Text) (jobs : List JobRow)
    → UniqueIds jobs
    → UniqueIds (map (set_status id status checkpoint at) jobs)
unfolding set_status
unique-set_status id status checkpoint at [] u = tt
unique-set_status id status checkpoint at (j ∷ jobs) (f, u) = (
  ground (arith, has_job-set_status j.id id status checkpoint at jobs),
  unique-set_status id status checkpoint at jobs u,
)

-- A property of jobs that holds of more jobs still holds of what is owned.
module _ (jobs jobs' : List JobRow)
    (grows : (i : Text) → has_job i jobs ≡ true → has_job i jobs' ≡ true) where
  pub events-grow : (events : List Event) → All (EventOf jobs) events → All (EventOf jobs') events
  events-grow [] _ = tt
  events-grow (e ∷ events) (h, hs) = (grows e.job_id h, events-grow events hs)

  pub reports-grow :
      (reports : List Report) → All (ReportOf jobs) reports → All (ReportOf jobs') reports
  reports-grow [] _ = tt
  reports-grow (r ∷ reports) (h, hs) = (grows r.job_id h, reports-grow reports hs)

-- The store, where there is one, is well-formed.
abbrev pub Sound : Option Store → Type 0
Sound none = Unit {0}
Sound (some s) = IsWellFormed s
