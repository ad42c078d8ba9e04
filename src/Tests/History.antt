-- ===== src/Tests/History.antt =====
-- Tests of the state store of internal/state/store.go.
use dokploymigrator.State.Time.{fraction, format_time, Time}
use dokploymigrator.State.Tables.{JobRow, Store, has_job, job_not_found}
use dokploymigrator.State.Jobs.{listed_before, Job, delete_job, list_jobs_page, scan_job}
use dokploymigrator.State.Chronology.{list_jobs_page-older_first}
use dokploymigrator.Base.{
  codes, [], ◌∷◌, none, ok, err, ◌≡◌, ◌≢◌, refl, ◌⊎◌, if◌then◌else◌, pos, text_eq, sort_by, less,
  nat_eq, List, map, inr,
}
use dokploymigrator.State.Invariant.{UniqueIds}
use dokploymigrator.State.Deletion.{without, delete_job-eq, delete_job-atomic}
use dokploymigrator.State.Paging.{IsPage, list_jobs_page-IsPage}
use dokploymigrator.Tests.{store, calendar, job}

abbrev now : Time
now = record { second = 5; nano = 0 }

abbrev new_job : Job
new_job = scan_job calendar (record job { id = codes "k" })

delete_job-eq_example : delete_job (λ n. none) (codes "j") store ≡ (
    if has_job (codes "j") store.jobs
    then (ok tt, without (codes "j") store)
    else (err (job_not_found (codes "j")), store))
delete_job-eq_example = delete_job-eq (codes "j") store

delete_job-atomic_example :
    ((delete_job (λ n. none) (codes "j") store).0 ≡ ok tt)
      × ((delete_job (λ n. none) (codes "j") store).1 ≡ without (codes "j") store)
    ⊎ ((delete_job (λ n. none) (codes "j") store).0 ≢ ok tt)
      × ((delete_job (λ n. none) (codes "j") store).1 ≡ store)
delete_job-atomic_example = delete_job-atomic (λ n. none) (codes "j") store

-- A store with two jobs, and its pages of one job each.
abbrev two_jobs : Store
two_jobs = record store { jobs = job ∷ record job { id = codes "k" } ∷ [] }

first_page :
    list_jobs_page calendar none (pos 1) (pos 0) two_jobs
    ≡ ok (scan_job calendar (record job { id = codes "k" }) ∷ [])
unfolding list_jobs_page sort_by listed_before less nat_eq text_eq
first_page = refl

second_page :
    list_jobs_page calendar none (pos 1) (pos 1) two_jobs ≡ ok (scan_job calendar job ∷ [])
unfolding list_jobs_page sort_by listed_before less nat_eq text_eq
second_page = refl

two_jobs_unique : UniqueIds two_jobs.jobs
unfolding has_job text_eq
two_jobs_unique = (refl, (refl, tt))

list_jobs_page-IsPage_example :
    (rows : List JobRow) × ((scan_job calendar job ∷ []) ≡ map (scan_job calendar) rows)
    × IsPage 1 1 two_jobs.jobs rows
list_jobs_page-IsPage_example =
    list_jobs_page-IsPage calendar 0 1 two_jobs (scan_job calendar job ∷ []) two_jobs_unique
      second_page

printed : fraction 500000000 ≡ codes ".5"
unfolding fraction nat_eq
printed = refl

half_a_second : fraction 500000000 ≢ []
half_a_second e = cc printed

abbrev on_the_second : JobRow
on_the_second = record job { updated_at = format_time calendar (record { second = 5; nano = 0 }) }

abbrev half_later : JobRow
half_later = record job {
  updated_at = format_time calendar (record { second = 5; nano = 500000000 });
}

abbrev within_a_second : Store
within_a_second = record store { jobs = half_later ∷ on_the_second ∷ [] }

list_jobs_page-older_first_example :
    list_jobs_page calendar none (pos 50) (pos 0) within_a_second
    ≡ ok (scan_job calendar on_the_second ∷ scan_job calendar half_later ∷ [])
list_jobs_page-older_first_example =
    list_jobs_page-older_first calendar 5 500000000 on_the_second half_later within_a_second
      half_a_second refl refl (inr refl)
