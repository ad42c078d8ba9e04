-- ===== src/State/Jobs.antt =====
-- The operations of internal/state/store.go on jobs.
use dokploymigrator.Base.{
  ℕ, zero, suc, Text, List, [], ◌∷◌, ◌++◌, map, length, take, drop, Option, none, some, Bool, not,
  ◌&&◌, ◌||◌, ◌==◌, ◌!=◌, text_eq, any, filter_by, less, sort_by, if◌then◌else◌, ℤ, pos, negsuc,
  Result, ok, err, ◌>>=◌, ◌>>◌, fail_if,
}
use dokploymigrator.State.Time.{Time, Calendar, format_time, parse_time}
use dokploymigrator.State.Tables.{
  JobStatus, JobRow, Event, Report, Store, Failure, StoreError, has_job, find_job, sql_failed,
  unique_violation, foreign_key_violation, job_not_found,
}

-- A job as the program holds it; `none` is the zero time, and the zero status `""`.
pub record Job : Type 0 where
  pub id : Text
  pub source_server_id : Text
  pub target_server_id : Text
  pub mode : Text
  pub status : Option JobStatus
  pub checkpoint : Text
  pub created_at : Option Time
  pub updated_at : Option Time

abbrev pub unless : Option Failure → Result StoreError (Unit {0})
unless none = ok tt
unless (some f) = err (sql_failed f)

abbrev or_time : Option Time → Time → Time
or_time none now = now
or_time (some t) now = t

abbrev or_pending : Option JobStatus → JobStatus
or_pending none = JobStatus.job_pending
or_pending (some s) = s

-- An operation: its result, and the store that it leaves.
abbrev pub Op : Type 0 → Type 0
Op A = Store → Result StoreError A × Store

-- A statement that fails changes nothing.
abbrev pub commit_or_keep : Result StoreError Store → Op (Unit {0})
commit_or_keep (ok s') s = (ok tt, s')
commit_or_keep (err e) s = (err e, s)

unfoldable pub set_status : Text → JobStatus → Text → Text → JobRow → JobRow
set_status id status checkpoint updated_at j =
    if j.id == id
    then record j { status = status; checkpoint = checkpoint; updated_at = updated_at }
    else j

-- `ORDER BY updated_at DESC, id DESC`: the order of SQLite on texts is that of their bytes.
unfoldable pub listed_before : JobRow → JobRow → Bool
listed_before a b = less b.updated_at a.updated_at || a.updated_at == b.updated_at && less b.id a.id

abbrev pub default_job_limit : ℕ
default_job_limit = 50

-- `if limit <= 0 { limit = defaultJobLimit }`, and `if offset < 0 { offset = 0 }`
unfoldable pub page_limit : ℤ → ℕ
page_limit (pos zero) = default_job_limit
page_limit (pos (suc n)) = suc n
page_limit (negsuc n) = default_job_limit

unfoldable pub page_offset : ℤ → ℕ
page_offset (pos n) = n
page_offset (negsuc n) = 0

-- `INSERT INTO jobs`
unfoldable pub insert_job : Option Failure → JobRow → Store → Result StoreError Store
insert_job fault row s = do
  unless fault
  fail_if (has_job row.id s.jobs) (unique_violation row.id)
  ok (record s { jobs = s.jobs ++ row ∷ [] })

-- `UPDATE jobs`, and the test of the affected rows.
unfoldable pub update_status :
    Option Failure → Text → JobStatus → Text → Text → Store → Result StoreError Store
unfolding set_status
update_status fault id status checkpoint updated_at s = do
  unless fault
  fail_if (not (has_job id s.jobs)) (job_not_found id)
  ok (record s { jobs = map (set_status id status checkpoint updated_at) s.jobs })

module _ (calendar : Calendar) where
  unfoldable pub job_row : Time → Job → JobRow
  job_row now job = record {
    id = job.id;
    source_server_id = job.source_server_id;
    target_server_id = job.target_server_id;
    mode = job.mode;
    status = or_pending job.status;
    checkpoint = job.checkpoint;
    created_at = format_time calendar (or_time job.created_at now);
    updated_at = format_time calendar now;
  }

  unfoldable pub create_job : Option Failure → Time → Job → Op (Unit {0})
  unfolding insert_job job_row
  create_job fault now job s = commit_or_keep (insert_job fault (job_row now job) s) s

  unfoldable pub update_job : Option Failure → Time → Text → JobStatus → Text → Op (Unit {0})
  unfolding update_status
  update_job fault now id status checkpoint s =
      commit_or_keep (update_status fault id status checkpoint (format_time calendar now) s) s

  unfoldable pub scan_job : JobRow → Job
  scan_job row = record {
    id = row.id;
    source_server_id = row.source_server_id;
    target_server_id = row.target_server_id;
    mode = row.mode;
    status = some row.status;
    checkpoint = row.checkpoint;
    created_at = parse_time calendar row.created_at;
    updated_at = parse_time calendar row.updated_at;
  }

  found_job : Text → Option JobRow → Result StoreError Job
  found_job id none = err (job_not_found id)
  found_job id (some row) = ok (scan_job row)

  unfoldable pub get_job : Option Failure → Text → Store → Result StoreError Job
  unfolding found_job scan_job
  get_job fault id s = do unless fault; found_job id (find_job id s.jobs)

  unfoldable pub list_jobs_page : Option Failure → ℤ → ℤ → Store → Result StoreError (List Job)
  unfolding page_limit page_offset scan_job
  list_jobs_page fault limit offset s = do
    unless fault
    ok (
        map scan_job
          (take (page_limit limit) (drop (page_offset offset) (sort_by listed_before s.jobs))))

  unfoldable pub list_jobs : Option Failure → ℤ → Store → Result StoreError (List Job)
  unfolding list_jobs_page
  list_jobs fault limit s = list_jobs_page fault limit (pos 0) s

  -- The keys of the map.
  unfoldable pub protected_job_ids : Option Failure → ℤ → Store → Result StoreError (List Text)
  unfolding list_jobs
  protected_job_ids fault limit s = do jobs ← list_jobs fault limit s; ok (map (λ j. j.id) jobs)

unfoldable pub count_jobs : Option Failure → Store → Result StoreError ℕ
count_jobs fault s = do unless fault; ok (length s.jobs)

-- The transaction of `DeleteJob`. `faults` are those of its begin, its three statements and its
-- commit. SQLite refuses to delete a job that a report or an event still names.
unfoldable pub delete_reports : Option Failure → Text → Store → Result StoreError Store
delete_reports fault id s = do
  unless fault
  ok (record s { reports = filter_by (λ r. r.job_id != id) s.reports })

unfoldable pub delete_events : Option Failure → Text → Store → Result StoreError Store
delete_events fault id s = do
  unless fault
  ok (record s { events = filter_by (λ e. e.job_id != id) s.events })

unfoldable pub delete_row : Option Failure → Text → Store → Result StoreError Store
delete_row fault id s = do
  unless fault
  fail_if
      (has_job id s.jobs
        && (any (λ (r : Report). r.job_id == id) s.reports
            || any (λ (e : Event). e.job_id == id) s.events))
      (foreign_key_violation id)
  fail_if (not (has_job id s.jobs)) (job_not_found id)
  ok (record s { jobs = filter_by (λ j. j.id != id) s.jobs })

unfoldable pub delete_rows : (ℕ → Option Failure) → Text → Store → Result StoreError Store
unfolding delete_reports delete_events delete_row
delete_rows faults id s = do
  unless (faults 0)
  without_reports ← delete_reports (faults 1) id s
  without_events ← delete_events (faults 2) id without_reports
  without_job ← delete_row (faults 3) id without_events
  unless (faults 4)
  ok without_job

unfoldable pub delete_job : (ℕ → Option Failure) → Text → Op (Unit {0})
unfolding delete_rows
delete_job faults id s = commit_or_keep (delete_rows faults id s) s
