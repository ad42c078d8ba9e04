-- ===== src/State/Preservation.antt =====
-- Every operation of the store that adds or changes rows keeps the invariant, and what each statement
-- has done where it succeeds.
use dokploymigrator.Base.{
  ℕ, ◌+◌, ◌<◌, Text, List, [], ◌∷◌, ◌++◌, map, Option, true, false, ◌==◌, text_eq, Result, ok, err,
  ◌≡◌, refl, arith, All, All-append, ◌∙◌, ◌||◌,
}
use dokploymigrator.State.Time.{Time, Calendar, format_time}
use dokploymigrator.State.Tables.{
  JobStatus, JobRow, Payload, Event, Report, Store, Failure, StoreError, has_job,
}
use dokploymigrator.State.Jobs.{
  Job, commit_or_keep, set_status, job_row, insert_job, create_job, update_status, update_job,
}
use dokploymigrator.State.Audit.{
  upsert_report, insert_event, new_event, replace_report, new_report, append_event, save_report,
}
use dokploymigrator.State.Invariant.{
  has_report, UniqueReports, Numbered, EventOf, ReportOf, IsWellFormed, has_job-append,
  has_job-set_status, unique-append, unique-set_status, events-grow, reports-grow,
}

-- An operation keeps what its success establishes and its refusal keeps.
pub kept :
    (P : Store → Type 0) (r : Result StoreError Store) (s : Store)
    → P s
    → ((s' : Store) → r ≡ ok s' → P s')
    → P (commit_or_keep r s).1
kept P (ok s') s h k = k s' refl
kept P (err e) s h k = h

with_job :
    (s : Store) (j : JobRow)
    → has_job j.id s.jobs ≡ false
    → IsWellFormed s
    → IsWellFormed (record s { jobs = s.jobs ++ j ∷ [] })
with_job s j new w =
    let grows : (i : Text) → has_job i s.jobs ≡ true → has_job i (s.jobs ++ j ∷ []) ≡ true =
      λ i h. ground (arith, has_job-append i s.jobs j) in
    record {
      unique = unique-append s.jobs j new w.unique;
      events_owned = events-grow s.jobs _ grows s.events w.events_owned;
      reports_owned = reports-grow s.jobs _ grows s.reports w.reports_owned;
      one_report = w.one_report;
      numbered = w.numbered;
    }

with_status :
    (s : Store) (id : Text) (status : JobStatus) (checkpoint at : Text)
    → IsWellFormed s
    → IsWellFormed (record s { jobs = map (set_status id status checkpoint at) s.jobs })
with_status s id status checkpoint at w =
    let grows : (i : Text)
        → has_job i s.jobs ≡ true
        → has_job i (map (set_status id status checkpoint at) s.jobs) ≡ true =
      λ i h. has_job-set_status i id status checkpoint at s.jobs ∙ h in
    record {
      unique = unique-set_status id status checkpoint at s.jobs w.unique;
      events_owned = events-grow s.jobs _ grows s.events w.events_owned;
      reports_owned = reports-grow s.jobs _ grows s.reports w.reports_owned;
      one_report = w.one_report;
      numbered = w.numbered;
    }

older :
    (next : ℕ) (e : Event) (events : List Event)
    → Numbered next events
    → e.id ≡ next
    → Numbered (next + 1) (events ++ e ∷ [])
older next e [] n h = (omega arith, tt, tt)
older next e (f ∷ events) (below, above, n) h = (
  omega arith,
  All-append (λ g. f.id < g.id) events (e ∷ []) above (omega arith, tt),
  older next e events n h,
)

with_event :
    (s : Store) (e : Event)
    → has_job e.job_id s.jobs ≡ true
    → e.id ≡ s.next_event_id
    → IsWellFormed s
    → IsWellFormed (record s { events = s.events ++ e ∷ []; next_event_id = s.next_event_id + 1 })
with_event s e owned number w = record {
  unique = w.unique;
  events_owned = All-append (EventOf s.jobs) s.events (e ∷ []) w.events_owned (owned, tt);
  reports_owned = w.reports_owned;
  one_report = w.one_report;
  numbered = older s.next_event_id e s.events w.numbered number;
}

has_report-upsert :
    (i : Text) (r : Report) (reports : List Report)
    → has_report i (upsert_report r reports) ≡ (r.job_id == i || has_report i reports)
unfolding upsert_report
has_report-upsert i r [] = refl
has_report-upsert i r (q ∷ reports) = ground (arith, has_report-upsert i r reports)

upsert_unique :
    (r : Report) (reports : List Report)
    → UniqueReports reports
    → UniqueReports (upsert_report r reports)
unfolding upsert_report
upsert_unique r [] u = (refl, tt)
upsert_unique r (q ∷ reports) (f, u) =
    ground (arith, has_report-upsert q.job_id r reports, upsert_unique r reports u)

upsert-owned :
    (jobs : List JobRow) (r : Report) (reports : List Report)
    → has_job r.job_id jobs ≡ true
    → All (ReportOf jobs) reports
    → All (ReportOf jobs) (upsert_report r reports)
unfolding upsert_report
upsert-owned jobs r [] h _ = (h, tt)
upsert-owned jobs r (q ∷ reports) h (k, ks) = ground (arith, upsert-owned jobs r reports h ks)

with_report :
    (s : Store) (r : Report)
    → has_job r.job_id s.jobs ≡ true
    → IsWellFormed s
    → IsWellFormed (record s { reports = upsert_report r s.reports })
with_report s r owned w = record {
  unique = w.unique;
  events_owned = w.events_owned;
  reports_owned = upsert-owned s.jobs r s.reports owned w.reports_owned;
  one_report = upsert_unique r s.reports w.one_report;
  numbered = w.numbered;
}

-- What each statement does when it succeeds.
pub insert_job-ok :
    (fault : Option Failure) (row : JobRow) (s s' : Store)
    → insert_job fault row s ≡ ok s'
    → (has_job row.id s.jobs ≡ false) × (s' ≡ record s { jobs = s.jobs ++ row ∷ [] })
unfolding insert_job
insert_job-ok fault row s s' h = ground arith

pub update_status-ok :
    (fault : Option Failure) (id : Text) (status : JobStatus) (checkpoint at : Text) (s s' : Store)
    → update_status fault id status checkpoint at s ≡ ok s'
    → (has_job id s.jobs ≡ true)
      × (s' ≡ record s { jobs = map (set_status id status checkpoint at) s.jobs })
unfolding update_status
update_status-ok fault id status checkpoint at s s' h = ground arith

pub insert_event-ok :
    (fault : Option Failure) (e : Event) (s s' : Store)
    → insert_event fault e s ≡ ok s'
    → (has_job e.job_id s.jobs ≡ true)
      × (s' ≡ record s {
        events = s.events ++ record e { id = s.next_event_id } ∷ [];
        next_event_id = s.next_event_id + 1;
      })
unfolding insert_event
insert_event-ok fault e s s' h = ground arith

pub replace_report-ok :
    (fault : Option Failure) (r : Report) (s s' : Store)
    → replace_report fault r s ≡ ok s'
    → (has_job r.job_id s.jobs ≡ true) × (s' ≡ record s { reports = upsert_report r s.reports })
unfolding replace_report
replace_report-ok fault r s s' h = ground arith

module _ (calendar : Calendar) where
  -- A new job keeps the invariant of the state database, whether SQLite takes it or refuses it.
  pub create_job-IsWellFormed :
      (fault : Option Failure) (now : Time) (job : Job) (s : Store)
      → IsWellFormed s
      → IsWellFormed (create_job calendar fault now job s).1
  unfolding create_job
  create_job-IsWellFormed fault now job s w =
      kept IsWellFormed (insert_job fault (job_row calendar now job) s) s w λ s' e.
        let (new, same) = insert_job-ok fault (job_row calendar now job) s s' e in
        rw same (with_job s (job_row calendar now job) new w)

  -- A change of status keeps the invariant, also where the job is not there or SQLite refuses.
  pub update_job-IsWellFormed :
      (fault : Option Failure) (now : Time) (id : Text) (status : JobStatus) (checkpoint : Text)
      (s : Store)
      → IsWellFormed s
      → IsWellFormed (update_job calendar fault now id status checkpoint s).1
  unfolding update_job
  update_job-IsWellFormed fault now id status checkpoint s w =
      let at = format_time calendar now in
      kept IsWellFormed (update_status fault id status checkpoint at s) s w λ s' e.
        let (_, same) = update_status-ok fault id status checkpoint at s s' e in
        rw same (with_status s id status checkpoint at w)

  -- An event keeps the invariant, also where its job is not there: SQLite refuses it then.
  pub append_event-IsWellFormed :
      (fault : Option Failure) (now : Time) (job_id level message : Text) (payload : Payload)
      (s : Store)
      → IsWellFormed s
      → IsWellFormed (append_event calendar fault now job_id level message payload s).1
  unfolding append_event
  append_event-IsWellFormed fault now job_id level message payload s w =
      let event = new_event calendar now job_id level message payload in
      kept IsWellFormed (insert_event fault event s) s w λ s' e.
        let (owned, same) = insert_event-ok fault event s s' e in
        rw same (with_event s (record event { id = s.next_event_id }) owned refl w)

  -- A report keeps the invariant: it replaces the one that its job had, and a job that is not there
  -- gets none.
  pub save_report-IsWellFormed :
      (fault : Option Failure) (now : Time) (job_id json_report markdown_report : Text) (s : Store)
      → IsWellFormed s
      → IsWellFormed (save_report calendar fault now job_id json_report markdown_report s).1
  unfolding save_report
  save_report-IsWellFormed fault now job_id json_report markdown_report s w =
      let report = new_report calendar now job_id json_report markdown_report in
      kept IsWellFormed (replace_report fault report s) s w λ s' e.
        let (owned, same) = replace_report-ok fault report s s' e in
        rw same (with_report s report owned w)

-- An operation that succeeds leaves what its statements made.
pub commit-ok :
    (r : Result StoreError Store) (s : Store)
    → (commit_or_keep r s).0 ≡ ok tt
    → (s' : Store) × (r ≡ ok s') × (commit_or_keep r s ≡ (ok tt, s'))
commit-ok (ok s') s h = (s', refl, refl)
commit-ok (err e) s h = cc
