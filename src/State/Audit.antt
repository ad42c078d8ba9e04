-- ===== src/State/Audit.antt =====
-- The events and reports of internal/state/store.go.
use dokploymigrator.Base.{
  ◌+◌, Text, List, [], ◌∷◌, ◌++◌, Option, not, ◌==◌, text_eq, filter_by, if◌then◌else◌, Result, ok,
  ◌>>◌, fail_if,
}
use dokploymigrator.State.Time.{Time, Calendar, format_time}
use dokploymigrator.State.Tables.{
  Payload, Event, Report, Store, Failure, StoreError, has_job, foreign_key_violation,
}
use dokploymigrator.State.Jobs.{Op, unless, commit_or_keep}

unfoldable pub list_events : Option Failure → Text → Store → Result StoreError (List Event)
list_events fault job_id s = do unless fault; ok (filter_by (λ e. e.job_id == job_id) s.events)

-- `ON CONFLICT(job_id) DO UPDATE`
unfoldable pub upsert_report : Report → List Report → List Report
upsert_report report [] = report ∷ []
upsert_report report (r ∷ reports) =
    if r.job_id == report.job_id then report ∷ reports else r ∷ upsert_report report reports

-- `INSERT INTO events`: the event gets the next number.
unfoldable pub insert_event : Option Failure → Event → Store → Result StoreError Store
insert_event fault e s = do
  unless fault
  fail_if (not (has_job e.job_id s.jobs)) (foreign_key_violation e.job_id)
  ok (record s {
    events = s.events ++ record e { id = s.next_event_id } ∷ [];
    next_event_id = s.next_event_id + 1;
  })

unfoldable pub replace_report : Option Failure → Report → Store → Result StoreError Store
unfolding upsert_report
replace_report fault r s = do
  unless fault
  fail_if (not (has_job r.job_id s.jobs)) (foreign_key_violation r.job_id)
  ok (record s { reports = upsert_report r s.reports })

module _ (calendar : Calendar) where
  abbrev pub new_event : Time → Text → Text → Text → Payload → Event
  new_event now job_id level message payload = record {
    id = 0;
    job_id = job_id;
    level = level;
    message = message;
    payload = payload;
    created_at = format_time calendar now;
  }

  unfoldable pub append_event : Option Failure → Time → Text → Text → Text → Payload → Op (Unit {0})
  unfolding insert_event
  append_event fault now job_id level message payload s =
      commit_or_keep (insert_event fault (new_event now job_id level message payload) s) s

  abbrev pub new_report : Time → Text → Text → Text → Report
  new_report now job_id json_report markdown_report = record {
    job_id = job_id;
    json_report = json_report;
    markdown_report = markdown_report;
    created_at = format_time calendar now;
  }

  unfoldable pub save_report : Option Failure → Time → Text → Text → Text → Op (Unit {0})
  unfolding replace_report
  save_report fault now job_id json_report markdown_report s =
      commit_or_keep (replace_report fault (new_report now job_id json_report markdown_report) s) s
