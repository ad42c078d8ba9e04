-- ===== src/Jobs/Planning/Stored.antt =====
-- What `Plan` of internal/jobs/jobs.go leaves in the state database for the checks of `Apply`.
use dokploymigrator.Base.{
  ℕ, Text, List, [], ◌∷◌, ◌++◌, map, filter_by, Option, none, some, false, text_eq, trim_space, ok,
  codes, sym, ◌≡◌, ◌≢◌, refl, ap, ◌∙◌, arith, ◌==◌, All,
}
use mathlib.Core.Option.{some-injective}
use dokploymigrator.Model.{MigrationPlan}
use dokploymigrator.State.Tables.{
  JobStatus, JobRow, Event, Payload, Store, Failure, find_job, has_job, plan_payload, job_paused,
}
use dokploymigrator.State.Time.{Time, Calendar, format_time}
use dokploymigrator.State.Jobs.{
  Job, update_job, update_status, set_status, create_job, insert_job, job_row, get_job, scan_job,
}
use dokploymigrator.State.Invariant.{IsWellFormed, EventOf}
use dokploymigrator.State.Audit.{append_event, insert_event, new_event, list_events}
use dokploymigrator.State.Preservation.{
  kept, commit-ok, insert_job-ok, update_status-ok, insert_event-ok,
}
use dokploymigrator.Jobs.Workflow.Steps.{HasStatus}
use dokploymigrator.Jobs.Subset.{validate_plan_subset}
use dokploymigrator.Jobs.Manager.{Env}
use dokploymigrator.Jobs.Validation.{
  plan_ready_message, check_stored, find_stored, decode_plan, validate_stored, validate_job_plan,
}

-- Events among which the job has no dry-run plan.
abbrev pub NoPlan : Text → List Event → Type 0
NoPlan id = All (λ e. e.job_id ≡ id → e.message ≢ plan_ready_message)

-- The job is there between the two servers, and has no dry-run plan yet.
pub record IsUnplanned (id source target : Text) (s : Store) : Type 0 where
  pub row : JobRow
  pub found : find_job id s.jobs ≡ some row
  pub source_server : row.source_server_id ≡ source
  pub target_server : row.target_server_id ≡ target
  pub no_plan : NoPlan id s.events

NoPlan-append :
    (id : Text) (events : List Event) (e : Event)
    → NoPlan id events
    → (e.job_id ≡ id → e.message ≢ plan_ready_message)
    → NoPlan id (events ++ e ∷ [])
NoPlan-append id [] e h k = (k, tt)
NoPlan-append id (f ∷ events) e (h, hs) k = (h, NoPlan-append id events e hs k)

-- A change of status keeps the servers of the job that is found.
find-set_status-servers :
    (i id : Text) (status : JobStatus) (checkpoint at : Text) (jobs : List JobRow) (row : JobRow)
    → find_job i jobs ≡ some row
    → (row' : JobRow) × (find_job i (map (set_status id status checkpoint at) jobs) ≡ some row')
      × (row'.source_server_id ≡ row.source_server_id)
      × (row'.target_server_id ≡ row.target_server_id)
unfolding find_job set_status
find-set_status-servers i id status checkpoint at [] row h = cc
find-set_status-servers i id status checkpoint at (j ∷ jobs) row h = elim (text_eq.dec j.id i) [
  | yes e ↦ (set_status id status checkpoint at j, ground arith, ground arith, ground arith)
  | no n ↦
      let (row', found, s, t) =
        find-set_status-servers i id status checkpoint at jobs row (ground arith) in
      (row', ground arith, s, t)
]

find_job-append :
    (id : Text) (jobs : List JobRow) (row : JobRow)
    → has_job id jobs ≡ false
    → row.id ≡ id
    → find_job id (jobs ++ row ∷ []) ≡ some row
unfolding find_job has_job
find_job-append id [] row h e = ground arith
find_job-append id (j ∷ jobs) row h e = ground (arith, find_job-append id jobs row)

-- A job that is not there has no events.
NoPlan-absent :
    (id : Text) (jobs : List JobRow) (events : List Event)
    → has_job id jobs ≡ false
    → All (EventOf jobs) events
    → NoPlan id events
NoPlan-absent id jobs [] h _ = tt
NoPlan-absent id jobs (e ∷ events) h (owned, all) =
    (λ same m. cc (ap (λ i. has_job i jobs) same), NoPlan-absent id jobs events h all)

module _ (calendar : Calendar) (fault : Option Failure) (now : Time) (id source target : Text) where
  pub append_event-IsUnplanned :
      (level message : Text) (payload : Payload) (s : Store)
      → message ≢ plan_ready_message
      → IsUnplanned id source target s
      → IsUnplanned id source target (append_event calendar fault now id level message payload s).1
  unfolding append_event
  append_event-IsUnplanned level message payload s other u =
      let event = new_event calendar now id level message payload in
      kept (IsUnplanned id source target) (insert_event fault event s) s u λ s' e.
        let (_, same) = insert_event-ok fault event s s' e in
        rw same (record {
          row = u.row;
          found = u.found;
          source_server = u.source_server;
          target_server = u.target_server;
          no_plan =
              NoPlan-append id s.events (record event { id = s.next_event_id }) u.no_plan
                (λ _. other);
        })

  pub update_job-IsUnplanned :
      (status : JobStatus) (checkpoint : Text) (s : Store)
      → IsUnplanned id source target s
      → IsUnplanned id source target (update_job calendar fault now id status checkpoint s).1
  unfolding update_job
  update_job-IsUnplanned status checkpoint s u =
      let at = format_time calendar now in
      kept (IsUnplanned id source target) (update_status fault id status checkpoint at s) s u
        λ s' e.
          let (_, same) = update_status-ok fault id status checkpoint at s s' e in
          let (row, found, from, to) =
            find-set_status-servers id id status checkpoint at s.jobs u.row u.found in
          rw same (record {
            row = row;
            found = found;
            source_server = from ∙ u.source_server;
            target_server = to ∙ u.target_server;
            no_plan = u.no_plan;
          })

pub create_job-IsUnplanned :
    (calendar : Calendar) (fault : Option Failure) (now : Time) (job : Job) (s : Store)
    → IsWellFormed s
    → (create_job calendar fault now job s).0 ≡ ok tt
    → IsUnplanned job.id job.source_server_id job.target_server_id
        (create_job calendar fault now job s).1
unfolding create_job job_row
create_job-IsUnplanned calendar fault now job s w h =
    let row = job_row calendar now job in
    let (s', e, c) = commit-ok (insert_job fault row s) s h in
    let (new, same) = insert_job-ok fault row s s' e in
    rw (c, same)
      (record {
        row = row;
        found = find_job-append job.id s.jobs row new refl;
        source_server = refl;
        target_server = refl;
        no_plan = NoPlan-absent job.id s.jobs s.events new w.events_owned;
      })

-- The plan is found behind events without one.
find_stored-append :
    {E : Type 0} (id : Text) (plan : MigrationPlan) (events : List Event) (e : Event)
    → NoPlan id events
    → e.job_id ≡ id
    → e.message ≡ plan_ready_message
    → e.payload ≡ plan_payload plan
    → validate_plan_subset plan plan ≡ ok tt
    → find_stored {E = E} id plan (filter_by (λ e. e.job_id == id) (events ++ e ∷ [])) ≡ ok tt
unfolding find_stored check_stored decode_plan
find_stored-append id plan [] e h j m p v =
    let decoded : decode_plan e.payload ≡ some plan = rw p refl in ground arith
find_stored-append {E} id plan (f ∷ events) e (h, hs) j m p v =
    let later = find_stored-append {E = E} id plan events e hs j m p v in
    elim (text_eq.dec f.job_id id) [
      | yes q ↦ elim (text_eq.dec f.message plan_ready_message) [
        | yes r ↦ absurd (h q r)
        | no n ↦ ground arith
      ]
      | no n ↦ ground arith
    ]

-- The job is paused for a confirmation, the last event of the store records a dry-run plan of the job,
-- and no event of the job before does.
pub record IsPlanned (id source target : Text) (plan : MigrationPlan) (s : Store) : Type 0 where
  pub row : JobRow
  pub found : find_job id s.jobs ≡ some row
  pub source_server : row.source_server_id ≡ source
  pub target_server : row.target_server_id ≡ target
  pub status : row.status ≡ job_paused
  pub checkpoint : row.checkpoint ≡ codes "dry-run-ready"
  pub earlier : List Event
  pub last : Event
  pub events : s.events ≡ earlier ++ last ∷ []
  pub no_plan : NoPlan id earlier
  pub of_job : last.job_id ≡ id
  pub message : last.message ≡ plan_ready_message
  pub payload : last.payload ≡ plan_payload plan

pub append_event-IsPlanned :
    (calendar : Calendar) (fault : Option Failure) (now : Time) (id source target level : Text)
    (plan : MigrationPlan) (s : Store)
    → IsUnplanned id source target s
    → HasStatus id job_paused (codes "dry-run-ready") s
    → (append_event calendar fault now id level plan_ready_message (plan_payload plan) s).0 ≡ ok tt
    → IsPlanned id source target plan
        (append_event calendar fault now id level plan_ready_message (plan_payload plan) s).1
unfolding append_event
append_event-IsPlanned calendar fault now id source target level plan s u (row, found, paused, at)
      h =
    let one : row ≡ u.row = some-injective row u.row (sym found ∙ u.found) in
    let event = new_event calendar now id level plan_ready_message (plan_payload plan) in
    let (s', e, c) = commit-ok (insert_event fault event s) s h in
    let (_, same) = insert_event-ok fault event s s' e in
    rw (c, same)
      (record {
        row = u.row;
        found = u.found;
        source_server = u.source_server;
        target_server = u.target_server;
        status = sym (ap (λ (j : JobRow). j.status) one) ∙ paused;
        checkpoint = sym (ap (λ (j : JobRow). j.checkpoint) one) ∙ at;
        earlier = s.events;
        last = record event { id = s.next_event_id };
        events = refl;
        no_plan = u.no_plan;
        of_job = refl;
        message = refl;
        payload = refl;
      })

-- The checks before a write let the plan through that was stored last.
pub validate_job_plan-stored :
    {E : Type 0} (calendar : Calendar) (env : Env) (id : Text) (plan : MigrationPlan) (s : Store)
    → ((n : ℕ) → env.fault n ≡ none)
    → IsPlanned id plan.source_server_id plan.target_server_id plan s
    → trim_space id ≢ []
    → trim_space plan.id ≢ []
    → trim_space plan.schema_hash ≢ []
    → validate_plan_subset plan plan ≡ ok tt
    → validate_job_plan {E = E} calendar env id plan (some s) ≡ ok tt
unfolding validate_job_plan validate_stored get_job list_events scan_job
validate_job_plan-stored {E} calendar env id plan s quiet p given plan_id hash v =
    let stored : find_stored {E = E} id plan (filter_by (λ e. e.job_id == id) s.events) ≡ ok tt =
      rw p.events (
        find_stored-append {E = E} id plan p.earlier p.last p.no_plan p.of_job p.message p.payload
          v) in
    rw (quiet 0, quiet 1, p.found) (ground (arith, stored, p.source_server, p.target_server))
