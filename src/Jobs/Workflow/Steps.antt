-- ===== src/Jobs/Workflow/Steps.antt =====
-- What each step of a workflow of the manager has done when it succeeds.
use dokploymigrator.Base.{
  ℕ, Text, List, [], ◌∷◌, map, Option, some, true, text_eq, Result, ok, err, ◌≡◌, refl, ap, arith,
  inl, inr, Option-cases,
}
use dokploymigrator.State.Tables.{JobStatus, JobRow, Store, Failure, find_job, has_job}
use dokploymigrator.State.Time.{Time, Calendar, format_time}
use dokploymigrator.State.Jobs.{Op, update_job, update_status, set_status}
use dokploymigrator.State.Preservation.{update_status-ok, commit-ok}
use dokploymigrator.Jobs.Adapter.{DbAdapter}
use dokploymigrator.Jobs.Manager.{
  JobsError, Env, World, M, ◌>>=◌, ◌>>◌, continue, handle, on_store, on_db, or_else,
}
use dokploymigrator.Jobs.Workflow.{Setup, update, mark_failed}

-- The job has a status and a checkpoint.
abbrev pub HasStatus : Text → JobStatus → Text → Store → Type 0
HasStatus id status checkpoint s =
    (row : JobRow) × (find_job id s.jobs ≡ some row)
    × (row.status ≡ status)
    × (row.checkpoint ≡ checkpoint)

find-set_status :
    (id : Text) (status : JobStatus) (checkpoint at : Text) (jobs : List JobRow)
    → has_job id jobs ≡ true
    → (row : JobRow) × (find_job id (map (set_status id status checkpoint at) jobs) ≡ some row)
      × (row.status ≡ status)
      × (row.checkpoint ≡ checkpoint)
unfolding has_job find_job set_status
find-set_status id status checkpoint at [] h = cc
find-set_status id status checkpoint at (j ∷ jobs) h = elim (text_eq.dec j.id id) [
  | yes e ↦ (
    record j { status = status; checkpoint = checkpoint; updated_at = at },
    ground arith,
    refl,
    refl,
  )
  | no n ↦
      let (row, found, s, c) = find-set_status id status checkpoint at jobs (ground arith) in
      (row, ground arith, s, c)
]

update_job-ok :
    (calendar : Calendar) (fault : Option Failure) (now : Time) (id : Text) (status : JobStatus)
    (checkpoint : Text) (s : Store)
    → (update_job calendar fault now id status checkpoint s).0 ≡ ok tt
    → HasStatus id status checkpoint (update_job calendar fault now id status checkpoint s).1
unfolding update_job
update_job-ok calendar fault now id status checkpoint s h =
    let at = format_time calendar now in
    let (s', e, c) = commit-ok (update_status fault id status checkpoint at s) s h in
    let (has, same) = update_status-ok fault id status checkpoint at s s' e in
    rw (c, same) (find-set_status id status checkpoint at s.jobs has)

module _ {d : DbAdapter} where
  -- A step that succeeds is followed by the rest.
  pub then-ok :
      (m k : M d (Unit {0})) (w : World d)
      → ((m >> k) w).0 ≡ ok tt
      → ((m w).0 ≡ ok tt) × ((m >> k) w ≡ k (m w).1)
  unfolding ◌>>=◌
  then-ok m k w h = go (m w) h
    where
      go :
          (r : Result (JobsError d.Failure) (Unit {0}) × World d)
          → (continue r.0 (λ _. k) r.1).0 ≡ ok tt
          → (r.0 ≡ ok tt) × (continue r.0 (λ _. k) r.1 ≡ k r.1)
      go (ok tt, w') e = (refl, refl)
      go (err x, w') e = cc

  pub on_db-ok :
      (op : d.State → Result d.Failure (Unit {0}) × d.State) (w : World d)
      → (on_db op w).0 ≡ ok tt
      → (x : d.State) × (w.db ≡ some x) × ((op x).0 ≡ ok tt) × ((on_db op w).1.db ≡ some (op x).1)
  unfolding on_db
  on_db-ok op w h = elim (Option-cases w.db) [
    | inl e ↦ ground arith
    | inr (x, e) ↦ (x, e, ground arith, ground arith)
  ]

  store_of_ok :
      (op : Op (Unit {0})) (w : World d)
      → (on_store op w).0 ≡ ok tt
      → (s : Store) × ((op s).0 ≡ ok tt) × ((on_store op w).1 ≡ record w { store = some (op s).1 })
  unfolding on_store
  store_of_ok op w h = elim (Option-cases w.store) [
    | inl e ↦ ground arith
    | inr (s, e) ↦ (s, ground arith, ground arith)
  ]

module _ (d : DbAdapter) (setup : Setup d.Failure) (env : Env) where
  -- A job that ends well.
  abbrev pub Ended : Text → JobStatus → Text → World d → Type 0
  Ended job_id status checkpoint w =
      (s : Store) × (w.store ≡ some s) × HasStatus job_id status checkpoint s

  -- The last step of a workflow that succeeds.
  pub update-ok :
      (n : ℕ) (id : Text) (status : JobStatus) (checkpoint : Text) (w : World d)
      → (update d setup env n id status checkpoint w).0 ≡ ok tt
      → Ended id status checkpoint (update d setup env n id status checkpoint w).1
  unfolding update
  update-ok n id status checkpoint w h =
      let op = update_job setup.calendar (env.fault n) (env.now n) id status checkpoint in
      let (s, done, e) = store_of_ok op w h in
      (
        (op s).1,
        ap (λ v. v.store) e,
        update_job-ok setup.calendar (env.fault n) (env.now n) id status checkpoint s done,
      )

  pub mark_failed-err :
      (n : ℕ) (id checkpoint message : Text) (e : JobsError d.Failure) (w : World d)
      → (mark_failed d setup env n id checkpoint message e w).0 ≡ err e
  unfolding mark_failed ◌>>=◌
  mark_failed-err n id checkpoint message e w = refl

  -- A write with its handler succeeds only as the write does.
  pub or_else-ok :
      (m : M d (Unit {0})) (n : ℕ) (id checkpoint message : Text) (w : World d)
      → (or_else m (mark_failed d setup env n id checkpoint message) w).0 ≡ ok tt
      → ((m w).0 ≡ ok tt) × (or_else m (mark_failed d setup env n id checkpoint message) w ≡ m w)
  unfolding or_else
  or_else-ok m n id checkpoint message w h = go (m w) h
    where
      handler : JobsError d.Failure → M d (Unit {0})
      handler = mark_failed d setup env n id checkpoint message

      go :
          (r : Result (JobsError d.Failure) (Unit {0}) × World d)
          → (handle handler r.0 r.1).0 ≡ ok tt
          → (r.0 ≡ ok tt) × (handle handler r.0 r.1 ≡ r)
      go (ok tt, w') e = (refl, refl)
      go (err x, w') e = cc (mark_failed-err n id checkpoint message x w')
