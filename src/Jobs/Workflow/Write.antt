-- ===== src/Jobs/Workflow/Write.antt =====
-- A write of the Dokploy database inside a workflow of internal/jobs/jobs.go.
use dokploymigrator.Base.{
  ℕ, Text, Option, some, Result, ok, err, ◌≡◌, refl, sym, ◌∙◌, arith, ◌⊎◌, inl, inr, Result-cases,
  Option-cases,
}
use dokploymigrator.Model.{MigrationPlan}
use dokploymigrator.State.Jobs.{Op}
use dokploymigrator.Jobs.Adapter.{DbAdapter}
use dokploymigrator.Jobs.Manager.{
  JobsError, Env, World, M, ◌>>=◌, ◌>>◌, on_store, on_db, or_else, handle, continue,
}
use dokploymigrator.Jobs.Manager.Keeps.{Keeps, keeps_rules, Keeps-on_store}
use dokploymigrator.Jobs.Workflow.{
  Setup, update, append, save, mark_failed, begin_write, finish_apply, finish_rollback,
}
use dokploymigrator.Jobs.Workflow.Steps.{then-ok, on_db-ok, or_else-ok}

-- The Dokploy database is as it was.
abbrev pub Same : (d : DbAdapter) → Option d.State → World d → Type 0
Same d db w = w.db ≡ db

-- What a write of the adapter has left in the database, if it succeeded.
abbrev pub Written :
    (d : DbAdapter) → (d.State → Result d.Failure (Unit {0}) × d.State) → World d → World d → Type 0
Written d op w w' = (x : d.State) × (w.db ≡ some x) × ((op x).0 ≡ ok tt) × (w'.db ≡ some (op x).1)

module _ {d : DbAdapter} (db : Option d.State) where
  Same-on_store : (op : Op (Unit {0})) → Keeps (Same d db) (on_store op)
  Same-on_store op = Keeps-on_store op (λ s x h. h)

module _ (d : DbAdapter) (setup : Setup d.Failure) (env : Env) (db : Option d.State) where
  Same-mark_failed :
      (n : ℕ) (id checkpoint message : Text) (e : JobsError d.Failure)
      → Keeps (Same d db) (mark_failed d setup env n id checkpoint message e)
  unfolding mark_failed update append
  Same-mark_failed n id checkpoint message e = search (keeps_rules, Same-on_store)

  Same-begin_write :
      (job_id : Text) (plan : MigrationPlan) (checkpoint message : Text)
      → Keeps (Same d db) (begin_write d setup env job_id plan checkpoint message)
  unfolding begin_write update append
  Same-begin_write job_id plan checkpoint message = search (keeps_rules, Same-on_store)

  pub Same-finish_apply :
      (job_id : Text) (plan : MigrationPlan)
      → Keeps (Same d db) (finish_apply d setup env job_id plan)
  unfolding finish_apply update append save
  Same-finish_apply job_id plan = search (keeps_rules, Same-on_store)

  pub Same-finish_rollback :
      (job_id : Text) (plan : MigrationPlan)
      → Keeps (Same d db) (finish_rollback d setup env job_id plan)
  unfolding finish_rollback update append
  Same-finish_rollback job_id plan = search (keeps_rules, Same-on_store)

-- What holds after a step, or after the next one.
then-leads :
    {d : DbAdapter} (P Q : World d → Type 0) (m k : M d (Unit {0})) (w : World d)
    → P (m w).1
    → ((v : World d) → P v → Q v)
    → ((v : World d) → P v → Q (k v).1)
    → Q ((m >> k) w).1
unfolding ◌>>=◌
then-leads {d} P Q m k w h weaker next = go (m w) h
  where
    go :
        (r : Result (JobsError d.Failure) (Unit {0}) × World d)
        → P r.1
        → Q (continue r.0 (λ _. k) r.1).1
    go (ok tt, v) p = next v p
    go (err e, v) p = weaker v p

-- A write of the adapter between what announces it and what follows it.
module _ (d : DbAdapter) (setup : Setup d.Failure) (env : Env) (job_id : Text)
    (plan : MigrationPlan) (checkpoint started message : Text)
    (op : d.State → Result d.Failure (Unit {0}) × d.State) (after : M d (Unit {0})) where
  abbrev pub write : M d (Unit {0})
  write = or_else (on_db op) (mark_failed d setup env 4 job_id checkpoint message)

  abbrev pub checked : M d (Unit {0})
  checked = begin_write d setup env job_id plan checkpoint started >> (write >> after)

  pub checked-ok :
      (w : World d)
      → (checked w).0 ≡ ok tt
      → (v : World d) × Written d op w v × ((after v).0 ≡ ok tt) × (checked w ≡ after v)
  checked-ok w h =
      let begin = begin_write d setup env job_id plan checkpoint started in
      let (_, e) = then-ok begin (write >> after) w h in
      let (done, e') = then-ok write after (begin w).1 (rw e at h) in
      let (fine, e'') =
        or_else-ok d setup env (on_db op) 4 job_id checkpoint message (begin w).1 done in
      let (x, there, ok_x, db) = on_db-ok op (begin w).1 fine in
      let same = (Same-begin_write d setup env w.db job_id plan checkpoint started).at w refl in
      ((on_db op (begin w).1).1, (x, sym same ∙ there, ok_x, db), cc, cc)

  -- The database is as it was, or as the write left it.
  abbrev pub Changed : World d → World d → Type 0
  Changed w v = (v.db ≡ w.db) ⊎ Written d op w v

  Changed-kept :
      (m : M d (Unit {0}))
      → ((db : Option d.State) → Keeps (Same d db) m)
      → (w v : World d) → Changed w v
      → Changed w (m v).1
  Changed-kept m k w v (inl same) = inl ((k v.db).at v refl ∙ same)
  Changed-kept m k w v (inr (x, there, fine, db)) = inr (x, there, fine, (k v.db).at v refl ∙ db)

  on_db-Changed :
      ((x : d.State) (e : d.Failure) → (op x).0 ≡ err e → (op x).1 ≡ x)
      → (w v : World d) → v.db ≡ w.db
      → Changed w (on_db op v).1
  unfolding on_db
  on_db-Changed atomic w v same = elim (Option-cases v.db) [
    | inl gone ↦ inl (ground arith)
    | inr (x, there) ↦ elim (Result-cases (op x).0) [
      | inl (u, fine) ↦ inr (x, sym same ∙ there, fine, ground arith)
      | inr (e, failed) ↦ inl (ground (arith, atomic x e failed))
    ]
  ]

  write-Changed :
      ((x : d.State) (e : d.Failure) → (op x).0 ≡ err e → (op x).1 ≡ x)
      → (w v : World d) → v.db ≡ w.db
      → Changed w (write v).1
  unfolding or_else
  write-Changed atomic w v same = go (on_db op v) (on_db-Changed atomic w v same)
    where
      handler : JobsError d.Failure → M d (Unit {0})
      handler = mark_failed d setup env 4 job_id checkpoint message

      go :
          (r : Result (JobsError d.Failure) (Unit {0}) × World d)
          → Changed w r.1
          → Changed w (handle handler r.0 r.1).1
      go (ok u, v') c = c
      go (err e, v') c =
          Changed-kept (handler e)
            (λ db. Same-mark_failed d setup env db 4 job_id checkpoint message e) w v' c

  -- Whatever the outcome, the database is as it was, or as the write left it.
  pub checked-Changed :
      ((x : d.State) (e : d.Failure) → (op x).0 ≡ err e → (op x).1 ≡ x)
      → ((db : Option d.State) → Keeps (Same d db) after)
      → (w : World d) → Changed w (checked w).1
  checked-Changed atomic quiet w =
      let begin = begin_write d setup env job_id plan checkpoint started in
      then-leads (Same d w.db) (Changed w) begin (write >> after) w
        ((Same-begin_write d setup env w.db job_id plan checkpoint started).at w refl)
        (λ v same. inl same)
        (λ v same.
          then-leads (Changed w) (Changed w) write after v (write-Changed atomic w v same)
            (λ u c. c) (λ u c. Changed-kept after quiet w u c))
