-- ===== src/Server/Deletions.antt =====
-- What `handleDeleteJob` of internal/server/server.go deletes.
use dokploymigrator.Base.{
  suc, ◌<◌, In, Text, List, [], ◌∷◌, Option, none, some, true, false, ◌!=◌, text_eq, contains,
  filter_by, trim_space, ok, err, pos, ◌≡◌, ◌≢◌, refl, arith, ◌⊎◌, inl, inr, Bool-cases,
  Option-cases,
}
use dokploymigrator.State.Tables.{JobRow, Store, StoreError, Failure, sql_failed, find_job}
use dokploymigrator.State.Jobs.{protected_job_ids}
use dokploymigrator.State.Deletion.{without, delete_job-atomic}
use dokploymigrator.State.Invariant.{UniqueIds}
use dokploymigrator.State.Ranks.{rank}
use dokploymigrator.State.Paging.{protected_job_ids-rank, protected_job_ids-answers}
use dokploymigrator.Jobs.Adapter.{DbAdapter}
use dokploymigrator.Jobs.Manager.{Env, World, on_store}
use dokploymigrator.Jobs.Workflow.{Setup}
use dokploymigrator.Server.Request.{Config, protected_job_count, check_admin_token}
use dokploymigrator.Server.Handlers.{handle_delete_job, delete_unprotected}

find_job-without :
    (id other : Text) (jobs : List JobRow)
    → id ≢ other
    → find_job id (filter_by (λ j. j.id != other) jobs) ≡ find_job id jobs
unfolding find_job
find_job-without id other [] n = refl
find_job-without id other (j ∷ jobs) n = ground (arith, find_job-without id other jobs n)

module _ (d : DbAdapter) (setup : Setup d.Failure) (cfg : Config) (env : Env) where
  -- The store is as it was, or a job that is not protected has left it.
  Deleted : List Text → Store → Option Store → Type 0
  Deleted protected s store =
      (store ≡ some s)
      ⊎ ((id : Text) × (contains protected id ≡ false) × (store ≡ some (without id s)))

  delete_unprotected-Deleted :
      (id : Text) (protected : List Text) (s : Store) (w : World d)
      → w.store ≡ some s
      → Deleted protected s (delete_unprotected d setup cfg env id (ok protected) w).1.store
  unfolding delete_unprotected on_store Deleted
  delete_unprotected-Deleted id protected s w there = elim (Bool-cases (contains protected id)) [
    | inl guarded ↦ inl (ground arith)
    | inr free ↦ elim (delete_job-atomic (λ n. env.fault (suc n)) id s) [
      | inl (_, gone) ↦ inr (id, free, ground arith)
      | inr (_, same) ↦ inl (ground arith)
    ]
  ]

  refused :
      (s : Store) (f : Failure)
      → (e : StoreError) × (protected_job_ids setup.calendar (some f) (pos protected_job_count) s
          ≡ err e)
  unfolding protected_job_ids
  refused s f = (sql_failed f, ground arith)

  listed :
      (s : Store) (ids : List Text)
      → protected_job_ids setup.calendar none (pos protected_job_count) s ≡ ok ids
      → (protected_job_ids setup.calendar (env.fault 0) (pos protected_job_count) s ≡ ok ids)
        ⊎ ((e : StoreError) × (protected_job_ids setup.calendar
                (env.fault 0)
                (pos protected_job_count)
                s
              ≡ err e))
  listed s ids h = elim (Option-cases (env.fault 0)) [
    | inl e ↦ inl (rw e h)
    | inr (f, e) ↦ inr (fails f e)
  ]
    where
      fails :
          (f : Failure)
          → env.fault 0 ≡ some f
          → (e : StoreError) × (protected_job_ids setup.calendar
                (env.fault 0)
                (pos protected_job_count)
                s
              ≡ err e)
      fails f e = rw e (refused s f)

  -- The request is refused, or it comes to the deletion.
  handle_delete_job-cases :
      (token path_id : Text) (s : Store) (ids : List Text) (w : World d)
      → w.store ≡ some s
      → protected_job_ids setup.calendar none (pos protected_job_count) s ≡ ok ids
      → ((handle_delete_job d setup cfg env token path_id w).1 ≡ w)
        ⊎ (handle_delete_job d setup cfg env token path_id w
            ≡ delete_unprotected d setup cfg env (trim_space path_id) (ok ids) w)
  unfolding handle_delete_job
  handle_delete_job-cases token path_id s ids w there h =
      elim (Bool-cases (check_admin_token cfg token)) [
        | inl allowed ↦ elim (text_eq.dec (trim_space path_id) []) [
          | yes empty ↦ inl (ground arith)
          | no id ↦ elim (listed s ids h) [
            | inl e ↦ inr (ground arith)
            | inr (_, e) ↦ inl (ground arith)
          ]
        ]
        | inr forbidden ↦ inl (ground arith)
      ]

  handle_delete_job-Deleted :
      (token path_id : Text) (s : Store) (ids : List Text) (w : World d)
      → w.store ≡ some s
      → protected_job_ids setup.calendar none (pos protected_job_count) s ≡ ok ids
      → Deleted ids s (handle_delete_job d setup cfg env token path_id w).1.store
  unfolding Deleted
  handle_delete_job-Deleted token path_id s ids w there h =
      elim (handle_delete_job-cases token path_id s ids w there h) [
        | inl same ↦ rw same (inl there)
        | inr e ↦ rw e (delete_unprotected-Deleted (trim_space path_id) ids s w there)
      ]

  kept_with :
      (token path_id id : Text) (s : Store) (ids : List Text) (w : World d)
      → w.store ≡ some s
      → protected_job_ids setup.calendar none (pos protected_job_count) s ≡ ok ids
      → contains ids id ≡ true
      → (s' : Store) × ((handle_delete_job d setup cfg env token path_id w).1.store ≡ some s')
        × (find_job id s'.jobs ≡ find_job id s.jobs)
  unfolding Deleted
  kept_with token path_id id s ids w there h guarded =
      elim (handle_delete_job-Deleted token path_id s ids w there h) [
        | inl same ↦ (s, same, refl)
        | inr (other, free, gone) ↦
            (without other s, gone, find_job-without id other s.jobs (λ e. cc))
      ]

  -- Where no two jobs of the store have one ID, a job that fewer than 50 jobs come before, by the texts
  -- of their times and at equal texts by their IDs, the greatest first, is never changed or removed by
  -- a request to delete a job, whatever ID and token the request has and whichever statement is
  -- refused.
  pub handle_delete_job-protects :
      (token path_id : Text) (s : Store) (r : JobRow) (w : World d)
      → w.store ≡ some s
      → UniqueIds s.jobs
      → In r s.jobs
      → rank s.jobs r < 50
      → (s' : Store) × ((handle_delete_job d setup cfg env token path_id w).1.store ≡ some s')
        × (find_job r.id s'.jobs ≡ find_job r.id s.jobs)
  handle_delete_job-protects token path_id s r w there u i low =
      let (ids, h) = protected_job_ids-answers setup.calendar 49 s in
      kept_with token path_id r.id s ids w there h
        (protected_job_ids-rank setup.calendar 49 s ids r u i low h)
