-- ===== src/State/Paging.antt =====
-- The pages of `ListJobsPage` and the IDs of `ProtectedJobIDs` of internal/state/store.go.
use dokploymigrator.Base.{
  ℕ, zero, suc, ◌+◌, ◌≤◌, ◌<◌, Text, List, [], ◌∷◌, map, take, drop, none, true, text_eq, contains,
  Result, ok, pos, ◌≡◌, refl, ap, arith, subst, ◌↔◌, inl, inr, All, All-In, In, sort_by, of_sort,
  All-sort_by, count_by-sort_by,
}
use dokploymigrator.State.Time.{Calendar}
use dokploymigrator.State.Tables.{JobRow, Store}
use dokploymigrator.State.Jobs.{
  Job, list_jobs_page, list_jobs, protected_job_ids, scan_job, listed_before,
}
use dokploymigrator.State.Invariant.{UniqueIds}
use dokploymigrator.State.Order.{is_newer}
use dokploymigrator.State.Ranks.{
  NewestFirst, rank, part-rank, history-NewestFirst, In-take, In-drop,
}

take-NewestFirst : (n : ℕ) (jobs : List JobRow) → NewestFirst jobs → NewestFirst (take n jobs)
take-NewestFirst zero jobs h = tt
take-NewestFirst (suc n) [] h = tt
take-NewestFirst (suc n) (a ∷ jobs) (h, hs) = (All-take n jobs h, take-NewestFirst n jobs hs)
  where
    All-take :
        (n : ℕ) (jobs : List JobRow)
        → All (λ b. is_newer a b ≡ true) jobs
        → All (λ b. is_newer a b ≡ true) (take n jobs)
    All-take zero jobs h = tt
    All-take (suc n) [] h = tt
    All-take (suc n) (b ∷ jobs) (h, hs) = (h, All-take n jobs hs)

drop-NewestFirst : (n : ℕ) (jobs : List JobRow) → NewestFirst jobs → NewestFirst (drop n jobs)
drop-NewestFirst zero jobs h = h
drop-NewestFirst (suc n) [] h = h
drop-NewestFirst (suc n) (a ∷ jobs) (h, hs) = drop-NewestFirst n jobs hs

All_of_In : (P : JobRow → Type 0) (jobs : List JobRow) (r : JobRow) → All P jobs → In r jobs → P r
All_of_In P [] r _ i = absurd i
All_of_In P (j ∷ jobs) r (h, hs) (inl e) = subst P e h
All_of_In P (j ∷ jobs) r (h, hs) (inr i) = All_of_In P jobs r hs i

-- The jobs of the store are those of the history.
In-history : (jobs : List JobRow) (r : JobRow) → In r jobs → In r (sort_by listed_before jobs)
In-history jobs r i =
    All_of_In (λ j. In j (sort_by listed_before jobs)) jobs r
      (of_sort listed_before (λ j. In j (sort_by listed_before jobs)) jobs
        (All-In (sort_by listed_before jobs)))
      i

history-In : (jobs : List JobRow) (r : JobRow) → In r (sort_by listed_before jobs) → In r jobs
history-In jobs r i =
    All_of_In (λ j. In j jobs) (sort_by listed_before jobs) r
      (All-sort_by listed_before (λ j. In j jobs) jobs (All-In jobs)) i

-- The rows of a page.
abbrev rows_of : ℕ → ℕ → Store → List JobRow
rows_of limit offset s = take limit (drop offset (sort_by listed_before s.jobs))

rows_of-rank :
    (limit offset : ℕ) (s : Store) (r : JobRow)
    → UniqueIds s.jobs
    → In r s.jobs
    → In r (rows_of limit offset s) ↔ ((offset ≤ rank s.jobs r) × (rank s.jobs r < offset + limit))
rows_of-rank limit offset s r u i =
    let same = count_by-sort_by listed_before (λ j. is_newer j r) s.jobs in
    let there =
      part-rank offset limit (sort_by listed_before s.jobs) r (history-NewestFirst s.jobs u)
        (In-history s.jobs r i) in
    subst (λ k. In r (rows_of limit offset s) ↔ ((offset ≤ k) × (k < offset + limit))) same there

rows_of-stored :
    (limit offset : ℕ) (s : Store) (r : JobRow) → In r (rows_of limit offset s) → In r s.jobs
rows_of-stored limit offset s r h = history-In s.jobs r (
    In-drop offset (sort_by listed_before s.jobs) r
      (In-take limit (drop offset (sort_by listed_before s.jobs)) r h))

-- The rows of a page of the history: from the newest to the oldest, and of the jobs of the store those
-- that as many jobs are newer than as the page says.
pub record IsPage (limit offset : ℕ) (jobs rows : List JobRow) : Type 0 where
  pub ordered : NewestFirst rows
  pub stored : (r : JobRow) → In r rows → In r jobs
  pub ranked :
      (r : JobRow)
      → In r jobs
      → In r rows ↔ ((offset ≤ rank jobs r) × (rank jobs r < offset + limit))

rows_of-IsPage :
    (limit offset : ℕ) (s : Store)
    → UniqueIds s.jobs
    → IsPage limit offset s.jobs (rows_of limit offset s)
rows_of-IsPage limit offset s u = record {
  ordered =
      take-NewestFirst limit (drop offset (sort_by listed_before s.jobs))
        (drop-NewestFirst offset (sort_by listed_before s.jobs) (history-NewestFirst s.jobs u));
  stored = rows_of-stored limit offset s;
  ranked = λ r. rows_of-rank limit offset s r u;
}

ok_text : {E : Type 0} (a b : List Text) → Path (Result E (List Text)) (ok a) (ok b) → a ≡ b
ok_text a b h = cc

module _ (calendar : Calendar) where
  -- Where no two jobs have one ID, a page that is asked for with a limit of at least one, and whose
  -- statement is not refused, holds its jobs in the order of the texts of their times, the greatest
  -- first and jobs with one text by their IDs, and it holds exactly the jobs of the store that no fewer
  -- than `offset` and fewer than `offset` plus the limit other jobs come before in that order.
  pub list_jobs_page-IsPage :
      (n offset : ℕ) (s : Store) (page : List Job)
      → UniqueIds s.jobs
      → list_jobs_page calendar none (pos (suc n)) (pos offset) s ≡ ok page
      → (rows : List JobRow) × (page ≡ map (scan_job calendar) rows)
        × IsPage (suc n) offset s.jobs rows
  unfolding list_jobs_page
  list_jobs_page-IsPage n offset s page u h =
      (rows_of (suc n) offset s, ground arith, rows_of-IsPage (suc n) offset s u)

  ids_of-In :
      (rows : List JobRow) (r : JobRow)
      → In r rows
      → contains (map (λ (j : Job). j.id) (map (scan_job calendar) rows)) r.id ≡ true
  unfolding scan_job
  ids_of-In [] r i = absurd i
  ids_of-In (j ∷ rows) r (inl e) =
      let same : j.id ≡ r.id = ap (λ (x : JobRow). x.id) e in ground arith
  ids_of-In (j ∷ rows) r (inr i) = ground (arith, ids_of-In rows r i)

  -- A job that fewer jobs are newer than than the limit is protected.
  pub protected_job_ids-rank :
      (n : ℕ) (s : Store) (ids : List Text) (r : JobRow)
      → UniqueIds s.jobs
      → In r s.jobs
      → rank s.jobs r < suc n
      → protected_job_ids calendar none (pos (suc n)) s ≡ ok ids
      → contains ids r.id ≡ true
  unfolding protected_job_ids list_jobs list_jobs_page
  protected_job_ids-rank n s ids r u i low h =
      let listed = (rows_of-rank (suc n) zero s r u i).1 (omega arith, omega (arith, low)) in
      let found = ids_of-In (rows_of (suc n) zero s) r listed in
      subst (λ l. contains l r.id ≡ true) (ok_text _ ids h) found

  pub protected_job_ids-answers :
      (n : ℕ) (s : Store)
      → (ids : List Text) × (protected_job_ids calendar none (pos (suc n)) s ≡ ok ids)
  unfolding protected_job_ids list_jobs list_jobs_page
  protected_job_ids-answers n s = (_, refl)
