-- ===== src/Workers/Recorded.antt =====
-- app/workers/tasks.py: the row of a job says how its task ended.
use tenderbase_api.Prelude.{
  ◌==◌, Bool-cases, is_some, first, ℕ, ◌≤◌, max, ◌≡◌, refl, sym, subst, inl, inr, true, false,
  Option, none, some, List, [], ◌∷◌, arith,
}
use tenderbase_api.Enums.{JobStatus}
use tenderbase_api.Source.{Source}
use tenderbase_api.Ingestion.Run.{run_items}
use tenderbase_api.Ingestion.Run.Finish.{
  SourceRun, Finished, run_source, finalise, finish_run, has_succeeded,
}
use tenderbase_api.Ingestion.Persist.Tables.{Db}
use tenderbase_api.Retry.{retry_after, job_failed, RetrySettings, decide_retry, defer_or_fail}
use tenderbase_api.Workers.{JobRow, Store, find_job, job_id, put_job}
use tenderbase_api.Workers.Ingest.{
  Execution, TaskEnd, after_run, deferred_row, ingest_found, ingest_source, is_failed_run,
  job_after, missing, raised, returned, run_or_crash, started, stored_job,
}

itself : (n : ℕ) → (n == n) ≡ true
itself n = ground arith

find_job-put_job :
    (row : JobRow) (rows : List JobRow) → find_job (job_id row) (put_job row rows) ≡ some row
unfolding put_job
find_job-put_job row [] = rw (itself (job_id row)) refl
find_job-put_job row (r ∷ rows) = elim (Bool-cases (job_id r == job_id row)) [
  | inl y ↦ rw y (rw (itself (job_id row)) refl)
  | inr y ↦ rw y (rw y (find_job-put_job row rows))
]

-- What the row says of each way to end.
abbrev pub IsRecorded : ℕ → TaskEnd → JobRow → Type 0
IsRecorded job_try missing row = ⊥
IsRecorded job_try (returned run) row =
    run.status ≡ JobStatus.completed
    × row.deferred.job.status ≡ JobStatus.completed
    × job_try ≤ row.attempt
IsRecorded job_try (raised (retry_after delay)) row =
    row.deferred.job.status ≡ JobStatus.retrying
    × is_some row.deferred.scheduled_for ≡ true
    × row.deferred.job.completed_at ≡ none
IsRecorded job_try (raised (job_failed reason)) row =
    row.deferred.job.status ≡ JobStatus.failed × is_some row.deferred.job.completed_at ≡ true

-- The row in the table
abbrev pub HasRow : ℕ → ℕ → TaskEnd × Store → Type 0
HasRow job_try id (end, s) =
    (row : JobRow) × (find_job id s.jobs ≡ some row) × IsRecorded job_try end row

deferred-IsRecorded :
    (settings : RetrySettings) (draw now : ℕ) (run : SourceRun) (job_try : ℕ) (row : JobRow)
    → let decided = defer_or_fail settings draw now run job_try (some row.deferred) in
      job_id (deferred_row decided row) ≡ job_id row
      × IsRecorded job_try (raised decided.0) (deferred_row decided row)
unfolding defer_or_fail
deferred-IsRecorded settings draw now run job_try row =
    elim (Bool-cases (decide_retry settings draw run job_try).retry) [
      | inl y ↦ (refl, rw y (refl, refl, refl))
      | inr y ↦ (refl, rw y (refl, refl))
    ]

after_run-HasRow :
    {Item : Type 0} (x : Execution Item) (f : Finished) (row : JobRow) (s : Store)
    → (is_failed_run f.run.status ≡ false
        → f.run.status ≡ JobStatus.completed × row.deferred.job.status ≡ JobStatus.completed)
    → HasRow x.job_try (job_id row) (after_run x f row s)
after_run-HasRow x f row s h = elim (Bool-cases (is_failed_run f.run.status)) [
  | inl y ↦
      let decided = defer_or_fail x.settings x.draw x.now f.run x.job_try (some row.deferred) in
      let (a, b) = deferred-IsRecorded x.settings x.draw x.now f.run x.job_try row in
      rw y (
        deferred_row decided row,
        subst
            (λ id.
              find_job id (put_job (deferred_row decided row) s.jobs)
              ≡ some (deferred_row decided row))
            a (find_job-put_job (deferred_row decided row) s.jobs),
        b,
      )
  | inr y ↦
      let (a, b) = h y in
      let row' = record row { attempt = max row.attempt x.job_try } in
      rw y (row', find_job-put_job row' s.jobs, (a, b, omega arith))
]

-- The run and its job end alike.
run_source-completed :
    {Item : Type 0} (x : Execution Item) (source : Source) (row : JobRow) (db : Db)
    → let f = run_source (x.services source) x.clock source (some row.deferred.job) db in
      is_failed_run f.run.status ≡ false
      → f.run.status ≡ JobStatus.completed
        × (job_after f.job row).deferred.job.status ≡ JobStatus.completed
unfolding run_source finalise finish_run
run_source-completed x source row db h =
    elim (Bool-cases (has_succeeded (run_items (x.services source) db).stats)) [
      | inl y ↦ rw y (refl, refl)
      | inr y ↦ absurd (ground (arith, (rw y at h)))
    ]

-- A task whose source is stored and in which nothing escapes the pipeline leaves a row of its job, the
-- stored one or a new one, that says how it ended. If it returns, the run and the row are COMPLETED and
-- the row has at least as many attempts as the queue counts; if it is deferred, the row is RETRYING, with
-- a moment for the next try and without one of completion; if it fails, the row is FAILED and complete.
pub ingest_source-HasRow :
    {Item : Type 0} (x : Execution Item) (source_id : ℕ) (id : Option ℕ) (s : Store)
    (source : Source)
    → x.crash ≡ none
    → first (λ y. y.id == source_id) s.sources ≡ some source
    → HasRow x.job_try
        (job_id (started x source (stored_job id s)))
        (ingest_source x source_id id s)
unfolding ingest_source
ingest_source-HasRow x source_id id s source c h =
    let row = started x source (stored_job id s) in
    let f = run_source (x.services source) x.clock source (some row.deferred.job) s.db in
    subst (λ o. HasRow x.job_try (job_id row) (ingest_found x id o s)) (sym h)
      (subst (λ o. HasRow x.job_try (job_id row) (run_or_crash x o source (stored_job id s) s))
        (sym c)
        (after_run-HasRow x f (job_after f.job row) s (run_source-completed x source row s.db)))
