-- ===== src/Workers/Accounts.antt =====
-- app/workers/tasks.py: `schedule_due_sources` accounts for each due source.
use tenderbase_api.Prelude.{take, Result, ok, err, ℕ, ◌+◌, ◌≡◌, Option, none, some, List, [], ◌∷◌}
use tenderbase_api.Prelude.Text.{Text}
use tenderbase_api.Enums.{JobStatus}
use tenderbase_api.Source.{Source}
use tenderbase_api.Workers.{JobRow}
use tenderbase_api.Workers.Schedule.{Enqueue}

-- A job's row says what its enqueue answered: QUEUED with the queue's identifier, or FAILED with the text
-- of the exception.
abbrev pub IsAnswered : Result Text (Option Text) → JobRow → Type 0
IsAnswered (ok queue_id) row =
    row.deferred.job.status ≡ JobStatus.queued × row.queue_job_id ≡ queue_id
IsAnswered (err message) row =
    row.deferred.job.status ≡ JobStatus.failed
    × row.deferred.job.error_message ≡ some (take 2000 message)
    × row.queue_job_id ≡ none

-- What the loop reports for one source.
abbrev pub reported : Result Text (Option Text) → Source → List ℕ → List ℕ
reported (ok queue_id) source rest = source.id ∷ rest
reported (err message) source rest = rest

-- The sources that are queued: those whose enqueue, with the identifier of their job, does not raise.
abbrev pub accepted_ids : Enqueue → ℕ → List Source → List ℕ
accepted_ids enqueue id [] = []
accepted_ids enqueue id (source ∷ sources) =
    reported (enqueue source id) source (accepted_ids enqueue (id + 1) sources)

-- One row for each source, in order, with the source's identifier and the answer of its own enqueue.
abbrev pub Accounts : Enqueue → ℕ → List Source → List JobRow → Type 0
Accounts enqueue id [] [] = Unit
Accounts enqueue id (source ∷ sources) (row ∷ rows) =
    (row.source_id ≡ source.id × row.deferred.job.id ≡ id × IsAnswered (enqueue source id) row)
    × Accounts enqueue (id + 1) sources rows
Accounts enqueue id _ _ = ⊥
