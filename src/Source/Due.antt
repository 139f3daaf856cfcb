-- ===== src/Source/Due.antt =====
-- app/ingestion/discovery.py: which sources the scheduler may run now.
pub mod Selection
pub mod Starvation
use tenderbase_api.Prelude.{
  ltb, leb, ◌==◌, if◌then◌else◌, is_some, take, keep, ℕ, ◌+◌, ◌*◌, Bool, true, false, not, ◌&&◌,
  ◌||◌, Option, none, some, List, [], ◌∷◌,
}
use tenderbase_api.Enums.{HealthStatus, healthy, degraded, failing, offline, unknown, schedulable}
use tenderbase_api.Source.{Source}

-- `BACKOFF_MULTIPLIER`
abbrev pub backoff_multiplier : HealthStatus → ℕ
backoff_multiplier healthy = 1
backoff_multiplier unknown = 1
backoff_multiplier degraded = 2
backoff_multiplier failing = 4
backoff_multiplier offline = 12

-- The microseconds of a minute.
abbrev pub minute : ℕ
minute = 60 * 1000000

abbrev interval_over : ℕ → Source → Bool
interval_over now s = elim s.last_run_at [
  | none ↦ true
  | some t ↦ leb (t + minute * (s.crawl_frequency_minutes * backoff_multiplier s.health_status)) now
]

unfoldable pub is_due : ℕ → Bool → Source → Bool
is_due now respect_lifecycle s =
    if is_some s.paused_at
    then false
    else if respect_lifecycle && not (schedulable s.lifecycle_status)
    then false
    else interval_over now s

-- `ORDER BY priority ASC, last_run_at ASC NULLS FIRST`: may `a` stand before `b`?
abbrev run_le : Option ℕ → Option ℕ → Bool
run_le none b = true
run_le (some a) none = false
run_le (some a) (some b) = leb a b

abbrev pub before : Source → Source → Bool
before a b =
    if ltb a.priority b.priority
    then true
    else a.priority == b.priority && run_le a.last_run_at b.last_run_at

unfoldable pub insert_source : Source → List Source → List Source
insert_source s [] = s ∷ []
insert_source s (t ∷ ts) = if before s t then s ∷ t ∷ ts else t ∷ insert_source s ts

unfoldable pub order_sources : List Source → List Source
unfolding insert_source
order_sources [] = []
order_sources (s ∷ ss) = insert_source s (order_sources ss)

-- The loop over the candidates, with the number of sources found so far.
unfoldable pub select_due : (Source → Bool) → ℕ → ℕ → List Source → List Source
select_due due limit n [] = []
select_due due limit n (s ∷ ss) =
    let found = select_due due limit (n + 1) ss in
    let skipped = select_due due limit n ss in
    if due s then s ∷ (if leb limit (n + 1) then [] else found) else skipped

-- The rows that the query returns.
unfoldable pub candidates : ℕ → Bool → List Source → List Source
unfolding order_sources
candidates limit include_inactive db =
    take (limit * 4) (order_sources (keep (λ s. include_inactive || s.is_active) db))

unfoldable pub find_due_sources : ℕ → ℕ → Bool → Bool → List Source → List Source
unfolding candidates is_due select_due
find_due_sources now limit include_inactive respect_lifecycle db =
    select_due (is_due now respect_lifecycle) limit 0 (candidates limit include_inactive db)
