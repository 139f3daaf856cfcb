-- ===== src/Witnesses/Limits.antt =====
-- Rate limits: three requests of one bucket in one minute, and an outage of Redis.
use tenderbase_api.Prelude.{
  ok, err, ℕ, ◌+◌, min, ◌≡◌, refl, ◌⊎◌, Bool, true, false, none, List, [], ◌∷◌, arith,
}
use tenderbase_api.Prelude.Text.{Text, codes}
use tenderbase_api.RateLimit.{
  ℤ, pos, RateDecision, unavailable, InProcess, check, lookup, is_current, bucket_for, assign,
  lookup, pop_first, decide, difference,
}
use tenderbase_api.RateLimit.Unbounded.{Request, run, run_table}
use tenderbase_api.RateLimit.Refine.{run-run_table}
use tenderbase_api.RateLimit.Window.{count_allowed, check_allows}
use tenderbase_api.RateLimit.Fallback.{
  Redis, Expires, raised, answered, resilient_check, IsLocal, resilient_check-cases,
}

abbrev client : Text
client = codes "ip"

abbrev fresh : InProcess
fresh = record { counters = []; max_entries = 2 }

abbrev times : List ℕ
times = 1 ∷ 2 ∷ 3 ∷ []

not_counted : is_current (lookup client fresh.counters) 0 ≡ false
unfolding lookup
not_counted = refl

check_allows_example : count_allowed client 1 1 times fresh ≡ min 3 (1 + 1)
check_allows_example =
    check_allows client 1 1 0 times fresh (omega arith) not_counted (refl, (refl, (refl, tt)))

-- The decision and the limiter after the first request.
abbrev first_decision : RateDecision
first_decision = record {
  allowed = true;
  limit = 2;
  remaining = pos 1;
  retry_after_seconds = 59;
  backend = codes "in-process";
}

abbrev counting : InProcess
counting = record fresh { counters = (client, (1, 0)) ∷ [] }

first_request : check 1 client 1 1 fresh ≡ ok (first_decision, counting)
unfolding check bucket_for assign lookup pop_first decide difference
first_request = refl

resilient_check-cases_example :
    ((d : RateDecision) × (raised ≡ answered d)
      × ((policy : Bool) → resilient_check policy raised 1 client 1 1 fresh ≡ ok (d, fresh)))
    ⊎ ((resilient_check false raised 1 client 1 1 fresh ≡ err unavailable)
        × ((d : RateDecision) × (l' : InProcess) × (resilient_check true raised 1 client 1 1 fresh
              ≡ ok (d, l'))
            × IsLocal d
            × ((d' : RateDecision) × (check 1 client 1 1 fresh ≡ ok (d', l'))
                × (d.allowed ≡ d'.allowed))))
resilient_check-cases_example = resilient_check-cases raised 1 client 1 1 fresh (omega arith)

-- One key: its number and its time to live.
abbrev one_key : Redis (ℕ × ℤ)
one_key = record {
  incr = λ key s. (pos (s.0 + 1), (s.0 + 1, s.1));
  pexpire = λ key n s. (s.0, pos n);
  pttl = λ key s. s.1;
}

one_key-Expires : Expires one_key
one_key-Expires key n s = refl

abbrev request : ℕ → Request
request now = record { now = now; bucket = client; limit = 1; burst = 0 }

nothing_counted : (k : Text) → lookup k fresh.counters ≡ none
unfolding lookup
nothing_counted k = refl

run-run_table_example :
    run (request 1 ∷ request 2 ∷ []) fresh ≡ ok (run_table (request 1 ∷ request 2 ∷ []) (λ k. none))
run-run_table_example =
    run-run_table (request 1 ∷ request 2 ∷ []) fresh (λ k. none) nothing_counted (omega arith)
