-- ===== src/RateLimit/Unbounded.antt =====
-- app/services/rate_limit.py: what the in-process limiter promises, as a limiter with a counter for
-- every bucket and no bound on its table; and the limiter's run over a sequence of requests.
use tenderbase_api.Prelude.{if◌then◌else◌, Result, ◌>>=◌, ok, ℕ, ◌+◌, Option, some, List, [], ◌∷◌}
use tenderbase_api.Prelude.Text.{Text, text_eq}
use tenderbase_api.RateLimit.{
  RateDecision, RateError, window_of, InProcess, is_current, hits_of, decide, check,
}

pub record Request : Type 0 where
  pub now : ℕ
  pub bucket : Text
  pub limit : ℕ
  pub burst : ℕ

-- The hits and the window of each bucket.
abbrev pub Table : Type 0
Table = Text → Option (ℕ × ℕ)

abbrev pub update : Table → Text → ℕ × ℕ → Table
update f b e k = if text_eq b k then some e else f k

abbrev pub hits_in : Option (ℕ × ℕ) → ℕ → ℕ
hits_in e window = if is_current e window then hits_of e else 0

unfoldable pub count : Request → Table → RateDecision × Table
unfolding decide
count r f =
    let window = window_of r.now in
    let hits = hits_in (f r.bucket) window + 1 in
    (decide r.now window (r.limit + r.burst) hits, update f r.bucket (hits, window))

unfoldable pub run_table : List Request → Table → List RateDecision
unfolding count
run_table [] f = []
run_table (r ∷ rs) f = let (d, f') = count r f in d ∷ run_table rs f'

unfoldable pub run : List Request → InProcess → Result RateError (List RateDecision)
unfolding check
run [] l = ok []
run (r ∷ rs) l = check r.now r.bucket r.limit r.burst l >>= λ found.
    run rs found.1 >>= λ later. ok (found.0 ∷ later)
