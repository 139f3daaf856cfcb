-- ===== src/RateLimit.antt =====
-- app/services/rate_limit.py: the in-process limiter, the Redis limiter with its Lua script, the
-- limiter that falls back from one to the other, and the tiers. Moments are microseconds. An
-- `OrderedDict` is a list in insertion order; Redis' commands are a parameter.
pub mod Window
pub mod Fallback
pub mod Unbounded
pub mod Refine
use tenderbase_api.Prelude.{
  leb, ◌==◌, if◌then◌else◌, length, Result, ◌>>=◌, ok, err, ℕ, ◌+◌, ◌-◌, ◌*◌, ◌/◌, max, Bool, false,
  Option, none, some, List, [], ◌∷◌,
}
use tenderbase_api.Prelude.Text.{Text, codes, text_eq}

-- The library's integers, over the native numbers.
pub data ℤ : Type 0 where
  pos : ℕ → ℤ
  negsuc : ℕ → ℤ

-- `a - b`
unfoldable pub difference : ℕ → ℕ → ℤ
difference a b = if leb b a then pos (a - b) else negsuc (b - a - 1)

pub record RateDecision : Type 0 where
  pub allowed : Bool
  pub limit : ℕ
  pub remaining : ℤ
  pub retry_after_seconds : ℕ
  pub backend : Text

pub data RateError : Type 0 where
  key_error unavailable outage : RateError

abbrev pub second : ℕ
second = 1000000

abbrev pub window_seconds : ℕ
window_seconds = 60

abbrev pub window_of : ℕ → ℕ
window_of now = now / (window_seconds * second)

abbrev pub Entry : Type 0
Entry = Text × (ℕ × ℕ)

abbrev pub Counters : Type 0
Counters = List Entry

pub record InProcess : Type 0 where
  pub counters : Counters
  pub max_entries : ℕ

-- `_counters.get(bucket)`
unfoldable pub lookup : Text → Counters → Option (ℕ × ℕ)
lookup b [] = none
lookup b ((k, e) ∷ rest) = if text_eq k b then some e else lookup b rest

-- `_counters[bucket] = entry`: a bucket that is there keeps its place.
unfoldable pub assign : Text → ℕ × ℕ → Counters → Counters
assign b e [] = (b, e) ∷ []
assign b e ((k, old) ∷ rest) =
    let later = assign b e rest in if text_eq k b then (k, e) ∷ rest else (k, old) ∷ later

-- `popitem(last=False)`
unfoldable pub pop_first : Counters → Result RateError Counters
pop_first [] = err key_error
pop_first (e ∷ rest) = ok rest

abbrev pub make_room : ℕ → Counters → Result RateError Counters
make_room n cs = if leb n (length cs) then pop_first cs else ok cs

abbrev pub is_current : Option (ℕ × ℕ) → ℕ → Bool
is_current none window = false
is_current (some (hits, w)) window = w == window

abbrev pub hits_of : Option (ℕ × ℕ) → ℕ
hits_of none = 0
hits_of (some (hits, w)) = hits

-- `_bucket_for`: the hits of the bucket in this window, and the counters.
unfoldable pub bucket_for : ℕ → Text → ℕ → Counters → Result RateError (ℕ × Counters)
unfolding lookup assign pop_first
bucket_for max_entries b window cs =
    if is_current (lookup b cs) window
    then ok (hits_of (lookup b cs), cs)
    else (make_room max_entries cs >>= λ room. ok (0, assign b (0, window) room))

abbrev pub reset_in : ℕ → ℕ → ℕ
reset_in window now = max (((window + 1) * (window_seconds * second) - now) / second) 1

unfoldable pub decide : ℕ → ℕ → ℕ → ℕ → RateDecision
unfolding difference
decide now window allowed_until hits = record {
  allowed = leb hits allowed_until;
  limit = allowed_until;
  remaining = difference allowed_until hits;
  retry_after_seconds = reset_in window now;
  backend = codes "in-process";
}

-- `InProcessWindowLimiter.check`
unfoldable pub check : ℕ → Text → ℕ → ℕ → InProcess → Result RateError (RateDecision × InProcess)
unfolding bucket_for decide
check now b limit burst l = bucket_for l.max_entries b (window_of now) l.counters >>= λ found. ok (
  decide now (window_of now) (limit + burst) (found.0 + 1),
  record l { counters = assign b (found.0 + 1, window_of now) found.1 },
)

-- `RateDecision.headers`, as the numbers of its headers
pub record Headers : Type 0 where
  pub limit : ℕ
  pub remaining : ℕ
  pub reset : ℕ
  pub policy : Text
  pub retry_after : Option ℕ

abbrev nonnegative : ℤ → ℕ
nonnegative (pos n) = n
nonnegative (negsuc n) = 0

unfoldable pub headers : ℕ → RateDecision → Headers
headers now d = record {
  limit = d.limit;
  remaining = nonnegative d.remaining;
  reset = now / second + d.retry_after_seconds;
  policy = d.backend;
  retry_after = if d.allowed then none else some (max d.retry_after_seconds 1);
}

-- `policy_for`
pub record Limits : Type 0 where
  pub anonymous : ℕ
  pub authenticated : ℕ
  pub admin : ℕ
  pub burst : ℕ

unfoldable pub policy_for : Text → Limits → ℕ × ℕ
policy_for tier l =
    if text_eq tier (codes "authenticated")
    then (l.authenticated, l.burst)
    else if text_eq tier (codes "admin")
    then (l.admin, l.burst)
    else (l.anonymous, l.burst)
