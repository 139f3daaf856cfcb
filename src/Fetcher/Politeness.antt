-- ===== src/Fetcher/Politeness.antt =====
-- app/ingestion/fetcher.py: `RateLimiter` and `RobotsCache`.
use tenderbase_api.Prelude.{
  ltb, leb, ◌==◌, if◌then◌else◌, ℕ, ◌+◌, ◌-◌, ◌*◌, ◌/◌, max, Bool, true, false, ◌||◌, Option, none,
  some, List, [], ◌∷◌, ◌++◌,
}
use tenderbase_api.Prelude.Text.{Text, codes, text_eq}
use tenderbase_api.Urls.{}
use tenderbase_api.Fetcher.{Env, HttpResponse, Robots, World}

-- `_next_allowed[host]`, a `defaultdict(float)`
unfoldable pub next_allowed_of : Text → List (Text × ℕ) → ℕ
next_allowed_of host [] = 0
next_allowed_of host ((h, t) ∷ rest) = if text_eq h host then t else next_allowed_of host rest

-- `RateLimiter.acquire`; the jitter is a factor in thousandths.
unfoldable pub acquire : Env → Text → ℕ → World → World
unfolding next_allowed_of
acquire env host per_minute w =
    if per_minute == 0
    then w
    else (let now = max w.now (next_allowed_of host w.next_allowed) in
        record w {
          now = now;
          next_allowed =
              (host, now + 60000000 / per_minute * env.uniform w.requests 900 1150 / 1000)
              ∷ w.next_allowed;
        })

-- `_cache.get(host_key)`
unfoldable pub cached_robots : Text → List (Text × (ℕ × Option Robots)) → Option (ℕ × Option Robots)
cached_robots key [] = none
cached_robots key ((k, e) ∷ rest) = if text_eq k key then some e else cached_robots key rest

abbrev pub is_fresh : ℕ → ℕ → Option (ℕ × Option Robots) → Bool
is_fresh ttl now none = false
is_fresh ttl now (some (since, robots)) = ltb (now - since) ttl

abbrev pub robots_of : Option (ℕ × Option Robots) → Option Robots
robots_of none = none
robots_of (some (since, robots)) = robots

abbrev pub can_fetch : Option Robots → Text → Text → Bool
can_fetch none agent url = true
can_fetch (some robots) agent url = robots agent url

abbrev robots_response : Env → Option HttpResponse → Option Robots
robots_response env none = none
robots_response env (some r) =
    if r.broken || leb 400 r.status_code then none else env.parse_robots r.chunks

abbrev robots_url : Text → Text
robots_url key = key ++ codes "/robots.txt"

-- `_load`, and the entry that is made of it
abbrev load : Env → Text → World → Option Robots × World
load env key w =
    let (response, took) = env.send w.requests (robots_url key) in
    let robots = robots_response env response in
    (
      robots,
      record w {
        now = w.now + took;
        requests = robots_url key ∷ w.requests;
        robots = (key, (w.now + took, robots)) ∷ w.robots;
      },
    )

-- `RobotsCache.allowed`, for a host key
unfoldable pub robots_allowed : Env → Text → Text → World → Bool × World
unfolding cached_robots
robots_allowed env key url w =
    if is_fresh env.robots_ttl w.now (cached_robots key w.robots)
    then (can_fetch (robots_of (cached_robots key w.robots)) env.user_agent url, w)
    else (can_fetch (load env key w).0 env.user_agent url, (load env key w).1)
