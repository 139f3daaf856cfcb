-- ===== src/RateLimit/Fallback.antt =====
-- app/services/rate_limit.py: `RedisWindowLimiter` and its Lua script, and `ResilientRateLimiter`. The
-- commands of Redis over its own state, and whether they fail, are parameters.
use tenderbase_api.Prelude.{
  leb, ◌==◌, if◌then◌else◌, Bool-cases, Result, ok, err, ℕ, zero, suc, ◌+◌, ◌*◌, ◌/◌, ◌≤◌, max, ◌≡◌,
  refl, ap, ◌⊎◌, inl, inr, Bool, true, false,
}
use tenderbase_api.Prelude.Text.{Text, codes}
use tenderbase_api.RateLimit.Window.{check-answers}
use tenderbase_api.RateLimit.{
  ℤ, pos, negsuc, difference, RateDecision, RateError, unavailable, window_seconds, window_of,
  InProcess, check,
}

-- `INCR`, `PEXPIRE` and `PTTL`
pub record Redis (S : Type 0) : Type 0 where
  pub incr : Text → S → ℤ × S
  pub pexpire : Text → ℕ → S → S
  pub pttl : Text → S → ℤ

abbrev pub is_one : ℤ → Bool
is_one (pos n) = n == 1
is_one (negsuc n) = false

abbrev pub is_negative : ℤ → Bool
is_negative (pos n) = false
is_negative (negsuc n) = true

abbrev pub window_ms : ℕ
window_ms = window_seconds * 1000

module _ {S : Type 0} (redis : Redis S) where
  abbrev renew : Bool → Text → S → S
  renew b key s = if b then redis.pexpire key window_ms s else s

  abbrev ttl_or : Bool → ℤ → ℤ
  ttl_or b ttl = if b then pos window_ms else ttl

  -- The Lua script: the hits, the time to live and the state.
  unfoldable pub window_script : Text → S → (ℤ × ℤ) × S
  window_script key s =
      let (hits, s1) = redis.incr key s in
      let s2 = renew (is_one hits) key s1 in
      let ttl = redis.pttl key s2 in
      let lost = is_negative ttl in ((hits, ttl_or lost ttl), renew lost key s2)

-- The end of `_execute`: a write that Redis dropped counts as a first hit.
unfoldable pub counted_hits : ℤ × ℤ → ℕ × ℤ
counted_hits (pos (suc n), ttl) = (suc n, ttl)
counted_hits (pos zero, ttl) = (1, pos window_ms)
counted_hits (negsuc n, ttl) = (1, pos window_ms)

abbrev retry_after : ℤ → ℕ
retry_after (pos zero) = window_seconds
retry_after (pos (suc n)) = max (suc n / 1000) 1
retry_after (negsuc n) = window_seconds

unfoldable pub redis_decision : ℕ → ℕ × ℤ → RateDecision
unfolding difference
redis_decision allowed_until (hits, ttl) = record {
  allowed = leb hits allowed_until;
  limit = allowed_until;
  remaining = difference allowed_until hits;
  retry_after_seconds = retry_after ttl;
  backend = codes "redis";
}

-- `RedisWindowLimiter.check`, where Redis answers; `key` writes the namespace, the window and the
-- bucket.
unfoldable pub redis_check :
    {S : Type 0} → Redis S → (ℕ → Text → Text) → ℕ → Text → ℕ → ℕ → S → RateDecision × S
unfolding window_script counted_hits redis_decision
redis_check redis key now b limit burst s =
    let (answer, s') = window_script redis (key (window_of now) b) s in
    (redis_decision (limit + burst) (counted_hits answer), s')

-- `ResilientRateLimiter`: the primary is what its `check` did, where there is one.
pub data Primary : Type 0 where
  absent raised : Primary
  answered : RateDecision → Primary

abbrev as_fallback :
    Result RateError (RateDecision × InProcess) → Result RateError (RateDecision × InProcess)
as_fallback (ok (d, l)) = ok (record d { backend = codes "in-process (redis unavailable)" }, l)
as_fallback (err e) = err e

unfoldable pub resilient_check :
    Bool → Primary → ℕ → Text → ℕ → ℕ → InProcess → Result RateError (RateDecision × InProcess)
unfolding check
resilient_check fail_open (answered d) now b limit burst l = ok (d, l)
resilient_check true _ now b limit burst l = as_fallback (check now b limit burst l)
resilient_check false _ now b limit burst l = err unavailable

-- What Redis documents: a key with an expiry has a time to live.
abbrev pub Expires : {S : Type 0} → Redis S → Type 0
Expires redis = (key : Text) (n : ℕ) (s : _) → redis.pttl key (redis.pexpire key n s) ≡ pos n

-- After the script its key has a time to live, also where an earlier run left it without one, as long
-- as Redis sets the expiry that it is asked to set.
pub window_script-pttl :
    {S : Type 0} (redis : Redis S) (key : Text) (s : S)
    → Expires redis
    → is_negative (redis.pttl key (window_script redis key s).1) ≡ false
unfolding window_script
window_script-pttl redis key s h =
    let (hits, s1) = redis.incr key s in
    let s2 = renew redis (is_one hits) key s1 in
    elim (Bool-cases (is_negative (redis.pttl key s2))) [
      | inl e ↦ rw e (ap is_negative (h key window_ms s2))
      | inr e ↦ rw e e
    ]

as_fallback-ok :
    (r : Result RateError (RateDecision × InProcess)) (d : RateDecision) (l : InProcess)
    → r ≡ ok (d, l)
    → as_fallback r ≡ ok (record d { backend = codes "in-process (redis unavailable)" }, l)
as_fallback-ok r d l e = rw e refl

-- What each policy does when the primary gives no answer.
abbrev pub IsLocal : RateDecision → Type 0
IsLocal d = d.backend ≡ codes "in-process (redis unavailable)"

-- An answer of the primary is passed on with the local table unchanged. Without one, a limiter that
-- fails closed raises 503, and one that fails open decides by the local table, if that has room for an
-- entry, and says so in the backend's name.
pub resilient_check-cases :
    (primary : Primary) (now : ℕ) (b : Text) (limit burst : ℕ) (l : InProcess)
    → 1 ≤ l.max_entries
    → ((d : RateDecision) × (primary ≡ answered d)
        × ((policy : Bool) → resilient_check policy primary now b limit burst l ≡ ok (d, l)))
      ⊎ ((resilient_check false primary now b limit burst l ≡ err unavailable)
          × ((d : RateDecision) × (l' : InProcess) × (resilient_check true primary now b limit burst
                  l
                ≡ ok (d, l'))
              × IsLocal d
              × ((d' : RateDecision) × (check now b limit burst l ≡ ok (d', l'))
                  × (d.allowed ≡ d'.allowed))))
unfolding resilient_check
resilient_check-cases (answered d) now b limit burst l p = inl (d, refl, λ o. refl)
resilient_check-cases absent now b limit burst l p =
    let (d, l', e) = check-answers now b limit burst l p in
    inr (refl, (_, l', as_fallback-ok _ d l' e, refl, (d, e, refl)))
resilient_check-cases raised now b limit burst l p =
    let (d, l', e) = check-answers now b limit burst l p in
    inr (refl, (_, l', as_fallback-ok _ d l' e, refl, (d, e, refl)))
