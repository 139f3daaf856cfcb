-- ===== src/Source/Due/Selection.antt =====
-- app/ingestion/discovery.py: the result of `find_due_sources`.
use tenderbase_api.Prelude.{
  leb, leb→le, Bool-cases, length, take, keep, length-take, All, ℕ, zero, suc, ◌+◌, ◌*◌, ◌≤◌, ◌≡◌,
  refl, ◌⊎◌, inl, inr, Bool, true, false, ◌||◌, Option, none, some, List, [], ◌∷◌, arith,
}
use tenderbase_api.Source.{Source}
use tenderbase_api.Source.Due.{
  minute, before, insert_source, order_sources, select_due, is_due, find_due_sources, candidates,
  schedulable, backoff_multiplier,
}

-- In the order of the query, each next to each.
abbrev pub HeadAfter : Source → List Source → Type 0
HeadAfter s [] = Unit
HeadAfter s (t ∷ ts) = before s t ≡ true

abbrev pub IsOrdered : List Source → Type 0
IsOrdered [] = Unit
IsOrdered (s ∷ ss) = HeadAfter s ss × IsOrdered ss

before_total : (s t : Source) → before s t ≡ false → before t s ≡ true
before_total s t h = ground arith

before_trans : (s t v : Source) → before s t ≡ true → before t v ≡ true → before s v ≡ true
before_trans s t v h k = ground arith

-- Every element is after `s`.
abbrev AllAfter : Source → List Source → Type 0
AllAfter s ts = All (λ t. before s t ≡ true) ts

AllAfter-trans :
    (s t : Source) (ts : List Source) → before s t ≡ true → AllAfter t ts → AllAfter s ts
AllAfter-trans s t [] h k = tt
AllAfter-trans s t (v ∷ ts) h k = (before_trans s t v h k.0, AllAfter-trans s t ts h k.1)

-- Ordered, each before all that follow.
abbrev pub IsSorted : List Source → Type 0
IsSorted [] = Unit
IsSorted (s ∷ ss) = AllAfter s ss × IsSorted ss

AllAfter-insert_source :
    (s t : Source) (ts : List Source)
    → before s t ≡ true
    → AllAfter s ts
    → AllAfter s (insert_source t ts)
unfolding insert_source
AllAfter-insert_source s t [] h k = (h, tt)
AllAfter-insert_source s t (v ∷ ts) h k = elim (Bool-cases (before t v)) [
  | inl e ↦ rw e (h, k)
  | inr e ↦ rw e (k.0, AllAfter-insert_source s t ts h k.1)
]

insert_source-IsSorted :
    (s : Source) (ts : List Source) → IsSorted ts → IsSorted (insert_source s ts)
unfolding insert_source
insert_source-IsSorted s [] h = (tt, tt)
insert_source-IsSorted s (t ∷ ts) h = elim (Bool-cases (before s t)) [
  | inl e ↦ rw e ((e, AllAfter-trans s t ts e h.0), h)
  | inr e ↦
      rw e (AllAfter-insert_source t s ts (before_total s t e) h.0, insert_source-IsSorted s ts h.1)
]

pub order_sources-IsSorted : (ss : List Source) → IsSorted (order_sources ss)
unfolding order_sources
order_sources-IsSorted [] = tt
order_sources-IsSorted (s ∷ ss) =
    insert_source-IsSorted s (order_sources ss) (order_sources-IsSorted ss)

AllAfter-take : (s : Source) (n : ℕ) (ts : List Source) → AllAfter s ts → AllAfter s (take n ts)
AllAfter-take s zero ts h = tt
AllAfter-take s (suc n) [] h = tt
AllAfter-take s (suc n) (t ∷ ts) h = (h.0, AllAfter-take s n ts h.1)

take-IsSorted : (n : ℕ) (ts : List Source) → IsSorted ts → IsSorted (take n ts)
take-IsSorted zero ts h = tt
take-IsSorted (suc n) [] h = tt
take-IsSorted (suc n) (t ∷ ts) h = (AllAfter-take t n ts h.0, take-IsSorted n ts h.1)

AllAfter-keep :
    (p : Source → Bool) (s : Source) (ts : List Source) → AllAfter s ts → AllAfter s (keep p ts)
AllAfter-keep p s [] h = tt
AllAfter-keep p s (t ∷ ts) h = elim (Bool-cases (p t)) [
  | inl e ↦ rw e (h.0, AllAfter-keep p s ts h.1)
  | inr e ↦ rw e (AllAfter-keep p s ts h.1)
]

keep-IsSorted : (p : Source → Bool) (ts : List Source) → IsSorted ts → IsSorted (keep p ts)
keep-IsSorted p [] h = tt
keep-IsSorted p (t ∷ ts) h = elim (Bool-cases (p t)) [
  | inl e ↦ rw e (AllAfter-keep p t ts h.0, keep-IsSorted p ts h.1)
  | inr e ↦ rw e (keep-IsSorted p ts h.1)
]

-- The loop stops at its limit: it is a `take`.
select_due-eq-take :
    (due : Source → Bool) (room n limit : ℕ) (ts : List Source)
    → n + suc room ≡ limit
    → select_due due limit n ts ≡ take (suc room) (keep due ts)
unfolding select_due
select_due-eq-take due room n limit [] h = refl
select_due-eq-take due zero n limit (t ∷ ts) h =
    ground (arith, select_due-eq-take due zero n limit ts h)
select_due-eq-take due (suc room) n limit (t ∷ ts) h = ground (
  arith,
  select_due-eq-take due (suc room) n limit ts h,
  select_due-eq-take due room (n + 1) limit ts,
)

All-keep : (p : Source → Bool) (ts : List Source) → All (λ t. p t ≡ true) (keep p ts)
All-keep p [] = tt
All-keep p (t ∷ ts) = elim (Bool-cases (p t)) [
  | inl e ↦ rw e (e, All-keep p ts)
  | inr e ↦ rw e (All-keep p ts)
]

-- The scheduler's choice is the reference selection: of the first 4 * limit rows in the order of
-- the query, those that are due, and of these the first `limit`.
pub find_due_sources-eq :
    (now limit : ℕ) (include_inactive respect_lifecycle : Bool) (db : List Source)
    → find_due_sources now limit include_inactive respect_lifecycle db
      ≡ take limit (keep (is_due now respect_lifecycle) (candidates limit include_inactive db))
unfolding find_due_sources
find_due_sources-eq now zero i r db = refl
find_due_sources-eq now (suc room) i r db =
    select_due-eq-take (is_due now r) room 0 (suc room) (candidates (suc room) i db) (omega arith)

pub All-take {ℓ} :
    {A : Type ℓ} (P : A → Type 0) (n : ℕ) (xs : List A) → All P xs → All P (take n xs)
All-take P zero xs h = tt
All-take P (suc n) [] h = tt
All-take P (suc n) (x ∷ xs) h = (h.0, All-take P n xs h.1)

candidates-IsSorted : (limit : ℕ) (i : Bool) (db : List Source) → IsSorted (candidates limit i db)
unfolding candidates
candidates-IsSorted limit i db =
    take-IsSorted (limit * 4) _ (order_sources-IsSorted (keep (λ s. i || s.is_active) db))

-- The source may run now: it is not paused, it is in a schedulable state where the lifecycle is
-- respected, and it has never run or its interval, stretched for its health, is over.
abbrev pub IsReady : ℕ → Bool → Source → Type 0
IsReady now respect_lifecycle s =
    (s.paused_at ≡ none)
    × (respect_lifecycle ≡ true → schedulable s.lifecycle_status ≡ true)
    × ((s.last_run_at ≡ none)
        ⊎ ((t : ℕ) × (s.last_run_at ≡ some t)
            × t + 60 * 1000000 * (s.crawl_frequency_minutes * backoff_multiplier s.health_status)
              ≤ now))

is_due-IsReady : (now : ℕ) (r : Bool) (s : Source) → is_due now r s ≡ true → IsReady now r s
unfolding is_due
is_due-IsReady now r s h =
    (ground (arith, h), λ k. ground (arith, h, k), over s.last_run_at (ground (arith, h)))
  where
    over :
        (last : Option ℕ)
        → elim last [
          | none ↦ true
          | some t ↦
              leb
                (t + minute * (s.crawl_frequency_minutes * backoff_multiplier s.health_status))
                now
        ]
          ≡ true
        → (last ≡ none)
          ⊎ ((t : ℕ) × (last ≡ some t)
              × t + 60 * 1000000 * (s.crawl_frequency_minutes * backoff_multiplier s.health_status)
                ≤ now)
    over none e = inl refl
    over (some t) e = inr (t, refl, leb→le _ now e)

All-implied {ℓ κ μ} :
    {A : Type ℓ} (P : A → Type κ) (Q : A → Type μ)
    → ((x : A) → P x → Q x)
    → (xs : List A) → All P xs
    → All Q xs
All-implied P Q f [] h = tt
All-implied P Q f (x ∷ xs) h = (f x h.0, All-implied P Q f xs h.1)

-- At most `limit` sources are chosen; each is not paused, is in a schedulable state when the lifecycle
-- is respected, and has never run or has its interval, which is stretched for its health, behind it;
-- and they come by priority, then by their last run, never run first.
pub find_due_sources_sound :
    (now limit : ℕ) (include_inactive respect_lifecycle : Bool) (db : List Source)
    → let chosen = find_due_sources now limit include_inactive respect_lifecycle db in
      (length chosen ≤ limit) × All (IsReady now respect_lifecycle) chosen × IsSorted chosen
find_due_sources_sound now limit i r db = rw (find_due_sources-eq now limit i r db) (
  length-take limit _,
  All-implied (λ s. is_due now r s ≡ true) (IsReady now r) (is_due-IsReady now r) _
      (All-take _ limit _ (All-keep (is_due now r) (candidates limit i db))),
  take-IsSorted limit _ (keep-IsSorted (is_due now r) _ (candidates-IsSorted limit i db)),
)
