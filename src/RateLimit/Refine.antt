-- ===== src/RateLimit/Refine.antt =====
-- app/services/rate_limit.py: as long as its table has room for every request, the in-process limiter
-- decides as the unbounded one.
use tenderbase_api.Prelude.{
  leb, if◌then◌else◌, Bool-cases, length, ok, ℕ, ◌+◌, ◌≤◌, ◌≡◌, refl, sym, ap, subst, ◌∙◌, inl, inr,
  Bool, true, false, Option, some, List, [], ◌∷◌, arith,
}
use tenderbase_api.Prelude.Text.{Text, text_eq, eq_of_text_eq}
use tenderbase_api.RateLimit.{
  window_of, Counters, InProcess, lookup, assign, make_room, is_current, hits_of, bucket_for, check,
}
use tenderbase_api.RateLimit.Window.{lookup-assign, length-assign-le, length-assign-old}
use tenderbase_api.RateLimit.Unbounded.{Request, Table, update, hits_in, count, run_table, run}

-- The counters hold what the table holds.
abbrev pub Shows : Counters → Table → Type 0
Shows cs f = (k : Text) → lookup k cs ≡ f k

lookup-assign_if :
    (b k : Text) (e : ℕ × ℕ) (cs : Counters)
    → lookup k (assign b e cs) ≡ (if text_eq b k then some e else lookup k cs)
unfolding lookup assign
lookup-assign_if b k e [] = refl
lookup-assign_if b k e ((c, old) ∷ rest) = elim (Bool-cases (text_eq c b)) [
  | inl y ↦
      let same = eq_of_text_eq c b y in
      rw y (
        subst
          (λ x.
            (if text_eq c k then some e else lookup k rest)
            ≡ (if text_eq x k then some e else if text_eq c k then some old else lookup k rest))
          same (skip (text_eq c k)))
  | inr y ↦ rw y (
      (ap (λ z. if text_eq c k then some old else z) (lookup-assign_if b k e rest))
      ∙ elim (Bool-cases (text_eq b k)) [
        | inl z ↦ rw (z, apart y (eq_of_text_eq b k z)) refl
        | inr z ↦ rw z refl
      ])
]
  where
    apart : text_eq c b ≡ false → b ≡ k → text_eq c k ≡ false
    apart y q = subst (λ x. text_eq c x ≡ false) q y

    skip :
        (t : Bool)
        → (if t then some e else lookup k rest)
          ≡ (if t then some e else if t then some old else lookup k rest)
    skip true = refl
    skip false = refl

Shows-assign :
    (b : Text) (e : ℕ × ℕ) (cs : Counters) (f : Table)
    → Shows cs f
    → Shows (assign b e cs) (update f b e)
Shows-assign b e cs f h k =
    lookup-assign_if b k e cs ∙ ap (λ z. if text_eq b k then some e else z) (h k)

-- One more counter at most, and the same decision.
abbrev Follows : ℕ → Counters → InProcess → Table → Type 0
Follows n cs l' f' = Shows l'.counters f' × length l'.counters ≤ length cs + 1 × l'.max_entries ≡ n

hits-in : (e o : Option (ℕ × ℕ)) (w : ℕ) → e ≡ o → is_current e w ≡ true → hits_of e ≡ hits_in o w
hits-in e o w q y = subst (λ x. hits_of e ≡ hits_in x w) q (rw y refl)

none-in : (e o : Option (ℕ × ℕ)) (w : ℕ) → e ≡ o → is_current e w ≡ false → 0 ≡ hits_in o w
none-in e o w q y = subst (λ x. 0 ≡ hits_in x w) q (rw y refl)

Shows-assign_to :
    (b : Text) (n m w : ℕ) (cs : Counters) (f : Table)
    → n ≡ m
    → Shows cs f
    → Shows (assign b (n + 1, w) cs) (update f b (m + 1, w))
Shows-assign_to b n m w cs f q h =
    subst (λ x. Shows (assign b (n + 1, w) cs) (update f b (x + 1, w))) q
      (Shows-assign b (n + 1, w) cs f h)

Shows-assign_again :
    (b : Text) (n w : ℕ) (cs : Counters) (f : Table)
    → 0 ≡ n
    → Shows cs f
    → Shows (assign b (1, w) (assign b (0, w) cs)) (update f b (n + 1, w))
Shows-assign_again b n w cs f q h k =
    lookup-assign_if b k (1, w) (assign b (0, w) cs)
    ∙ ap (λ z. if text_eq b k then some (1, w) else z) (lookup-assign_if b k (0, w) cs)
    ∙ (last ∙ ap (λ x. if text_eq b k then some (x + 1, w) else f k) q)
  where
    last :
        (if text_eq b k then some (1, w) else if text_eq b k then some (0, w) else lookup k cs)
        ≡ (if text_eq b k then some (1, w) else f k)
    last = elim (Bool-cases (text_eq b k)) [ inl y ↦ rw y refl | inr y ↦ rw y (h k) ]

length-assign_again :
    (b : Text) (e e' : ℕ × ℕ) (cs : Counters) → length (assign b e' (assign b e cs)) ≤ length cs + 1
length-assign_again b e e' cs = omega (
  arith,
  length-assign-old b e' e (assign b e cs) (lookup-assign b e cs),
  length-assign-le b e cs,
)

make_room-room : (n : ℕ) (cs : Counters) → length cs + 1 ≤ n → make_room n cs ≡ ok cs
make_room-room n cs p = rw (not_full n (length cs) p) refl
  where
    not_full : (n k : ℕ) → k + 1 ≤ n → leb n k ≡ false
    not_full n k p = ground arith

check-Follows :
    (r : Request) (l : InProcess) (f : Table)
    → Shows l.counters f
    → length l.counters + 1 ≤ l.max_entries
    → (l' : InProcess) × (check r.now r.bucket r.limit r.burst l ≡ ok ((count r f).0, l'))
      × Follows l.max_entries l.counters l' (count r f).1
unfolding check bucket_for count
check-Follows r l f h p =
    elim (Bool-cases (is_current (lookup r.bucket l.counters) (window_of r.now))) [
      | inl y ↦
          let q =
            hits-in (lookup r.bucket l.counters) (f r.bucket) (window_of r.now) (h r.bucket) y in
          (
            record l {
              counters =
                  assign r.bucket (hits_of (lookup r.bucket l.counters) + 1, window_of r.now)
                    l.counters;
            },
            rw (y, q) refl,
            (
              Shows-assign_to r.bucket _ _ (window_of r.now) l.counters f q h,
              length-assign-le r.bucket _ l.counters,
              refl,
            ),
          )
      | inr y ↦
          let q =
            none-in (lookup r.bucket l.counters) (f r.bucket) (window_of r.now) (h r.bucket) y in
          let room = make_room-room l.max_entries l.counters p in
          (
            record l {
              counters =
                  assign r.bucket (1, window_of r.now)
                    (assign r.bucket (0, window_of r.now) l.counters);
            },
            rw (y, room, sym q) refl,
            (
              Shows-assign_again r.bucket _ (window_of r.now) l.counters f q h,
              length-assign_again r.bucket _ _ l.counters,
              refl,
            ),
          )
    ]

-- The in-process limiter refines the unbounded one: over any sequence of requests, as many as its table
-- still has room for, its decisions are those of the limiter with a counter for every bucket, where the
-- two start with the same counters.
pub run-run_table :
    (reqs : List Request) (l : InProcess) (f : Table)
    → Shows l.counters f
    → length l.counters + length reqs ≤ l.max_entries
    → run reqs l ≡ ok (run_table reqs f)
unfolding run run_table
run-run_table [] l f h p = refl
run-run_table (r ∷ rs) l f h p =
    let (l', e, (h', n, m)) = check-Follows r l f h (omega (arith, p)) in
    let later = run-run_table rs l' (count r f).1 h' (omega (arith, p, n, m)) in
    rw e (rw later refl)
