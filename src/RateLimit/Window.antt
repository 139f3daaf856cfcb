-- ===== src/RateLimit/Window.antt =====
-- app/services/rate_limit.py: the in-process limiter allows exactly the configured number of requests
-- in a window, and its table never outgrows `max_entries`.
use tenderbase_api.Prelude.{
  leb, ◌==◌, if◌then◌else◌, leb→le, Bool-cases, lt_of_not_leb, length, All, Result, Result-cases,
  ok, err, ℕ, suc, ◌+◌, ◌-◌, ◌≤◌, min, ◌≡◌, refl, ap, subst, ◌∙◌, inl, inr, true, false, Option,
  none, some, List, [], ◌∷◌, arith,
}
use tenderbase_api.Prelude.Text.{Text, text_eq, text_eq_refl}
use tenderbase_api.RateLimit.{
  RateDecision, RateError, key_error, window_of, Counters, InProcess, lookup, assign, pop_first,
  make_room, is_current, hits_of, bucket_for, decide, check,
}

pub lookup-assign : (b : Text) (e : ℕ × ℕ) (cs : Counters) → lookup b (assign b e cs) ≡ some e
unfolding lookup assign
lookup-assign b e [] = rw (text_eq_refl b) refl
lookup-assign b e ((k, old) ∷ rest) = elim (Bool-cases (text_eq k b)) [
  | inl y ↦ rw y (rw y refl)
  | inr y ↦ rw y (rw y (lookup-assign b e rest))
]

-- A bucket with an entry is replaced in place.
pub length-assign-old :
    (b : Text) (e old : ℕ × ℕ) (cs : Counters)
    → lookup b cs ≡ some old
    → length (assign b e cs) ≡ length cs
unfolding lookup assign
length-assign-old b e old [] h = absurd (ground arith)
length-assign-old b e old ((k, x) ∷ rest) h = elim (Bool-cases (text_eq k b)) [
  | inl y ↦ rw y refl
  | inr y ↦ rw y (ap suc (length-assign-old b e old rest (rw y at h)))
]

pub length-assign-le :
    (b : Text) (e : ℕ × ℕ) (cs : Counters) → length (assign b e cs) ≤ length cs + 1
unfolding assign
length-assign-le b e [] = omega arith
length-assign-le b e ((k, x) ∷ rest) =
    let h = length-assign-le b e rest in
    elim (Bool-cases (text_eq k b)) [ inl y ↦ rw y (omega arith) | inr y ↦ rw y (omega (arith, h)) ]

same : (a : ℕ) → (a == a) ≡ true
same a = ground arith

check-current :
    (now : ℕ) (b : Text) (limit burst : ℕ) (l : InProcess) (n : ℕ)
    → lookup b l.counters ≡ some (n, window_of now)
    → check now b limit burst l
      ≡ ok (
        decide now (window_of now) (limit + burst) (n + 1),
        record l { counters = assign b (n + 1, window_of now) l.counters },
      )
unfolding check bucket_for
check-current now b limit burst l n h = rw h (rw (same (window_of now)) refl)

abbrev as_ok : {A : Type 0} → A → Result RateError A
as_ok x = ok x

ok-injective : {A : Type 0} (x y : A) → as_ok x ≡ as_ok y → x ≡ y
ok-injective x y e = ground (arith, e)

err_not_ok : {A : Type 0} (x : RateError) (y : A) → err x ≡ as_ok y → ⊥
err_not_ok x y e = absurd (ground (arith, e))

make_room-length :
    (n : ℕ) (cs room : Counters) → length cs ≤ n → make_room n cs ≡ ok room → length room + 1 ≤ n
unfolding pop_first
make_room-length n [] room h e = elim (Bool-cases (leb n 0)) [
  | inl y ↦ absurd (err_not_ok key_error room (rw y at e))
  | inr y ↦
      let x : as_ok [] ≡ ok room = rw y at e in
      subst (λ r. length r + 1 ≤ n) (ok-injective [] room x) (lt_of_not_leb n 0 y)
]
make_room-length n (c ∷ cs) room h e = elim (Bool-cases (leb n (suc (length cs)))) [
  | inl y ↦
      let x : as_ok cs ≡ ok room = rw y at e in
      subst (λ r. length r + 1 ≤ n) (ok-injective cs room x) (omega (arith, h))
  | inr y ↦
      let k = lt_of_not_leb n (suc (length cs)) y in
      let x : as_ok (c ∷ cs) ≡ ok room = rw y at e in
      subst (λ r. length r + 1 ≤ n) (ok-injective (c ∷ cs) room x) (omega (arith, h, k))
]

make_room-ok : (n : ℕ) (cs : Counters) → 1 ≤ n → (room : Counters) × (make_room n cs ≡ ok room)
unfolding pop_first
make_room-ok n [] p = ([], rw (empty n p) refl)
  where
    empty : (n : ℕ) → 1 ≤ n → leb n 0 ≡ false
    empty n p = ground arith
make_room-ok n (x ∷ rest) p = elim (Bool-cases (leb n (suc (length rest)))) [
  | inl e ↦ (rest, rw e refl)
  | inr e ↦ (x ∷ rest, rw e refl)
]

check-fresh :
    (now : ℕ) (b : Text) (limit burst : ℕ) (l : InProcess)
    → 1 ≤ l.max_entries
    → is_current (lookup b l.counters) (window_of now) ≡ false
    → (cs : Counters) × (check now b limit burst l
        ≡ ok (
          decide now (window_of now) (limit + burst) 1,
          record l { counters = assign b (1, window_of now) cs },
        ))
unfolding check bucket_for
check-fresh now b limit burst l p h =
    let (room, e) = make_room-ok l.max_entries l.counters p in
    (assign b (0, window_of now) room, rw h (rw e refl))

abbrev counted : Result RateError (RateDecision × InProcess) → (InProcess → ℕ) → ℕ
counted (err x) later = 0
counted (ok (d, l')) later = (if d.allowed then 1 else 0) + later l'

-- The decisions on one bucket at a list of moments: how many are allowed.
unfoldable pub count_allowed : Text → ℕ → ℕ → List ℕ → InProcess → ℕ
count_allowed b limit burst [] l = 0
count_allowed b limit burst (now ∷ times) l =
    let later = count_allowed b limit burst times in counted (check now b limit burst l) later

count_step :
    (n a m : ℕ) → (if leb (n + 1) a then 1 else 0) + min m (a - (n + 1)) ≡ min (suc m) (a - n)
count_step n a m = elim (Bool-cases (leb (n + 1) a)) [
  | inl e ↦ rw e (let h = leb→le (n + 1) a e in omega (arith, h))
  | inr e ↦ rw e (let h = lt_of_not_leb (n + 1) a e in omega (arith, h))
]

minus_zero : (a m : ℕ) → min (suc m) (a - 0) ≡ min (suc m) a
minus_zero a m = omega arith

count_allowed-current :
    (b : Text) (limit burst w n : ℕ) (times : List ℕ) (l : InProcess)
    → lookup b l.counters ≡ some (n, w)
    → All (λ t. window_of t ≡ w) times
    → count_allowed b limit burst times l ≡ min (length times) (limit + burst - n)
unfolding count_allowed decide
count_allowed-current b limit burst w n [] l h all_in = omega arith
count_allowed-current b limit burst w n (now ∷ times) l h (here, rest) =
    let h' : lookup b l.counters ≡ some (n, window_of now) = rw here h in
    let l' = record l { counters = assign b (n + 1, window_of now) l.counters } in
    let later =
      count_allowed-current b limit burst w (n + 1) times l'
        (lookup-assign b (n + 1, window_of now) l.counters ∙ ap (λ t. some (n + 1, t)) here) rest in
    ap (λ r. counted r (count_allowed b limit burst times)) (check-current now b limit burst l n h')
    ∙ ap (λ k. (if leb (n + 1) (limit + burst) then 1 else 0) + k) later
    ∙ count_step n (limit + burst) (length times)

-- Of the requests of one bucket in one window, none of whose hits are counted yet, the limiter allows
-- the first `limit + burst` and refuses the others, where its table has room for an entry.
pub check_allows :
    (b : Text) (limit burst w : ℕ) (times : List ℕ) (l : InProcess)
    → 1 ≤ l.max_entries
    → is_current (lookup b l.counters) w ≡ false
    → All (λ t. window_of t ≡ w) times
    → count_allowed b limit burst times l ≡ min (length times) (limit + burst)
unfolding count_allowed decide
check_allows b limit burst w [] l p h all_in = omega arith
check_allows b limit burst w (now ∷ times) l p h (here, rest) =
    let (cs, e) =
      check-fresh now b limit burst l p (ap (is_current (lookup b l.counters)) here ∙ h) in
    let later =
      count_allowed-current b limit burst w 1 times
        (record l { counters = assign b (1, window_of now) cs })
        (lookup-assign b (1, window_of now) cs ∙ ap (λ t. some (1, t)) here) rest in
    ap (λ r. counted r (count_allowed b limit burst times)) e
    ∙ ap (λ k. (if leb 1 (limit + burst) then 1 else 0) + k) later
    ∙ count_step 0 (limit + burst) (length times)
    ∙ minus_zero (limit + burst) (length times)

current-some : (o : Option (ℕ × ℕ)) (w : ℕ) → is_current o w ≡ true → (e : ℕ × ℕ) × (o ≡ some e)
current-some none w h = absurd (ground arith)
current-some (some e) w h = (e, refl)

bucket_for-length :
    (n : ℕ) (b : Text) (w hits : ℕ) (cs cs' : Counters)
    → length cs ≤ n
    → bucket_for n b w cs ≡ ok (hits, cs')
    → (length cs' ≤ n) × ((e : ℕ × ℕ) × (lookup b cs' ≡ some e))
unfolding bucket_for
bucket_for-length n b w hits cs cs' h e = elim (Bool-cases (is_current (lookup b cs) w)) [
  | inl y ↦
      let x : as_ok (hits_of (lookup b cs), cs) ≡ ok (hits, cs') = rw y at e in
      let q = ap (λ z. z.1) (ok-injective (hits_of (lookup b cs), cs) (hits, cs') x) in
      subst (λ z. (length z ≤ n) × ((e : ℕ × ℕ) × (lookup b z ≡ some e))) q
        (h, current-some (lookup b cs) w y)
  | inr y ↦ elim (Result-cases (make_room n cs)) [
    | inl (room, m) ↦
        let x : as_ok (0, assign b (0, w) room) ≡ ok (hits, cs') = rw (y, m) at e in
        let q = ap (λ z. z.1) (ok-injective (0, assign b (0, w) room) (hits, cs') x) in
        let k = make_room-length n cs room h m in
        let a = length-assign-le b (0, w) room in
        subst (λ z. (length z ≤ n) × ((e : ℕ × ℕ) × (lookup b z ≡ some e))) q
          (omega (arith, k, a), ((0, w), lookup-assign b (0, w) room))
    | inr (r, m) ↦ absurd (err_not_ok r _ (rw (y, m) at e))
  ]
]

-- A check keeps the table within `max_entries`.
pub check-max_entries :
    (now : ℕ) (b : Text) (limit burst : ℕ) (l : InProcess) (d : RateDecision) (l' : InProcess)
    → length l.counters ≤ l.max_entries
    → check now b limit burst l ≡ ok (d, l')
    → (length l'.counters ≤ l'.max_entries) × (l'.max_entries ≡ l.max_entries)
unfolding check
check-max_entries now b limit burst l d l' h e =
    elim (Result-cases (bucket_for l.max_entries b (window_of now) l.counters)) [
      | inl ((hits, cs), m) ↦
          let (k, (old, found)) =
            bucket_for-length l.max_entries b (window_of now) hits l.counters cs h m in
          let l'' : InProcess = record l { counters = assign b (hits + 1, window_of now) cs } in
          let x : as_ok (decide now (window_of now) (limit + burst) (hits + 1), l'') ≡ ok (d, l') =
            rw m at e in
          let q =
            ap (λ z. z.1)
              (ok-injective (decide now (window_of now) (limit + burst) (hits + 1), l'') (d, l')
                x) in
          subst (λ z. (length z.counters ≤ z.max_entries) × (z.max_entries ≡ l.max_entries)) q
            (rw (length-assign-old b (hits + 1, window_of now) old cs found) k, refl)
      | inr (r, m) ↦ absurd (err_not_ok r _ (rw m at e))
    ]

pub check-answers :
    (now : ℕ) (b : Text) (limit burst : ℕ) (l : InProcess)
    → 1 ≤ l.max_entries
    → (d : RateDecision) × (l' : InProcess) × (check now b limit burst l ≡ ok (d, l'))
unfolding check bucket_for
check-answers now b limit burst l p =
    elim (Bool-cases (is_current (lookup b l.counters) (window_of now))) [
      | inl y ↦ (
        decide now (window_of now) (limit + burst) (hits_of (lookup b l.counters) + 1),
        record l {
          counters = assign b (hits_of (lookup b l.counters) + 1, window_of now) l.counters;
        },
        rw y refl,
      )
      | inr y ↦ let (cs, e) = check-fresh now b limit burst l p y in (_, _, e)
    ]
