-- ===== src/Source/Due/Starvation.antt =====
-- app/ingestion/discovery.py: the rows that the query reads before it tests `is_due` can hide a due
-- source.
use tenderbase_api.Prelude.{
  Bool-cases, length, take, keep, All, ℕ, zero, suc, ◌*◌, ◌≤◌, ◌<◌, ◌≡◌, refl, inl, inr, true,
  false, ◌||◌, List, [], ◌∷◌, ◌++◌, arith,
}
use tenderbase_api.Source.{Source}
use tenderbase_api.Source.Due.{
  before, insert_source, order_sources, is_due, find_due_sources, candidates,
}
use tenderbase_api.Source.Due.Selection.{find_due_sources-eq, All-take}

-- Rows that are active, not due, and ahead of `s` in the order.
abbrev pub IsBlocking : ℕ → Source → Source → Type 0
IsBlocking now s b = (b.is_active ≡ true) × (is_due now true b ≡ false) × (b.priority < s.priority)

insert_source-last :
    (s b : Source) (xs : List Source)
    → b.priority < s.priority
    → insert_source b (xs ++ s ∷ []) ≡ insert_source b xs ++ s ∷ []
unfolding insert_source
insert_source-last s b [] h = ground arith
insert_source-last s b (x ∷ xs) h = elim (Bool-cases (before b x)) [
  | inl e ↦ rw e
  | inr e ↦ rw (e, insert_source-last s b xs h)
]

order_sources-last :
    (now : ℕ) (s : Source) (bs : List Source)
    → All (IsBlocking now s) bs
    → order_sources (bs ++ s ∷ []) ≡ order_sources bs ++ s ∷ []
unfolding order_sources
order_sources-last now s [] h = refl
order_sources-last now s (b ∷ bs) h =
    rw (order_sources-last now s bs h.1) (insert_source-last s b (order_sources bs) h.0.2)

length-insert_source :
    (s : Source) (ts : List Source) → length (insert_source s ts) ≡ suc (length ts)
unfolding insert_source
length-insert_source s [] = refl
length-insert_source s (t ∷ ts) = elim (Bool-cases (before s t)) [
  | inl e ↦ rw e
  | inr e ↦ rw (e, length-insert_source s ts)
]

length-order_sources : (ts : List Source) → length (order_sources ts) ≡ length ts
unfolding order_sources
length-order_sources [] = refl
length-order_sources (t ∷ ts) =
    omega (arith, length-insert_source t (order_sources ts), length-order_sources ts)

take-append {ℓ} :
    {A : Type ℓ} (n : ℕ) (xs ys : List A) → n ≤ length xs → take n (xs ++ ys) ≡ take n xs
take-append zero xs ys h = refl
take-append (suc n) [] ys h = absurd (omega arith)
take-append (suc n) (x ∷ xs) ys h = rw (take-append n xs ys (omega arith))

keep-active :
    (now : ℕ) (s : Source) (bs : List Source)
    → s.is_active ≡ true
    → All (IsBlocking now s) bs
    → keep (λ t. false || t.is_active) (bs ++ s ∷ []) ≡ bs ++ s ∷ []
keep-active now s [] a h = rw a
keep-active now s (b ∷ bs) a h = rw (h.0.0, keep-active now s bs a h.1)

-- No such row survives the selection.
abbrev IsNotDue : ℕ → Source → Type 0
IsNotDue now b = is_due now true b ≡ false

insert_source-All :
    (P : Source → Type 0) (s : Source) (ts : List Source)
    → P s
    → All P ts
    → All P (insert_source s ts)
unfolding insert_source
insert_source-All P s [] h k = (h, tt)
insert_source-All P s (t ∷ ts) h k = elim (Bool-cases (before s t)) [
  | inl e ↦ rw e (h, k)
  | inr e ↦ rw e (k.0, insert_source-All P s ts h k.1)
]

order_sources-IsNotDue :
    (now : ℕ) (s : Source) (bs : List Source)
    → All (IsBlocking now s) bs
    → All (IsNotDue now) (order_sources bs)
unfolding order_sources
order_sources-IsNotDue now s [] h = tt
order_sources-IsNotDue now s (b ∷ bs) h =
    insert_source-All (IsNotDue now) b (order_sources bs) h.0.1
      (order_sources-IsNotDue now s bs h.1)

keep-IsNotDue :
    (now : ℕ) (ts : List Source) → All (IsNotDue now) ts → keep (is_due now true) ts ≡ []
keep-IsNotDue now [] h = refl
keep-IsNotDue now (t ∷ ts) h = rw (h.0, keep-IsNotDue now ts h.1)

candidates-blocked :
    (now limit : ℕ) (s : Source) (bs : List Source)
    → s.is_active ≡ true
    → All (IsBlocking now s) bs
    → limit * 4 ≤ length bs
    → candidates limit false (bs ++ s ∷ []) ≡ take (limit * 4) (order_sources bs)
unfolding candidates
candidates-blocked now limit s bs a h long =
    rw (keep-active now s bs a h, order_sources-last now s bs h)
      (take-append (limit * 4) (order_sources bs) (s ∷ []) (omega (arith, length-order_sources bs)))

take-nil {ℓ} : {A : Type ℓ} (n : ℕ) → take {A = A} n [] ≡ []
take-nil zero = refl
take-nil (suc n) = refl

-- Rows ahead hide a source that is due: in a table of the active source `s` after 4 * limit or more
-- active sources with a smaller priority number, none of which is due now, and of no other row, the
-- scheduler chooses nothing, whether `s` is due or not.
pub find_due_sources_starves :
    (now limit : ℕ) (s : Source) (bs : List Source)
    → s.is_active ≡ true
    → All (IsBlocking now s) bs
    → limit * 4 ≤ length bs
    → find_due_sources now limit false true (bs ++ s ∷ []) ≡ []
find_due_sources_starves now limit s bs a h long =
    rw
      (
        find_due_sources-eq now limit false true (bs ++ s ∷ []),
        candidates-blocked now limit s bs a h long,
        keep-IsNotDue now _ (
            All-take (IsNotDue now) (limit * 4) (order_sources bs)
              (order_sources-IsNotDue now s bs h)),
      )
      (take-nil limit)
