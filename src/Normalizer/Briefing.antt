-- ===== src/Normalizer/Briefing.antt =====
-- app/ingestion/normalizer.py: which words make a briefing optional.
use tenderbase_api.Prelude.{
  if◌then◌else◌, Bool-cases, is_some, ℕ, ◌≡◌, inl, inr, Bool, true, false, not, ◌||◌, none, some,
  [], ◌∷◌, ◌++◌, arith,
}
use tenderbase_api.Prelude.Text.{Text, Unicode, codes, strip_prefix?, contains}
use tenderbase_api.Normalizer.{
  Fields, any_word, briefing_blob, briefing_compulsory, briefing_words, compulsory_in,
  compulsory_words,
}

starts_tail :
    (p : ℕ) (w s : Text) (c : ℕ)
    → is_some (strip_prefix? (p ∷ w) (c ∷ s)) ≡ true
    → is_some (strip_prefix? w s) ≡ true
starts_tail p w s c h = ground arith

contains-prefix : (w s : Text) → is_some (strip_prefix? w s) ≡ true → contains w s ≡ true
contains-prefix w [] h = h
contains-prefix w (c ∷ s) h = ground (arith, h)

-- A text that holds a word holds the word without its first letter.
contains-tail : (p : ℕ) (w s : Text) → contains (p ∷ w) s ≡ true → contains w s ≡ true
contains-tail p w [] h = ground arith
contains-tail p w (c ∷ s) h = elim (Bool-cases (is_some (strip_prefix? (p ∷ w) (c ∷ s)))) [
  | inl e ↦ later (contains-prefix w s (starts_tail p w s c e))
  | inr e ↦ later (contains-tail p w s (right_of e h))
]
  where
    later : contains w s ≡ true → contains w (c ∷ s) ≡ true
    later e = ground (arith, e)

    right_of :
        is_some (strip_prefix? (p ∷ w) (c ∷ s)) ≡ false
        → contains (p ∷ w) (c ∷ s) ≡ true
        → contains (p ∷ w) s ≡ true
    right_of e h' = ground (arith, e, h')

contains-drop : (v w s : Text) → contains (v ++ w) s ≡ true → contains w s ≡ true
contains-drop [] w s h = h
contains-drop (p ∷ v) w s h = contains-drop v w s (contains-tail p (v ++ w) s h)

is_compulsory :
    (w : Text) → contains (codes "compulsory") w ≡ true → any_word compulsory_words w ≡ true
is_compulsory w h = ground (arith, h)

only_optional :
    (b c n t o : Bool)
    → (n ≡ true → c ≡ true)
    → (t ≡ true → c ≡ true)
    → (if not b then none else if c then some true else if n || t || o then some false else none)
      ≡ some false
    → (b ≡ true) × (o ≡ true) × (c ≡ false)
only_optional b c n t o f g h = ground arith

-- The briefing is reported as not compulsory only where the text names a briefing, holds the word
-- "optional", and has no "compulsory" and no "mandatory" in it: a briefing that is called
-- "non-compulsory" or "not compulsory" is never reported as such.
pub briefing_compulsory-optional :
    (u : Unicode) (fields : Fields)
    → briefing_compulsory u fields ≡ some false
    → (any_word briefing_words (briefing_blob u fields) ≡ true)
      × (contains (codes "optional") (briefing_blob u fields) ≡ true)
      × (any_word compulsory_words (briefing_blob u fields) ≡ false)
unfolding briefing_compulsory compulsory_in
briefing_compulsory-optional u fields h =
    let blob = briefing_blob u fields in
    only_optional (any_word briefing_words blob) (any_word compulsory_words blob)
      (contains (codes "non-compulsory") blob) (contains (codes "not compulsory") blob)
      (contains (codes "optional") blob)
      (λ e. is_compulsory blob (contains-drop (codes "non-") (codes "compulsory") blob e))
      (λ e. is_compulsory blob (contains-drop (codes "not ") (codes "compulsory") blob e)) h
