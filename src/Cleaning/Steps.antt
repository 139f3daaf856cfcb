-- ===== src/Cleaning/Steps.antt =====
-- app/utils/text.py: the steps of `clean_text` keep what holds of every character of a text, where it
-- holds of the space and of the newline.
use mathlib.Core.List.{reverse, reverse_aux}
use tenderbase_api.Prelude.{
  leb, ◌==◌, if◌then◌else◌, keep, All, ℕ, ◌+◌, Bool, true, false, not, ◌&&◌, List, [], ◌∷◌, ◌++◌,
  map,
}
use tenderbase_api.Prelude.Text.{
  Text, Unicode, drop_while, rstrip_by, strip_by, cons_head, split_on,
}
use tenderbase_api.Cleaning.{
  cap_lines, is_blank, is_control, join_lines, join_returns, line_feed, squeeze, starts_line, tidy,
  tidy_line,
}

either : {A : Type 0} (Q : A → Type 0) (b : Bool) (x y : A) → Q x → Q y → Q (if b then x else y)
either Q true x y h k = h
either Q false x y h k = k

module _ (P : ℕ → Type 0) where
  All-append : (s t : Text) → All P s → All P t → All P (s ++ t)
  All-append [] t h k = k
  All-append (c ∷ s) t h k = (h.0, All-append s t h.1 k)

  All-reverse_aux : (s t : Text) → All P s → All P t → All P (reverse_aux s t)
  All-reverse_aux [] t h k = k
  All-reverse_aux (c ∷ s) t h k = All-reverse_aux s (c ∷ t) h.1 (h.0, k)

  All-reverse : (s : Text) → All P s → All P (reverse s)
  All-reverse s h = All-reverse_aux s [] h tt

  All-drop_while : (p : ℕ → Bool) (s : Text) → All P s → All P (drop_while p s)
  All-drop_while p [] h = tt
  All-drop_while p (c ∷ s) h =
      either (All P) (p c) (drop_while p s) (c ∷ s) (All-drop_while p s h.1) h

  pub All-rstrip_by : (p : ℕ → Bool) (s : Text) → All P s → All P (rstrip_by p s)
  All-rstrip_by p s h =
      All-reverse (drop_while p (reverse s)) (All-drop_while p (reverse s) (All-reverse s h))

  pub All-strip_by : (p : ℕ → Bool) (s : Text) → All P s → All P (strip_by p s)
  All-strip_by p s h = All-rstrip_by p (drop_while p s) (All-drop_while p s h)

  All-join_returns : (s : Text) → All P s → All P (join_returns s)
  All-join_returns [] h = tt
  All-join_returns (c ∷ s) h =
      let rest = All-join_returns s h.1 in
      either (All P) (c == 13 && starts_line s) (join_returns s) (c ∷ join_returns s) rest
        (h.0, rest)

  All-line_feed : P 10 → (s : Text) → All P s → All P (map line_feed s)
  All-line_feed n [] h = tt
  All-line_feed n (c ∷ s) h = (either P (c == 13) 10 c n h.0, All-line_feed n s h.1)

  All-cons_head : (c : ℕ) (ss : List Text) → P c → All (All P) ss → All (All P) (cons_head c ss)
  All-cons_head c [] x h = ((x, tt), tt)
  All-cons_head c (s ∷ ss) x h = ((x, h.0), h.1)

  All-split_on : (sep : ℕ) (s : Text) → All P s → All (All P) (split_on sep s)
  All-split_on sep [] h = (tt, tt)
  All-split_on sep (c ∷ s) h =
      let rest = All-split_on sep s h.1 in
      either (All (All P)) (c == sep) ([] ∷ split_on sep s) (cons_head c (split_on sep s))
        (tt, rest) (All-cons_head c (split_on sep s) h.0 rest)

  pub All-squeeze : P 32 → (last : ℕ) (s : Text) → All P s → All P (squeeze last s)
  All-squeeze n last [] h = tt
  All-squeeze n last (c ∷ s) h =
      let rest = All-squeeze n c s h.1 in
      let text = squeeze c s in
      either (All P) (is_blank c) (if is_blank last then text else 32 ∷ text) (c ∷ text)
        (either (All P) (is_blank last) text (32 ∷ text) rest (n, rest)) (h.0, rest)

  All-tidy_line :
      P 32
      → (u : Unicode) (lines : List Text) → All (All P) lines
      → All (All P) (map (tidy_line u) lines)
  All-tidy_line n u [] h = tt
  All-tidy_line n u (s ∷ ss) h =
      (All-strip_by u.is_space (squeeze 10 s) (All-squeeze n 10 s h.0), All-tidy_line n u ss h.1)

  All-join_lines : P 10 → (lines : List Text) → All (All P) lines → All P (join_lines lines)
  All-join_lines n [] h = tt
  All-join_lines n (s ∷ []) h = h.0
  All-join_lines n (s ∷ t ∷ ss) h =
      All-append s (10 ∷ join_lines (t ∷ ss)) h.0 (n, All-join_lines n (t ∷ ss) h.1)

  All-cap_lines : (n : ℕ) (s : Text) → All P s → All P (cap_lines n s)
  All-cap_lines n [] h = tt
  All-cap_lines n (c ∷ s) h =
      let rest = All-cap_lines (if c == 10 then n + 1 else 0) s h.1 in
      either (All P) (c == 10 && leb 2 n) (cap_lines (if c == 10 then n + 1 else 0) s)
        (c ∷ cap_lines (if c == 10 then n + 1 else 0) s) rest (h.0, rest)

  -- What holds of the printable characters holds of every character of the tidied text.
  pub All-tidy :
      (u : Unicode) (nfkc : Text → Text) (value : Text)
      → P 10
      → P 32
      → All P (keep (λ c. not (is_control c)) (nfkc value))
      → All P (tidy u nfkc value)
  unfolding tidy
  All-tidy u nfkc value n b h =
      let printable = keep (λ c. not (is_control c)) (nfkc value) in
      let fed = map line_feed (join_returns printable) in
      let lines = map (tidy_line u) (split_on 10 fed) in
      let all_fed = All-line_feed n (join_returns printable) (All-join_returns printable h) in
      let all_lines = All-tidy_line b u (split_on 10 fed) (All-split_on 10 fed all_fed) in
      All-strip_by u.is_space (cap_lines 0 (join_lines lines))
        (All-cap_lines 0 (join_lines lines) (All-join_lines n lines all_lines))
