-- ===== src/Enums/RoundTrip.antt =====
-- app/enums.py: a member of an enumeration is read back from its own value.
use mathlib.Core.List.{Memᴰ}
use tenderbase_api.Prelude.{◌≡◌, refl, ap, ◌∙◌, false, some, List, [], ◌∷◌}
use tenderbase_api.Prelude.Text.{Text, Unicode, text_eq, text_eq_refl}
use tenderbase_api.Enums.Parse.{canonical, member_or, parse, IsFresh, IsDistinct}

module _ {A : Type 0} where
  fresh-differs :
      (t : Text) (e : Text × A) (ms : List (Text × A))
      → IsFresh t ms
      → Memᴰ e ms
      → text_eq t e.0 ≡ false
  fresh-differs t e [] f m = elim m [ ]
  fresh-differs t e (x ∷ ms) f (Memᴰ.head p) = ap (λ y. text_eq t y.0) p ∙ f.0
  fresh-differs t e (x ∷ ms) f (Memᴰ.tail m) = fresh-differs t e ms f.1 m

  member_or-Mem :
      (fallback : A) (e : Text × A) (ms : List (Text × A))
      → IsDistinct ms
      → Memᴰ e ms
      → member_or fallback e.0 ms ≡ e.1
  unfolding member_or
  member_or-Mem fallback e [] d m = elim m [ ]
  member_or-Mem fallback e (x ∷ ms) d (Memᴰ.head p) = rw (← p) (rw (text_eq_refl e.0) refl)
  member_or-Mem fallback e (x ∷ ms) d (Memᴰ.tail m) =
      rw (fresh-differs x.0 e ms d.0 m) (member_or-Mem fallback e ms d.1 m)

  -- Where no value stands twice, each member is read back from its value, in any spelling that
  -- canonicalizes to it, as with other case, hyphens or spaces.
  pub parse_member :
      (u : Unicode) (members : List (Text × A)) (fallback : A) (e : Text × A) (spelling : Text)
      → IsDistinct members
      → Memᴰ e members
      → canonical u spelling ≡ e.0
      → parse u members fallback (some spelling) ≡ e.1
  unfolding parse
  parse_member u members fallback e spelling d m h = rw h (member_or-Mem fallback e members d m)
