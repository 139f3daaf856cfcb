-- ===== src/Documents/Paths.antt =====
-- app/documents/storage.py: a key is a path of four plain segments.
use tenderbase_api.Prelude.{
  ltb, Bool-cases, le_of_not_ltb, length, take, keep, Result, ok, err, ◌≡◌, refl, subst, inl, inr,
  false, Option, [], ◌∷◌, ◌++◌, arith,
}
use tenderbase_api.Prelude.Text.{Text, Unicode, split_on}
use tenderbase_api.Documents.Storage.{
  DocumentError, build_storage_key, clean, drop2, invalid_digest, is_hex, is_name_char, joined,
  or_misc, suffix,
}
use tenderbase_api.Documents.Segments.{
  HasNoSlash-suffix, IsSegment, IsSegment-all, IsSegment-append, IsSegment-or_misc, IsSegment-take,
  all-drop2, all-keep, split_on-four,
}

-- A key that is built splits at its slashes into the name of its space, the first two pairs of the
-- digest's hexadecimal digits, and all of these digits with the extension, each of them not empty, not
-- beginning with a dot and without a slash: no key leads out of the root, whatever the name, the digest
-- and the extension are, as long as neither `.` nor `/` is alphanumeric.
pub build_storage_key-IsSegment :
    (u : Unicode) (space digest : Text) (extension : Option Text) (key : Text)
    → u.is_alnum 46 ≡ false
    → u.is_alnum 47 ≡ false
    → build_storage_key u space digest extension ≡ ok key
    → let name = or_misc (keep (is_name_char u) space) in
      let hex = keep is_hex (u.lower digest) in
      let last = hex ++ suffix u extension in
      (split_on 47 key ≡ name ∷ take 2 hex ∷ take 2 (drop2 hex) ∷ last ∷ [])
      × IsSegment name
      × IsSegment (take 2 hex)
      × IsSegment (take 2 (drop2 hex))
      × IsSegment last
unfolding build_storage_key
build_storage_key-IsSegment u space digest extension key dot slash e =
    elim (Bool-cases (ltb (length (clean u digest)) 8)) [
      | inl y ↦ absurd (err_not_ok invalid_digest key (rw y at e))
      | inr y ↦
          let hex = clean u digest in
          let long = le_of_not_ltb (length hex) 8 y in
          let hexes = all-keep is_hex (u.lower digest) in
          let (pair, one) = all-drop2 is_hex hex hexes (omega (arith, long)) in
          let name = or_misc (keep (is_name_char u) space) in
          let a = IsSegment-or_misc (is_name_char u) space (rw dot refl) (rw slash refl) in
          let d = IsSegment-all is_hex hex refl refl hexes (omega (arith, long)) in
          let b = IsSegment-take 1 hex d in
          let c =
            IsSegment-take 1 (drop2 hex) (IsSegment-all is_hex (drop2 hex) refl refl pair one) in
          let last =
            IsSegment-append hex (suffix u extension) d (HasNoSlash-suffix u extension slash) in
          (
            subst
                (λ z.
                  split_on 47 z
                  ≡ name ∷ take 2 hex ∷ take 2 (drop2 hex) ∷ (hex ++ suffix u extension) ∷ [])
                (ok_injective (joined name hex (suffix u extension)) key (rw y at e))
                (split_on-four name (take 2 hex) (take 2 (drop2 hex)) (hex ++ suffix u extension)
                  a.1 b.1 c.1 last.1),
            a,
            b,
            c,
            last,
          )
    ]
  where
    ok_injective : (a b : Text) → Path (Result DocumentError Text) (ok a) (ok b) → a ≡ b
    ok_injective a b e = ground (arith, e)

    err_not_ok :
        (x : DocumentError) (y : Text) → Path (Result DocumentError Text) (err x) (ok y) → ⊥
    err_not_ok x y e = absurd (ground (arith, e))
