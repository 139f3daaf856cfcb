-- ===== src/Documents/Storage.antt =====
-- app/documents/storage.py: the key of a blob, from its digest.
use tenderbase_api.Prelude.{
  ltb, leb, ◌==◌, if◌then◌else◌, length, take, keep, Result, ok, err, ℕ, Bool, ◌&&◌, ◌||◌, Option,
  none, some, [], ◌∷◌, ◌++◌,
}
use tenderbase_api.Prelude.Text.{Text, Unicode, codes}

pub data DocumentError : Type 0 where
  invalid_digest empty_document unsupported_type : DocumentError
  fetch_failed : Text → DocumentError

abbrev pub is_hex : ℕ → Bool
is_hex c = leb 48 c && leb c 57 || leb 97 c && leb c 102

-- `ch.isalnum() or ch in "-_"`
abbrev pub is_name_char : Unicode → ℕ → Bool
is_name_char u c = u.is_alnum c || c == 45 || c == 95

abbrev pub or_misc : Text → Text
or_misc [] = codes "misc"
or_misc (c ∷ s) = c ∷ s

abbrev pub dotted : Text → Text
dotted [] = []
dotted (c ∷ s) = 46 ∷ c ∷ s

abbrev pub suffix : Unicode → Option Text → Text
suffix u none = []
suffix u (some extension) = dotted (take 8 (keep u.is_alnum (u.lower extension)))

-- `s[2:]`
abbrev pub drop2 : Text → Text
drop2 (a ∷ b ∷ s) = s
drop2 _ = []

-- `f"{safe_namespace}/{clean_digest[:2]}/{clean_digest[2:4]}/{clean_digest}{suffix}"`
abbrev pub joined : Text → Text → Text → Text
joined space digest ext =
    space ++ (47 ∷ (take 2 digest ++ (47 ∷ (take 2 (drop2 digest) ++ (47 ∷ (digest ++ ext))))))

abbrev pub clean : Unicode → Text → Text
clean u digest = keep is_hex (u.lower digest)

-- `build_storage_key`
unfoldable pub build_storage_key : Unicode → Text → Text → Option Text → Result DocumentError Text
build_storage_key u space digest extension =
    if ltb (length (clean u digest)) 8
    then err invalid_digest
    else ok (joined (or_misc (keep (is_name_char u) space)) (clean u digest) (suffix u extension))
