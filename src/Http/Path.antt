-- ===== src/Http/Path.antt =====
-- path_cat of lib/src/ServerUtils.cpp, as it is compiled where the separator is '/'.
use geoff.Prelude.{◌≡◌, refl, false, [], ◌∷◌, ◌++◌, if◌then◌else◌}
use geoff.Http.Text.{Text, ends_with, drop_last, ends_with-append, drop_last-append}

-- The result once its own separator is taken off.
unfoldable pub trimmed : Text → Text
trimmed base = if ends_with b'/' base then drop_last base else base

unfoldable pub path_cat : Text → Text → Text
unfolding trimmed
path_cat [] path = path
path_cat (c ∷ base) path = trimmed (c ∷ base) ++ path

pub path_cat-trimmed : (base path : Text) → path_cat base path ≡ trimmed base ++ path
unfolding path_cat trimmed
path_cat-trimmed [] path = refl
path_cat-trimmed (c ∷ base) path = refl

trimmed-slash : (base : Text) → trimmed (base ++ (b'/' ∷ [])) ≡ base
unfolding trimmed
trimmed-slash base = rw (ends_with-append b'/' b'/' base [], drop_last-append b'/' base) refl

-- A directory that does not end in a separator names the same files with one and without one, and
-- one separator stands between the directory and the rest of the path.
pub path_cat-slash :
    (base path : Text)
    → ends_with b'/' base ≡ false
    → (path_cat base (b'/' ∷ path) ≡ base ++ (b'/' ∷ path))
      × (path_cat (base ++ (b'/' ∷ [])) (b'/' ∷ path) ≡ base ++ (b'/' ∷ path))
unfolding trimmed
path_cat-slash base path h = (
  rw (path_cat-trimmed base (b'/' ∷ path), trimmed, h) refl,
  rw (path_cat-trimmed (base ++ (b'/' ∷ [])) (b'/' ∷ path), trimmed-slash base) refl,
)
