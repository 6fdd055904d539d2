-- ===== src/Http/Mime/Suffix.antt =====
-- What the type of a file depends on (mime_type of lib/src/ServerUtils.cpp).
use geoff.Prelude.{ℕ, ◌≡◌, refl, false, [], ◌∷◌, ◌++◌, map, arith}
use geoff.Http.Text.{Text, codes, contains, rfind-none, substr-rfind}
use geoff.Http.Mime.{Iequals, to_lower, ext, mime_of, mime_type}

ext_none : (path : Text) → contains (codes ".") path ≡ false → ext path ≡ []
unfolding ext
ext_none path h = rw (ext, rfind-none b'.' path h) refl

ext-append : (s t : Text) → contains (codes ".") t ≡ false → ext (s ++ (b'.' ∷ t)) ≡ b'.' ∷ t
unfolding ext
ext-append s t h = let (i, found, rest) = substr-rfind b'.' s t h in rw (found, ext) rest

module _ (beast : Iequals) where
  open beast use {iequals, iequals_iff}

  iequals-same : (a b c : Text) → map to_lower a ≡ map to_lower b → iequals a c ≡ iequals b c
  iequals-same a b c h = ground (arith, iequals_iff a c, iequals_iff b c)

  mime_of-same : (a b : Text) → map to_lower a ≡ map to_lower b → mime_of beast a ≡ mime_of beast b
  unfolding mime_of
  mime_of-same a b h =
      let same : (c : Text) → iequals a c ≡ iequals b c = λ c. iequals-same a b c h in simp same

  -- The type of a file is decided by what follows the last dot of its path, in capitals or not.
  pub mime_type-append :
      (s s' t t' : Text)
      → contains (codes ".") t ≡ false
      → contains (codes ".") t' ≡ false
      → map to_lower t ≡ map to_lower t'
      → mime_type beast (s ++ (b'.' ∷ t)) ≡ mime_type beast (s' ++ (b'.' ∷ t'))
  unfolding mime_type
  mime_type-append s s' t t' h h' e =
      rw (mime_type, ext-append s t h, ext-append s' t' h')
        (mime_of-same (b'.' ∷ t) (b'.' ∷ t') (cc e))

  iequals_empty : (c : ℕ) (s : Text) → iequals [] (c ∷ s) ≡ false
  iequals_empty c s = ground (arith, iequals_iff [] (c ∷ s))

  -- A path without a dot is "application/text".
  pub mime_type_plain :
      (path : Text) → contains (codes ".") path ≡ false → mime_type beast path ≡ "application/text"
  unfolding mime_type mime_of
  mime_type_plain path h = rw (ext_none path h) (simp iequals_empty)
