-- ===== src/Http/Handle/Confined.antt =====
-- Which files a request can reach (lib/inc/handle_request.h).
use geoff.Prelude.{
  ◌≡◌, refl, true, false, [], ◌∷◌, ◌++◌, arith, ap, Bool-cases, inl, inr, append_assoc, subst,
}
use geoff.Http.Text.{Text, codes, ends_with, contains}
use geoff.Http.Path.{trimmed, path_cat-trimmed}
use geoff.Http.Handle.{
  Request, Opened, Beast, can_handle, is_illegal, file_path, respond, handle_request,
}

-- A text that ends in '/' and a text after it have no ".." together when neither has one.
contains-append :
    (s t : Text)
    → contains (codes "..") s ≡ false
    → ends_with b'/' s ≡ true
    → contains (codes "..") t ≡ false
    → contains (codes "..") (s ++ t) ≡ false
contains-append [] t h e ht = cc
contains-append (x ∷ []) t h e ht = ground arith
contains-append (x ∷ y ∷ s) t h e ht = ground (arith, contains-append (y ∷ s) t)

-- A path below the root of the documents: a separator stands after the root, and no ".." after that.
abbrev pub Below : Text → Text → Type 0
Below doc_root path =
    (rest : Text) × (path ≡ trimmed doc_root ++ (b'/' ∷ rest))
    × (contains (codes "..") (b'/' ∷ rest) ≡ false)

-- What a target that is not refused looks like.
pub legal_target :
    (target : Text)
    → is_illegal target ≡ false
    → (rest : Text) × (target ≡ b'/' ∷ rest) × (contains (codes "..") target ≡ false)
legal_target [] h = cc
legal_target (c ∷ rest) h =
    let e : c ≡ b'/' = ground arith in (rest, ap (λ c'. c' ∷ rest) e, ground arith)

file_path-Below :
    (doc_root target : Text)
    → is_illegal target ≡ false
    → Below doc_root (file_path doc_root target)
unfolding file_path
file_path-Below doc_root target h =
    let (rest, e, clean) = legal_target target h in
    let clean' : contains (codes "..") (b'/' ∷ rest) ≡ false =
      subst (λ t. contains (codes "..") t ≡ false) e clean in
    elim (Bool-cases (ends_with b'/' target)) [
      | inl slash ↦ (
        rest ++ codes "index.html",
        rw (slash, path_cat-trimmed doc_root target, e)
            (append_assoc (trimmed doc_root) (b'/' ∷ rest) (codes "index.html")),
        contains-append (b'/' ∷ rest) (codes "index.html") clean'
            (subst (λ t. ends_with b'/' t ≡ true) e slash) refl,
      )
      | inr plain ↦ (rest, rw (plain, path_cat-trimmed doc_root target, e) refl, clean')
    ]

module _ (beast : Beast) where
  -- A response depends on the files below the root of the documents and on no others: two file
  -- systems that agree on the paths that stand below the root, with no ".." behind it, give every
  -- request the same answer.
  pub handle_request-Below :
      (doc_root : Text) (open_file open_file' : Text → Opened) (req : Request)
      → ((path : Text) → Below doc_root path → open_file path ≡ open_file' path)
      → handle_request beast doc_root open_file req ≡ handle_request beast doc_root open_file' req
  unfolding handle_request
  handle_request-Below doc_root open_file open_file' req same =
      elim (Bool-cases (can_handle req.method)) [
        | inr h ↦ rw h refl
        | inl h ↦ elim (Bool-cases (is_illegal req.target)) [
          | inl bad ↦ rw (h, bad) refl
          | inr legal ↦
              rw (h, legal)
                (ap (respond beast req (file_path doc_root req.target)) (
                  same (file_path doc_root req.target) (file_path-Below doc_root req.target legal)))
        ]
      ]
