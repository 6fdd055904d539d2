-- ===== src/Http/Handle/Answers.antt =====
-- The responses of handle_request (lib/inc/handle_request.h), on every branch.
use geoff.Prelude.{
  ℕ, ◌≡◌, ◌≢◌, refl, ◌⊎◌, inl, inr, true, List, [], ◌∷◌, ◌++◌, Bool-cases, some, length,
}
use geoff.Http.Text.{Text, codes}
use geoff.Http.Handle.Served.{IsServed, Passes, IsServed-Passes, Passes-IsServed}
use geoff.Http.Handle.{
  Verb, body_for, get, head, other_verb, Request, Status, Body, string_body, empty_body, file_body,
  Response, Opened, opened, no_such_file, open_error, Beast, bad_request_status, not_found_status,
  internal_server_error, can_handle, is_illegal, file_path, html, bad_request, not_found,
  server_error, serve, respond, handle_request,
}

-- The status that the file system calls for.
abbrev pub status_of : Opened → Status
status_of (opened file) = Status.ok
status_of no_such_file = not_found_status
status_of (open_error message) = internal_server_error

-- The bytes of a body.
abbrev pub body_bytes : Body → List ℕ
body_bytes (string_body s) = s
body_bytes empty_body = []
body_bytes (file_body file) = file

-- What a HEAD is answered, against what a GET is.
abbrev pub Heads : Response → Response → Type 0
Heads on_get on_head =
    ((on_get.status ≡ Status.ok) × (on_head ≡ record on_get { body = empty_body }))
    ⊎ ((on_get.status ≢ Status.ok) × (on_head ≡ on_get))

module _ (beast : Beast) where
  -- The response to an error, whose body is not empty.
  abbrev page : Status → Text → Request → Response
  page status s req = record {
    status = status;
    version = req.version;
    server = beast.version_string;
    content_type = "text/html";
    keep_alive = req.keep_alive;
    content_length = some (length s);
    body = string_body s;
  }

  html-page :
      (status : Status) (c : ℕ) (s : Text) (req : Request)
      → html beast status (c ∷ s) req ≡ page status (c ∷ s) req
  unfolding html
  html-page status c s req = beast.prepare_payload_text _ c s refl

  -- The texts of the errors.
  bad_request-page :
      (req : Request) (c : ℕ) (s : Text)
      → bad_request beast req (c ∷ s) ≡ page bad_request_status (c ∷ s) req
  unfolding bad_request
  bad_request-page req c s = html-page bad_request_status c s req

  -- What the answer to a request that passes is, by what the file system says.
  abbrev answer : Request → Text → Opened → Response
  answer req path (opened file) = serve beast req path file
  answer req path no_such_file =
      page not_found_status (codes "The resource '" ++ (req.target ++ codes "' was not found.")) req
  answer req path (open_error message) =
      page internal_server_error (codes "An error occurred: '" ++ (message ++ codes "'")) req

  respond-answer :
      (req : Request) (path : Text) (o : Opened) → respond beast req path o ≡ answer req path o
  unfolding respond not_found server_error
  respond-answer req path (opened file) = refl
  respond-answer req path no_such_file = html-page not_found_status _ _ req
  respond-answer req path (open_error message) = html-page internal_server_error _ _ req

  answer-status :
      (req : Request) (path : Text) (o : Opened) → (answer req path o).status ≡ status_of o
  unfolding serve
  answer-status req path (opened file) = refl
  answer-status req path no_such_file = refl
  answer-status req path (open_error message) = refl

  answer-content_length :
      (req : Request) (path : Text) (o : Opened)
      → req.method ≢ head
      → (answer req path o).content_length ≡ some (length (body_bytes (answer req path o).body))
  unfolding serve
  answer-content_length req path (opened file) h = body_lem req.method h
    where
      body_lem :
          (v : Verb) → v ≢ head → some (length file) ≡ some (length (body_bytes (body_for v file)))
      body_lem get h = refl
      body_lem head h = absurd (h refl)
      body_lem (other_verb name) h = refl
  answer-content_length req path no_such_file h = refl
  answer-content_length req path (open_error message) h = refl

  abbrev Echoes : Request → Response → Type 0
  Echoes req res =
      (res.version ≡ req.version)
      × (res.keep_alive ≡ req.keep_alive)
      × (res.server ≡ beast.version_string)

  answer-Echoes : (req : Request) (path : Text) (o : Opened) → Echoes req (answer req path o)
  unfolding serve
  answer-Echoes req path (opened file) = (refl, refl, refl)
  answer-Echoes req path no_such_file = (refl, refl, refl)
  answer-Echoes req path (open_error message) = (refl, refl, refl)

  answer-head :
      (req : Request) (path : Text) (o : Opened)
      → Heads
          (answer (record req { method = get }) path o)
          (answer (record req { method = head }) path o)
  unfolding serve
  answer-head req path (opened file) = inl (refl, refl)
  answer-head req path no_such_file = inr (λ e. cc, refl)
  answer-head req path (open_error message) = inr (λ e. cc, refl)

  module _ (doc_root : Text) (open_file : Text → Opened) where
    abbrev handle : Request → Response
    handle = handle_request beast doc_root open_file

    handle-Passes :
        (req : Request)
        → Passes req
        → let path = file_path doc_root req.target in handle req ≡ answer req path (open_file path)
    unfolding handle_request
    handle-Passes req (h, legal) =
        rw (h, legal)
          (respond-answer req (file_path doc_root req.target)
            (open_file (file_path doc_root req.target)))

    handle_illegal :
        (req : Request)
        → can_handle req.method ≡ true
        → is_illegal req.target ≡ true
        → handle req ≡ page bad_request_status (codes "Illegal request-target") req
    unfolding handle_request
    handle_illegal req h bad = rw (h, bad) (bad_request-page req _ _)

    -- What a request is answered that is refused.
    handle-page :
        (req : Request)
        → Passes req
          ⊎ ((why : Text) × (handle req ≡ page bad_request_status why req) × (Passes req → ⊥))
    unfolding handle_request
    handle-page req = elim (Bool-cases (can_handle req.method)) [
      | inr h ↦
          inr (
            codes "Unknown HTTP-method",
            rw h (bad_request-page req _ _),
            λ p. let same = p.0 in cc,
          )
      | inl h ↦ elim (Bool-cases (is_illegal req.target)) [
        | inl bad ↦
            inr
              (codes "Illegal request-target", handle_illegal req h bad, λ p. let same = p.1 in cc)
        | inr legal ↦ inl (h, legal)
      ]
    ]

    -- A request is served exactly when it is a GET or a HEAD of an absolute target without "..",
    -- and then the status is the one that opening the file calls for; every other request is a
    -- bad request.
    pub handle_request-status :
        (req : Request)
        → (IsServed req
            → (handle req).status ≡ status_of (open_file (file_path doc_root req.target)))
          × ((IsServed req → ⊥) → (handle req).status ≡ bad_request_status)
    handle_request-status req = elim (handle-page req) [
      | inl p ↦ (
        λ served. rw (handle-Passes req p) (answer-status req _ _),
        λ refused. absurd (refused (Passes-IsServed req p)),
      )
      | inr (why, e, refused) ↦
          (λ served. absurd (refused (IsServed-Passes req served)), λ refused'. rw e refl)
    ]

    -- The Content-Length of a response to any request but a HEAD is the length of its body.
    pub handle_request-content_length :
        (req : Request)
        → req.method ≢ head
        → (handle req).content_length ≡ some (length (body_bytes (handle req).body))
    handle_request-content_length req h = elim (handle-page req) [
      | inl p ↦
          rw (handle-Passes req p) (answer-content_length req (file_path doc_root req.target) _ h)
      | inr (why, e, refused) ↦ rw e refl
    ]

    -- Every response has the version of its request, keeps the connection alive when the request
    -- does, and names the server.
    pub handle_request-echo :
        (req : Request)
        → ((handle req).version ≡ req.version)
          × ((handle req).keep_alive ≡ req.keep_alive)
          × ((handle req).server ≡ beast.version_string)
    handle_request-echo req = elim (handle-page req) [
      | inl p ↦ rw (handle-Passes req p) (answer-Echoes req (file_path doc_root req.target) _)
      | inr (why, e, refused) ↦ rw e (refl, refl, refl)
    ]

    -- To a HEAD the server answers as to a GET of the same target, without the body when the file
    -- is there, and with the body of the error when it is not.
    pub handle_request-head :
        (req : Request)
        → let on_get = handle (record req { method = get }) in
          let on_head = handle (record req { method = head }) in Heads on_get on_head
    handle_request-head req = elim (Bool-cases (is_illegal req.target)) [
      | inr legal ↦ rw (handle-Passes (record req { method = get }) (refl, legal)) (
          rw (handle-Passes (record req { method = head }) (refl, legal)) (
            answer-head req (file_path doc_root req.target)
              (open_file (file_path doc_root req.target))))
      | inl bad ↦
          rw (handle_illegal (record req { method = get }) refl bad)
            (rw (handle_illegal (record req { method = head }) refl bad) (inr (λ e. cc, refl)))
    ]
