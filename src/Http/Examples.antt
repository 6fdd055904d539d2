-- ===== src/Http/Examples.antt =====
-- Requests, files and connections, on which the theorems about the HTTP server are applied.
use geoff.Prelude.{◌≡◌, refl, true}
use geoff.Http.Text.{codes}
use geoff.Http.Path.{path_cat, path_cat-slash}
use geoff.Http.Text.{rfind, substr}
use geoff.Http.Path.{trimmed}
use geoff.Http.Samples.{strings, beast, disk, other_disk, front_page, escape, missing, eq_text}
use geoff.Http.Mime.{mime_type, mime_of, ext}
use geoff.Http.Handle.{get, head, handle_request, file_path, bad_request_status}
use geoff.Http.Handle.Confined.{handle_request-Below}
use geoff.Http.Handle.Served.{IsServed}
use geoff.Http.Handle.Answers.{
  Heads, status_of, handle_request-status, handle_request-echo, handle_request-head,
}

path_cat-slash_example :
    (path_cat (codes "www") (codes "/a.js") ≡ codes "www/a.js")
    × (path_cat (codes "www/") (codes "/a.js") ≡ codes "www/a.js")
path_cat-slash_example = path_cat-slash (codes "www") (codes "a.js") refl

js_type : mime_type strings (codes "a/b.JS") ≡ "application/javascript"
unfolding mime_type mime_of ext eq_text rfind substr
js_type = refl

handle_request-Below_example :
    handle_request beast (codes "www") disk front_page
    ≡ handle_request beast (codes "www") other_disk front_page
unfolding trimmed
handle_request-Below_example =
    handle_request-Below beast (codes "www") disk other_disk front_page (λ path b. rw b.1 refl)

-- A target with ".." is a bad request, whatever the disk holds.
handle_request-status_example :
    (IsServed escape
      → (handle_request beast (codes "www") disk escape).status
        ≡ status_of (disk (file_path (codes "www") escape.target)))
    × ((IsServed escape → ⊥)
        → (handle_request beast (codes "www") disk escape).status ≡ bad_request_status)
handle_request-status_example = handle_request-status beast (codes "www") disk escape

escape_refused : (handle_request beast (codes "www") disk escape).status ≡ bad_request_status
escape_refused = handle_request-status_example.1 (λ (method, (rest, e), clean). cc)

handle_request-echo_example :
    ((handle_request beast (codes "www") disk front_page).version ≡ 11)
    × ((handle_request beast (codes "www") disk front_page).keep_alive ≡ true)
    × ((handle_request beast (codes "www") disk front_page).server ≡ "Boost.Beast/300")
handle_request-echo_example = handle_request-echo beast (codes "www") disk front_page

handle_request-head_example :
    Heads
      (handle_request beast (codes "www") missing (record front_page { method = get }))
      (handle_request beast (codes "www") missing (record front_page { method = head }))
handle_request-head_example = handle_request-head beast (codes "www") missing front_page
