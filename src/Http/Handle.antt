-- ===== src/Http/Handle.antt =====
-- handle_request of lib/inc/handle_request.h: the answer of the server to an HTTP request.
pub mod Confined
pub mod Served
pub mod Answers
use Prim.Native.String.{String}
use geoff.Prelude.{
  ℕ, ◌≡◌, Bool, true, false, not, ◌||◌, List, [], ◌∷◌, ◌++◌, Option, none, some, ◌==◌,
  if◌then◌else◌, length,
}
use geoff.Http.Text.{Text, codes, ends_with, contains}
use geoff.Http.Path.{path_cat}
use geoff.Http.Mime.{Iequals, mime_type}

-- http::verb, where only two verbs are told apart.
pub data Verb : Type 0 where
  get head : Verb
  other_verb : String → Verb

pub record Request : Type 0 where
  pub method : Verb
  pub version : ℕ
  pub target : Text
  pub keep_alive : Bool

pub data Status : Type 0 where
  ok bad_request_status not_found_status internal_server_error : Status

-- http::string_body, http::empty_body and http::file_body: a file is its bytes.
pub data Body : Type 0 where
  string_body : Text → Body
  empty_body : Body
  file_body : List ℕ → Body

pub record Response : Type 0 where
  pub status : Status
  pub version : ℕ
  pub server : String
  pub content_type : String
  pub keep_alive : Bool
  pub content_length : Option ℕ
  pub body : Body

-- What body.open leaves: the file, or an error code and its message.
pub data Opened : Type 0 where
  opened : List ℕ → Opened
  no_such_file : Opened
  open_error : Text → Opened

-- What the code takes from Boost.Beast. prepare_payload is documented to set the length of a body
-- that is not empty, and to leave the rest of the message.
pub record Beast : Type 0 where
  pub strings : Iequals
  pub version_string : String
  pub prepare_payload : Response → Response
  pub prepare_payload_text :
      (res : Response) (c : ℕ) (s : Text)
      → res.body ≡ string_body (c ∷ s)
      → prepare_payload res ≡ record res { content_length = some (length (c ∷ s)) }

-- The method can be handled.
abbrev pub can_handle : Verb → Bool
can_handle get = true
can_handle head = true
can_handle (other_verb name) = false

-- The target is empty, or it is not absolute, or it contains "..".
abbrev pub is_illegal : Text → Bool
is_illegal [] = true
is_illegal (c ∷ target) = not (c == b'/') || contains (codes "..") (c ∷ target)

-- The path to the requested file.
unfoldable pub file_path : Text → Text → Text
file_path doc_root target =
    if ends_with b'/' target
    then path_cat doc_root target ++ codes "index.html"
    else path_cat doc_root target

-- The body of the response to a HEAD request, and to a GET request.
abbrev pub body_for : Verb → List ℕ → Body
body_for head file = empty_body
body_for _ file = file_body file

module _ (beast : Beast) where
  -- What the three responses to an error have in common.
  unfoldable pub html : Status → Text → Request → Response
  html status body req = beast.prepare_payload (record {
    status = status;
    version = req.version;
    server = beast.version_string;
    content_type = "text/html";
    keep_alive = req.keep_alive;
    content_length = none;
    body = string_body body;
  })

  unfoldable pub bad_request : Request → Text → Response
  bad_request req why = html bad_request_status why req

  unfoldable pub not_found : Request → Text → Response
  not_found req target =
      html not_found_status (codes "The resource '" ++ (target ++ codes "' was not found.")) req

  unfoldable pub server_error : Request → Text → Response
  server_error req what =
      html internal_server_error (codes "An error occurred: '" ++ (what ++ codes "'")) req

  -- The response for a file that was opened.
  unfoldable pub serve : Request → Text → List ℕ → Response
  serve req path file = record {
    status = ok;
    version = req.version;
    server = beast.version_string;
    content_type = mime_type beast.strings path;
    keep_alive = req.keep_alive;
    content_length = some (length file);
    body = body_for req.method file;
  }

  unfoldable pub respond : Request → Text → Opened → Response
  respond req path no_such_file = not_found req req.target
  respond req path (open_error message) = server_error req message
  respond req path (opened file) = serve req path file

  -- `open` is body.open in the mode scan. The response is what is passed to `send`, once.
  unfoldable pub handle_request : Text → (Text → Opened) → Request → Response
  handle_request doc_root open_file req =
      if not (can_handle req.method)
      then bad_request req (codes "Unknown HTTP-method")
      else if is_illegal req.target
      then bad_request req (codes "Illegal request-target")
      else let path = file_path doc_root req.target in respond req path (open_file path)
