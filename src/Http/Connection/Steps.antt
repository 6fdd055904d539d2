-- ===== src/Http/Connection/Steps.antt =====
-- One event of a connection (http_session in lib/src/geoff.cpp): the completion of an asynchronous
-- operation that is under way, and the handler that it calls.
use geoff.Prelude.{
  ℕ, zero, suc, ◌≡◌, Bool, true, false, List, [], ◌∷◌, ◌++◌, Option, none, some, if◌then◌else◌,
}
use geoff.Http.Text.{Text}
use geoff.Http.Handle.{Response, Opened, Beast, handle_request}
use geoff.Http.Failure.{ErrorCode}
use geoff.Http.Connection.{
  Connection, Kind, ReadResult, request, Protocol, on_handshake, on_shutdown, on_read, on_write,
  run,
}
use geoff.Http.Pipeline.{Action, accept, finish, idle}

-- A read finds the files as they are when it completes.
pub data Event : Type 0 where
  handshaken : Option ErrorCode → Event
  received : (Text → Opened) → ReadResult → Event
  written : Option ErrorCode → Event
  shut_down : Option ErrorCode → Event

-- One of the operations under way is so no more. `none`: there was none.
abbrev pub one_less : {A : Type 0} → (ℕ → A) → ℕ → Option A
one_less leave zero = none
one_less leave (suc n) = some (leave n)

abbrev pub first_less : {A : Type 0} → (List Response → A) → List Response → Option A
first_less leave [] = none
first_less leave (msg ∷ msgs) = some (leave msgs)

-- The operation that the event completes is under way no more.
unfoldable pub complete : Event → Connection → Option Connection
complete (handshaken ec) c = one_less (λ n. record c { handshakes = n }) c.handshakes
complete (received open_file result) c = one_less (λ n. record c { reads = n }) c.reads
complete (written ec) c =
    first_less (λ msgs. record c { queue = record c.queue { writing = msgs } }) c.queue.writing
complete (shut_down ec) c = one_less (λ n. record c { shutdowns = n }) c.shutdowns

-- The argument `close` that was bound to on_write when the write began.
abbrev pub closes : Protocol → List Response → Bool
closes protocol [] = false
closes protocol (msg ∷ msgs) = protocol.need_eof msg

-- What is seen from outside of the end of a write.
abbrev pub write_action : List Response → Option ErrorCode → Action
write_action (msg ∷ msgs) none = finish msg
write_action _ _ = idle

-- The events that make a web socket.
abbrev pub asks_upgrade : Protocol → Event → Bool
asks_upgrade protocol (received open_file (request req)) = protocol.is_upgrade req
asks_upgrade protocol _ = false

-- An event after which the connection takes no new request: an error, the end of the stream, an
-- upgrade to a web socket, or a response that closes the connection.
abbrev pub is_last : Protocol → List Response → Event → Bool
is_last protocol writing (handshaken none) = false
is_last protocol writing (received open_file (request req)) = protocol.is_upgrade req
is_last protocol writing (written none) = closes protocol writing
is_last protocol writing (shut_down ec) = false
is_last protocol writing _ = true

module _ (beast : Beast) (protocol : Protocol) (doc_root : Text) where
  -- The handler of an event; `writing` is what was being written before.
  unfoldable pub dispatch : List Response → Event → Connection → Option Connection
  dispatch writing (handshaken ec) c = some (on_handshake ec c)
  dispatch writing (received open_file result) c =
      on_read beast protocol doc_root open_file result c
  dispatch writing (written ec) c = on_write (closes protocol writing) ec c
  dispatch writing (shut_down ec) c = some (on_shutdown ec c)

  -- What is seen from outside of the end of a read, and of an event.
  abbrev pub read_action : (Text → Opened) → ReadResult → Action
  read_action open_file (request req) =
      if protocol.is_upgrade req then idle else accept (handle_request beast doc_root open_file req)
  read_action open_file _ = idle

  abbrev pub action : List Response → Event → Action
  action writing (received open_file result) = read_action open_file result
  action writing (written ec) = write_action writing ec
  action writing _ = idle

  -- A step of a connection is an event whose operation is under way, and its handler.
  pub record Step (c : Connection) (e : Event) (c' : Connection) : Type 0 where
    pub between : Connection
    pub completes : complete e c ≡ some between
    pub handles : dispatch c.queue.writing e between ≡ some c'

  pub data Run (kind : Kind) : List Action → Connection → Type 0 where
    start : Run kind [] (run kind)
    later :
        {acts : List Action} {c c' : Connection} (e : Event)
        → Run kind acts c
        → Step c e c'
        → Run kind (acts ++ (action c.queue.writing e ∷ [])) c'

  -- The connections that have gone on taking requests.
  pub data Serving (kind : Kind) : Connection → Type 0 where
    start : Serving kind (run kind)
    later :
        {c c' : Connection} (e : Event)
        → Serving kind c
        → Step c e c'
        → is_last protocol c.queue.writing e ≡ false
        → Serving kind c'
