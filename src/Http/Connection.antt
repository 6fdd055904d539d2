-- ===== src/Http/Connection.antt =====
-- One connection (http_session, plain_http_session and ssl_http_session in lib/src/geoff.cpp): the
-- completion handlers of its asynchronous operations, and the operations that are under way.
pub mod Steps
pub mod Invariant
pub mod Reading
pub mod Writing
pub mod Completes
pub mod Refines
pub mod Quiet
pub mod Released
use geoff.Prelude.{
  ℕ, suc, Bool, true, false, not, List, [], Option, none, some, if◌then◌else◌, ◌>>=◌,
}
use geoff.Http.Text.{Text, codes}
use geoff.Http.Handle.{Request, Response, Opened, Beast, handle_request}
use geoff.Http.Failure.{ErrorCode, fail}
use geoff.Http.Queue
use geoff.Http.Queue.{Queue, empty_queue, is_full, push}

pub data Kind : Type 0 where
  plain ssl : Kind

-- `handshakes`, `reads`, `shutdowns` and `queue.writing` are the asynchronous operations under way.
-- `sent_eof` is the TCP shutdown of a plain connection, `released` that its stream has been moved
-- to a web socket session.
pub record Connection : Type 0 where
  pub kind : Kind
  pub queue : Queue
  pub handshakes : ℕ
  pub reads : ℕ
  pub shutdowns : ℕ
  pub sent_eof : Bool
  pub released : Bool
  pub log : List Text

-- What a read completes with.
pub data ReadResult : Type 0 where
  end_of_stream : ReadResult
  read_error : ErrorCode → ReadResult
  request : Request → ReadResult

-- What the code asks of Boost.Beast: whether a request asks for a web socket, and whether the end
-- of a response is marked by the end of the connection. Both can be any function.
pub record Protocol : Type 0 where
  pub is_upgrade : Request → Bool
  pub need_eof : Response → Bool

unfoldable pub do_read : Connection → Connection
do_read c = record c { reads = suc c.reads }

-- The two of do_eof: a TCP shutdown at once, and a TLS shutdown that begins.
abbrev do_eof_plain : Connection → Connection
do_eof_plain c = record c { sent_eof = true }

abbrev do_eof_ssl : Connection → Connection
do_eof_ssl c = record c { shutdowns = suc c.shutdowns }

unfoldable pub do_eof : Connection → Connection
do_eof c = elim c.kind [ plain ↦ do_eof_plain c | ssl ↦ do_eof_ssl c ]

-- The stream is moved out of the session.
abbrev pub release_stream : Connection → Connection
release_stream c = record c { released = true }

unfoldable pub create : Kind → Connection
create kind = record {
  kind = kind;
  queue = empty_queue;
  handshakes = 0;
  reads = 0;
  shutdowns = 0;
  sent_eof = false;
  released = false;
  log = [];
}

-- The two of run: a plain connection reads, and one with TLS begins a handshake.
abbrev run_plain : Connection → Connection
run_plain c = do_read c

abbrev run_ssl : Connection → Connection
run_ssl c = record c { handshakes = suc c.handshakes }

unfoldable pub run : Kind → Connection
unfolding create do_read
run plain = run_plain (create plain)
run ssl = run_ssl (create ssl)

abbrev failed : ErrorCode → Text → Connection → Connection
failed ec what c = record c { log = fail ec what c.log }

unfoldable pub on_handshake : Option ErrorCode → Connection → Connection
unfolding do_read
on_handshake (some ec) c = failed ec (codes "handshake") c
on_handshake none c = do_read c

unfoldable pub on_shutdown : Option ErrorCode → Connection → Connection
on_shutdown (some ec) c = failed ec (codes "shutdown") c
on_shutdown none c = c

-- The end of on_write, where the queue is told.
unfoldable pub write_next : Connection → Option Connection
unfolding do_read
write_next c = do
  (was_full, queue) ← Queue.on_write c.queue
  let c' : Connection = record c { queue = queue }
  some (if was_full then do_read c' else c')

unfoldable pub on_write : Bool → Option ErrorCode → Connection → Option Connection
unfolding do_eof write_next
on_write close (some ec) c = some (failed ec (codes "write") c)
on_write close none c = if close then some (do_eof c) else write_next c

module _ (beast : Beast) (protocol : Protocol) (doc_root : Text) where
  -- The end of on_read, for a request that is not an upgrade.
  unfoldable pub answer : (Text → Opened) → Request → Connection → Option Connection
  unfolding is_full do_read
  answer open_file req c = do
    queue ← push (handle_request beast doc_root open_file req) c.queue
    let c' : Connection = record c { queue = queue }
    some (if not (is_full queue) then do_read c' else c')

  unfoldable pub on_read : (Text → Opened) → ReadResult → Connection → Option Connection
  unfolding do_eof answer
  on_read open_file end_of_stream c = some (do_eof c)
  on_read open_file (read_error ec) c = some (failed ec (codes "read") c)
  on_read open_file (request req) c =
      if protocol.is_upgrade req then some (release_stream c) else answer open_file req c
