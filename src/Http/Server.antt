-- ===== src/Http/Server.antt =====
-- The server around its connections (SSLContext in lib/src/SSLContext.cpp, listener, detect_session
-- and Geoff in lib/src/geoff.cpp, main in apps/asteroids/src/Main.cpp).
pub mod Runs
pub mod Start
use geoff.Prelude.{
  ℕ, suc, ◌≡◌, Bool, true, false, List, [], ◌∷◌, ◌++◌, Option, none, some, ltb, ◌==◌, if◌then◌else◌,
}
use geoff.Prelude.Int.{ℤ, pos, negsuc}
use geoff.Http.Text.{Text, codes}
use geoff.Http.Handle.{Beast}
use geoff.Http.Failure.{ErrorCode, fail}
use geoff.Http.Connection.{Connection, Protocol, plain, ssl, run}
use geoff.Http.Connection.Steps

-- One call that may set `ec`: on an error it is reported, and what follows is skipped.
abbrev pub attempt :
    Option ErrorCode
    → Text
    → List Text
    → Option ErrorCode × List Text
    → Option ErrorCode × List Text
attempt (some ec) what log rest = (some ec, fail ec what log)
attempt none what log rest = rest

-- What the calls of OpenSSL and of the socket's acceptor say.
pub record Certificates : Type 0 where
  pub use_certificate_chain_file : Option ErrorCode
  pub use_private_key_file : Option ErrorCode
  pub use_tmp_dh_file : Option ErrorCode

pub record Acceptor : Type 0 where
  pub open_acceptor : Option ErrorCode
  pub set_option : Option ErrorCode
  pub bind : Option ErrorCode
  pub listen : Option ErrorCode

-- The constructor of SSLContext: the error that it leaves in `ec`, and the log.
unfoldable pub ssl_context : Certificates → List Text → Option ErrorCode × List Text
ssl_context c log = attempt c.use_certificate_chain_file (codes "use_certificate_chain_file") log (
    attempt c.use_private_key_file (codes "use_private_key_file") log
      (attempt c.use_tmp_dh_file (codes "use_tmp_dh_file") log (none, log)))

-- The constructor of listener, which drops its `ec`.
unfoldable pub listener_log : Acceptor → List Text → List Text
listener_log a log =
    (attempt a.open_acceptor (codes "open") log (
      attempt a.set_option (codes "set_option") log
        (attempt a.bind (codes "bind") log (attempt a.listen (codes "listen") log (none, log))))).1

-- `accepting` and `detecting` are the async_accept and async_detect_ssl under way.
pub record Server : Type 0 where
  pub accepting : ℕ
  pub detecting : ℕ
  pub connections : List Connection
  pub log : List Text

unfoldable pub do_accept : Server → Server
do_accept s = record s { accepting = suc s.accepting }

-- listener: the constructor, and run().
unfoldable pub listen_on : Acceptor → List Text → Server
unfolding do_accept
listen_on a log =
    do_accept (record { accepting = 0; detecting = 0; connections = []; log = listener_log a log })

-- detect_session::on_run, which begins to detect TLS.
abbrev on_run : Server → Server
on_run s = record s { detecting = suc s.detecting }

-- detect_session: the constructor, and run(), which dispatches on_run.
abbrev detect : Server → Server
detect s = on_run s

-- listener::on_accept
unfoldable pub on_accept : Option ErrorCode → Server → Server
unfolding do_accept
on_accept (some ec) s = do_accept (record s { log = fail ec (codes "accept") s.log })
on_accept none s = do_accept (detect s)

-- detect_session::on_detect
unfoldable pub on_detect : Option ErrorCode → Bool → Server → Server
on_detect (some ec) result s = record s { log = fail ec (codes "detect") s.log }
on_detect none true s = record s { connections = s.connections ++ (run ssl ∷ []) }
on_detect none false s = record s { connections = s.connections ++ (run plain ∷ []) }

-- What the running server can do next.
pub data Step (beast : Beast) (protocol : Protocol) (doc_root : Text) (s : Server)
    : Server → Type 0 where
  accepted :
      (n : ℕ) (ec : Option ErrorCode)
      → s.accepting ≡ suc n
      → Step beast protocol doc_root s (on_accept ec (record s { accepting = n }))
  detected :
      (n : ℕ) (ec : Option ErrorCode) (result : Bool)
      → s.detecting ≡ suc n
      → Step beast protocol doc_root s (on_detect ec result (record s { detecting = n }))
  served :
      (before after : List Connection) (c c' : Connection) (e : Steps.Event)
      → s.connections ≡ before ++ (c ∷ after)
      → Steps.Step beast protocol doc_root c e c'
      → Step beast protocol doc_root s (record s { connections = before ++ (c' ∷ after) })

-- std::max<int>(1, n) for the number of threads.
unfoldable pub threads_of : ℤ → ℕ
threads_of (pos n) = if ltb 1 n then n else 1
threads_of (negsuc n) = 1

-- What Geoff comes to: it throws an exception, it returns -1, or it runs the server on some threads and
-- returns EXIT_SUCCESS.
pub data Started : Type 0 where
  threw : Started
  gave_up : List Text → Started
  running : ℕ → Server → Started

unfoldable pub with_context : Option ErrorCode × List Text → Acceptor → ℤ → Started
with_context (some ec, log) a thrds = gave_up (fail ec (codes "SSLContext") log)
with_context (none, log) a thrds = running (threads_of thrds) (listen_on a log)

-- `make_address` says whether Boost.Asio's make_address reads the text, and throws otherwise; `thrds` is
-- what atoi reads.
unfoldable pub geoff_main : (Text → Bool) → Text → Certificates → Acceptor → ℤ → Started
geoff_main make_address addr c a thrds =
    if make_address addr then with_context (ssl_context c []) a thrds else threw

-- What Geoff returns, if it does.
abbrev pub exit_code : Started → Option ℤ
exit_code threw = none
exit_code (gave_up log) = some (negsuc 0)
exit_code (running threads s) = some (pos 0)

-- main: the exit status, and what Geoff came to if it was called, whose result is not used and whose
-- exceptions are caught.
unfoldable pub main : (Text → Bool) → ℕ → Text → Certificates → Acceptor → ℤ → ℕ × Option Started
main make_address argc addr c a thrds =
    if argc == 5 then (0, some (geoff_main make_address addr c a thrds)) else (1, none)
