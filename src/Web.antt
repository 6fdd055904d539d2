-- ===== src/Web.antt =====
-- All the web sockets of the server over the sessions that they share (websocket_session in
-- lib/inc/websocket_session.h, make_websocket_session in lib/src/geoff.cpp, WebsockServer in
-- lib/src/WebsockServer.cpp, and the ticks of apps/asteroids/src/Timer.cpp).
pub mod Family
pub mod Owned
pub mod Joined
pub mod Ready
pub mod Runs
pub mod Worlds
pub mod Game
pub mod Program
pub mod Whole
pub mod Given
pub mod Crash
pub mod Orders
mod Examples
mod SmallExamples
use geoff.Prelude.{ℕ, suc, ◌+◌, ◌≡◌, List, [], ◌∷◌, ◌++◌, Option, none, some, All}
use geoff.SortedMap.{SortedMap, lookup}
use geoff.Http.Failure.{ErrorCode}
use geoff.Http.Connection.{Kind, plain}
use geoff.Sessions.{SessionType, Sessions, empty}
use geoff.Sessions.Reachable.{IsSessions}
use geoff.Sessions.Socket.{
  Socket, IsAlive, create, make_websocket_session, Incoming, send_next, on_accept, on_read,
  on_write,
}
use geoff.Sessions.Socket.Present.{Present}
use geoff.Sessions.Socket.Within.{Kept}
use geoff.Web.Family.{update}

-- A web socket is known by its number, in the order in which they were made; those from `made` on
-- are not there. `posts` are the handlers that OnTxReady has posted and that have not run: the web
-- socket on whose executor each one waits, and the id of the session that it refers to.
pub record Web (S W : Type 0) : Type 0 where
  pub sockets : ℕ → Socket
  pub made : ℕ
  pub sessions : Sessions S W
  pub posts : List (ℕ × ℕ)

abbrev pub unmade : Socket
unmade = create plain

abbrev pub begin : {S W : Type 0} → W → Web S W
begin w = record { sockets = λ k. unmade; made = 0; sessions = empty w; posts = [] }

-- The new session that a handshake brings.
abbrev pub joins : Option ErrorCode → ℕ
joins none = 1
joins (some ec) = 0

-- What the call of OnTxReady of the session `id` posts, before the posts of the others.
abbrev pub ready_at : ℕ → Option ℕ → List (ℕ × ℕ) → List (ℕ × ℕ)
ready_at id none posts = posts
ready_at id (some k) posts = (k, id) ∷ posts

module _ {S W : Type 0} where
  -- An upgrade: make_websocket_session.
  abbrev pub upgraded : Kind → Web S W → Web S W
  upgraded kind w = record w {
    sockets = update w.sockets w.made (make_websocket_session kind);
    made = suc w.made;
  }

  -- The web socket of number `k` has moved.
  abbrev pub put : ℕ → Socket × Sessions S W → Web S W → Web S W
  put k (s, m) w = record w { sockets = update w.sockets k s; sessions = m }

  -- The web sockets to whose executors handlers are posted.
  abbrev pub AllThere : Web S W → List (ℕ × ℕ) → Type 0
  AllThere w posts = All (λ p. IsAlive (w.sockets p.0)) posts

  module _ (t : SessionType S W) where
    -- What the calls of OnTxReady post, at the end of a tick of every session.
    unfoldable pub ready : SortedMap (Option S) → List (ℕ × ℕ)
    ready [] = []
    ready ((id, none) ∷ map) = ready map
    ready ((id, some x) ∷ map) = ready_at id (t.on_tx_ready x) (ready map)

    -- A tick changes the sessions in place and the world: none is new, none is lost, and none is
    -- called back elsewhere.
    pub record Ticked (m m' : Sessions S W) : Type 0 where
      pub sessions : IsSessions t m'
      pub next : m'.next_id ≡ m.next_id
      pub present : (k : ℕ) → Present k m → Present k m'
      pub kept : (k : ℕ) (x' : S) → lookup k m'.map ≡ some (some x') → Kept t k x' m.map

    -- An operation of a web socket completes, or a posted handler runs while its session and its web socket are there; and
    -- how many sessions it adds.
    pub data SocketStep (w : Web S W) : ℕ → Web S W → Type 0 where
      accepted :
          (k n : ℕ) (ec : Option ErrorCode) (q : Socket × Sessions S W)
          → (w.sockets k).accepts ≡ suc n
          → on_accept t k ec (record (w.sockets k) { accepts = n }, w.sessions) ≡ some q
          → SocketStep w (joins ec) (put k q w)
      received :
          (k n : ℕ) (incoming : Incoming) (q : Socket × Sessions S W)
          → (w.sockets k).reads ≡ suc n
          → on_read t incoming (record (w.sockets k) { reads = n }, w.sessions) ≡ some q
          → SocketStep w 0 (put k q w)
      wrote :
          (k n : ℕ) (ec : Option ErrorCode) (q : Socket × Sessions S W)
          → (w.sockets k).writes ≡ suc n
          → on_write t ec (record (w.sockets k) { writes = n }, w.sessions) ≡ some q
          → SocketStep w 0 (put k q w)
      ran :
          (before after : List (ℕ × ℕ)) (k id : ℕ) (x : S)
          → w.posts ≡ before ++ ((k, id) ∷ after)
          → lookup id w.sessions.map ≡ some (some x)
          → IsAlive (w.sockets k)
          → SocketStep w 0 (
              put k
                (send_next t id (some x) (w.sockets k, w.sessions))
                (record w { posts = before ++ after }))

    -- A web socket moves, a client is upgraded, or the timer ticks, which is undefined when a session
    -- calls back a web socket that is not there any more.
    pub data Step (w : Web S W) : ℕ → Web S W → Type 0 where
      socket : {d : ℕ} {w' : Web S W} → SocketStep w d w' → Step w d w'
      upgrade : (kind : Kind) → Step w 0 (upgraded kind w)
      ticked :
          (m' : Sessions S W)
          → Ticked w.sessions m'
          → AllThere w (ready m'.map)
          → Step w 0 (record w { sessions = m'; posts = w.posts ++ ready m'.map })

    -- The states that the server reaches, and the number of sessions that it has made.
    pub data Reach (world : W) : ℕ → Web S W → Type 0 where
      start : Reach world 0 (begin world)
      later : {n d : ℕ} {w w' : Web S W} → Reach world n w → Step w d w' → Reach world (n + d) w'
