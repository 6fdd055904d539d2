-- ===== src/Web/Crash.antt =====
-- A client that closes its web socket while a message to it is being written
-- (lib/inc/websocket_session.h, lib/inc/WebsockSessionManager.h, apps/asteroids/src/Universe.cpp).
use geoff.Prelude.{◌>>=◌, ℕ, suc, ◌≤◌, ◌<◌, ◌≡◌, false, none, some, arith, ap}
use geoff.Words.{Host, u32_mod}
use geoff.Double.{Double}
use geoff.SortedMap.{lookup}
use geoff.Sessions.{SessionType, Sessions, delete_by_id}
use geoff.Sessions.Socket.{Socket, closed, on_read, on_write}
use geoff.Sessions.Socket.Runs.{Reach-IsSocket}
use geoff.Sessions.Socket.Ends.{lookup-delete_by_id, on_write-entered}
use geoff.Asteroids.Session.{Session, World}
use geoff.Asteroids.Session.Managed.{game_sessions}
use geoff.Asteroids.World.{tick}
use geoff.Asteroids.World.Nulls.{tick-null}
use geoff.Web.{Web, Reach}
use geoff.Web.Runs.{Reach-IsWeb}

module _ {S W : Type 0} (t : SessionType S W) where
  -- In any state that the server reaches with no more than 2 ^ 32 sessions made: when a client closes
  -- its web socket while a message to it is being written, and the write then completes, both
  -- handlers return and a null pointer stands at the id of its session.
  pub closed_while_writing :
      {world : W} {n : ℕ} {w : Web S W} (k reads writes : ℕ)
      → Reach t world n w
      → n ≤ u32_mod
      → k < w.made
      → (w.sockets k).reads ≡ suc reads
      → (w.sockets k).writes ≡ suc writes
      → (id : ℕ) × (q q' : Socket × Sessions S W) × ((w.sockets k).session_id ≡ some id)
        × (on_read t closed (record (w.sockets k) { reads = reads }, w.sessions) ≡ some q)
        × (on_write t none (record q.0 { writes = writes }, q.1) ≡ some q')
        × (lookup id q'.1.map ≡ some none)
  unfolding on_read
  closed_while_writing {world} {n} {w} k reads writes r h made e e' =
      let web = Reach-IsWeb t r h in
      let socket = Reach-IsSocket t k (web.single k made) in
      let (id, sid) = socket.named (omega arith) in
      let s : Socket = record (w.sockets k) { reads = reads } in
      let m = delete_by_id id w.sessions in
      let (m', written, entered) =
        on_write-entered t id (record s { writes = writes }) m sid
          (lookup-delete_by_id id w.sessions socket.sessions) in
      (
        id,
        (s, m),
        (record s { writes = writes; write_active = false }, m'),
        sid,
        ap (λ o. o >>= (λ j. some (s, delete_by_id j w.sessions))) sid,
        written,
        entered,
      )

-- In the game, the next tick is then undefined.
closed_while_writing-tick :
    {W : Type 0} ⦃d : Double W⦄ ⦃host : Host⦄ (rand : ℕ → ℕ) (rand_max : ℕ) {world : World W}
    {n : ℕ} {w : Web Session (World W)} (k reads writes count : ℕ)
    → Reach (game_sessions rand rand_max) world n w
    → n ≤ u32_mod
    → k < w.made
    → (w.sockets k).reads ≡ suc reads
    → (w.sockets k).writes ≡ suc writes
    → (q q' : Socket × Sessions Session (World W)) × (on_read
          (game_sessions rand rand_max)
          closed
          (record (w.sockets k) { reads = reads }, w.sessions)
        ≡ some q)
      × (on_write (game_sessions rand rand_max) none (record q.0 { writes = writes }, q.1)
          ≡ some q')
      × (tick rand rand_max count q'.1.map q'.1.world ≡ none)
closed_while_writing-tick rand rand_max k reads writes count r h made e e' =
    let (id, q, q', _, read, written, entered) =
      closed_while_writing (game_sessions rand rand_max) k reads writes r h made e e' in
    (q, q', read, written, tick-null rand rand_max count q'.1.map q'.1.world id entered)
