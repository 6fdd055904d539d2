-- ===== src/Sessions/Socket/Ends.antt =====
-- How a web socket ends, and what is left of it (lib/inc/websocket_session.h).
use geoff.Prelude.{◌>>=◌, ℕ, suc, ◌+◌, ◌≡◌, refl, false, none, some, arith, ap, ◌∙◌}
use geoff.SortedMap.{insert, lookup}
use geoff.SortedMap.Laws.{lookup-insert, lookup-remove}
use geoff.Http.Text.{codes}
use geoff.Http.Failure.{ErrorCode}
use geoff.Sessions.{SessionType, Sessions, find_by_id, entered, delete_by_id}
use geoff.Sessions.Reachable.{IsSessions}
use geoff.Sessions.Socket.{
  Socket, closed, read_error, failed, send_next, find_and_send, on_read, on_write,
}
use geoff.Sessions.Socket.Present.{Present}
use geoff.Sessions.Socket.Steps.{Reach}
use geoff.Sessions.Socket.Runs.{Reach-IsSocket}

pub lookup-delete_by_id :
    {S W : Type 0} {t : SessionType S W} (id : ℕ) (m : Sessions S W)
    → IsSessions t m
    → lookup id (delete_by_id id m).map ≡ none
unfolding delete_by_id
lookup-delete_by_id id m i = lookup-remove id 0 m.map i.sorted

find_by_id-absent :
    {S W : Type 0} (id : ℕ) (m : Sessions S W)
    → lookup id m.map ≡ none
    → find_by_id id m ≡ (none, record m { map = insert id none m.map })
unfolding find_by_id entered
find_by_id-absent id m e = rw e refl

module _ {S W : Type 0} (t : SessionType S W) where
  -- A read that ends the connection takes the session out of the map when the client has closed the
  -- socket, and leaves it in the map after any other error, where no read is under way any more and,
  -- if none is being written, the socket is destroyed.
  pub Reach-on_read :
      {s : Socket} {m : Sessions S W} (this n : ℕ) (ec : ErrorCode)
      → Reach t this s m
      → s.reads ≡ suc n
      → (id : ℕ) × (s.session_id ≡ some id)
        × ((m' : Sessions S W) × (on_read t closed (record s { reads = n }, m)
              ≡ some (record s { reads = n }, m'))
            × (lookup id m'.map ≡ none))
        × ((s' : Socket) × (on_read t (read_error ec) (record s { reads = n }, m) ≡ some (s', m))
            × (s'.accepts + s'.reads ≡ 0)
            × (s'.writes ≡ s.writes)
            × Present id m)
  unfolding on_read
  Reach-on_read {s} {m} this n ec r e =
      let i = Reach-IsSocket t this r in
      let one = i.one_read in
      let (id, sid) = i.named (omega arith) in
      (
        id,
        sid,
        (
          delete_by_id id m,
          ap (λ o. o >>= (λ k. some (record s { reads = n }, delete_by_id k m))) sid,
          lookup-delete_by_id id m i.sessions,
        ),
        (
          failed ec (codes "read") (record s { reads = n }),
          refl,
          omega arith,
          refl,
          i.present id (omega arith) sid,
        ),
      )

  -- A write that is complete after the session was taken out of the map puts a null pointer at its
  -- id, which a closed socket with a write under way leaves there for good.
  pub on_write-entered :
      (id : ℕ) (s : Socket) (m : Sessions S W)
      → s.session_id ≡ some id
      → lookup id m.map ≡ none
      → (m' : Sessions S W) × (on_write t none (s, m)
          ≡ some (record s { write_active = false }, m'))
        × (lookup id m'.map ≡ some none)
  unfolding on_write find_and_send send_next
  on_write-entered id s m sid e =
      let m' : Sessions S W = record m { map = insert id none m.map } in
      let s' : Socket = record s { write_active = false } in
      (
        m',
        ap (λ o. o >>= (λ k. some (find_and_send t k (s', m)))) sid
            ∙ ap (λ f. some (send_next t id f.0 (s', f.1))) (find_by_id-absent id m e),
        lookup-insert id none m.map,
      )
