-- ===== src/Sessions/Socket/Cell.antt =====
-- What the handlers of a web socket do with the session at its id (lib/inc/websocket_session.h): they
-- read and write one cell of the map, and a message may change the world.
use geoff.Prelude.{◌>>=◌, ℕ, ◌≡◌, refl, List, Option, none, some, sym, ◌∙◌, ap}
use geoff.SortedMap.{lookup, insert}
use geoff.SortedMap.Laws.{Sorted}
use geoff.SortedMap.Cells.{write, write_same, write_twice, lookup-write, write-Sorted}
use geoff.Sessions.{SessionType, Sessions, find_by_id, entered, server_comms_handler, handled}
use geoff.Sessions.Socket.{Socket, do_read, write_popped, send_next, find_and_send, on_message}

module _ {S W : Type 0} where
  abbrev pub with_cell : ℕ → Option (Option S) → Sessions S W → Sessions S W
  with_cell id c m = record m { map = write id c m.map }

  pub with_cell_same :
      (id : ℕ) (c : Option (Option S)) (m : Sessions S W)
      → Sorted 0 m.map
      → lookup id m.map ≡ c
      → m ≡ with_cell id c m
  with_cell_same id c m s e = ap (λ map. record m { map = map }) (sym (write_same id c m.map s e))

  abbrev known : S × W → Option S × W
  known (x, w) = (some x, w)

  module _ (t : SessionType S W) where
    -- The socket after its session, if there is one, was asked for its next buffer, and the session.
    abbrev pub sent : Socket → Option (Option S) → Socket × Option S
    sent s (some (some x)) = let (tx, x') = t.get_next_tx_buffer x in (write_popped tx s, some x')
    sent s _ = (s, none)

    pub find_and_send_at :
        (id : ℕ) (s : Socket) (m : Sessions S W) (c : Option (Option S))
        → Sorted 0 m.map
        → lookup id m.map ≡ c
        → find_and_send t id (s, m) ≡ ((sent s c).0, with_cell id (some (sent s c).1) m)
    unfolding find_and_send find_by_id entered send_next
    find_and_send_at id s m none sorted e = rw e refl
    find_and_send_at id s m (some none) sorted e =
        rw e (ap (λ m'. (s, m')) (with_cell_same id (some none) m sorted e))
    find_and_send_at id s m (some (some x)) sorted e = rw e refl

    -- The session, and the world, after a message.
    abbrev pub heard : List ℕ → Option (Option S) → W → Option (Option S × W)
    heard bytes (some (some x)) w = do r ← t.comms_handler bytes (x, w); some (known r)
    heard bytes _ w = some (none, w)

    abbrev pub after_message : ℕ → Socket → Sessions S W → Option S × W → Socket × Sessions S W
    after_message id s m (o, w) =
        let r = sent s (some o) in
        (do_read r.0, record m { map = write id (some r.1) m.map; world = w })

    -- The session at the id has heard the message.
    sent_after :
        (id : ℕ) (s : Socket) (m : Sessions S W) (h : Option S × W)
        → Sorted 0 m.map
        → let r =
            find_and_send t id (s, record m { map = write id (some h.0) m.map; world = h.1 }) in
          (do_read r.0, r.1) ≡ after_message id s m h
    sent_after id s m (o, w) sorted =
        let m' : Sessions S W = record m { map = write id (some o) m.map; world = w } in
        ap (λ r. (do_read r.0, r.1))
          (find_and_send_at id s m' (some o) (write-Sorted id (some o) m.map sorted)
            (lookup-write id (some o) m.map sorted))
        ∙ ap (λ map. (do_read (sent s (some o)).0, record m { map = map; world = w }))
            (write_twice id o (sent s (some o)).1 m.map sorted)

    noted :
        (id : ℕ) (m : Sessions S W) (o : Option (S × W))
        → (o >>= (λ r. some (record m { map = insert id (some r.0) m.map; world = r.1 }))) ≡ (
            o
            >>= (λ r. some (known r))
            >>= (λ h. some (record m { map = write id (some h.0) m.map; world = h.1 })))
    noted id m none = refl
    noted id m (some r) = refl

    server_comms_handler_at :
        (id : ℕ) (bytes : List ℕ) (m : Sessions S W) (c : Option (Option S))
        → Sorted 0 m.map
        → lookup id m.map ≡ c
        → server_comms_handler t id bytes m ≡ (
            heard bytes c m.world
            >>= (λ h. some (record m { map = write id (some h.0) m.map; world = h.1 })))
    unfolding server_comms_handler handled find_by_id entered
    server_comms_handler_at id bytes m none sorted e = rw e refl
    server_comms_handler_at id bytes m (some none) sorted e =
        rw e (ap some (with_cell_same id (some none) m sorted e))
    server_comms_handler_at id bytes m (some (some x)) sorted e =
        rw e (noted id m (t.comms_handler bytes (x, m.world)))

    after_heard :
        (id : ℕ) (s : Socket) (m : Sessions S W) (o : Option (Option S × W))
        → Sorted 0 m.map
        → (o
            >>= (λ h. some (record m { map = write id (some h.0) m.map; world = h.1 }))
            >>= (λ m'. let r = find_and_send t id (s, m') in some (do_read r.0, r.1)))
          ≡ (o >>= (λ h. some (after_message id s m h)))
    after_heard id s m none sorted = refl
    after_heard id s m (some h) sorted = ap some (sent_after id s m h sorted)

    pub on_message_at :
        (id : ℕ) (bytes : List ℕ) (s : Socket) (m : Sessions S W)
        → Sorted 0 m.map
        → on_message t id bytes (s, m)
          ≡ (heard bytes (lookup id m.map) m.world >>= (λ h. some (after_message id s m h)))
    unfolding on_message
    on_message_at id bytes s m sorted =
        ap (λ o. o >>= (λ m'. let r = find_and_send t id (s, m') in some (do_read r.0, r.1)))
          (server_comms_handler_at id bytes m (lookup id m.map) sorted refl)
        ∙ after_heard id s m (heard bytes (lookup id m.map) m.world) sorted
