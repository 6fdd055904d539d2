-- ===== src/Sessions/Socket/Local.antt =====
-- What a handler of a web socket reads and changes of the sessions (lib/inc/websocket_session.h).
use geoff.Prelude.{
  ◌>>=◌, ℕ, suc, ◌≡◌, refl, List, Bool, true, false, Option, none, some, sym, ◌∙◌, ap, subst,
  >>=-eq-some, arith,
}
use mathlib.Core.Option.{some-injective}
use geoff.SortedMap.{lookup}
use geoff.SortedMap.Laws.{Sorted}
use geoff.SortedMap.Cells.{write}
use geoff.Http.Text.{codes}
use geoff.Sessions.{SessionType, Sessions, delete_by_id}
use geoff.Sessions.Socket.{
  Socket, closed, read_error, message, failed, find_and_send, send_next, on_accept, on_message,
  on_read, on_write,
}
use geoff.Sessions.Socket.Cell.{
  with_cell, with_cell_same, sent, heard, after_message, find_and_send_at, on_message_at,
}
use geoff.Sessions.Socket.Steps.{Move, accepted, received, wrote, posted}

module _ {S W : Type 0} (t : SessionType S W) (this : ℕ) where
  -- A handshake that succeeds, which makes a session.
  unfoldable pub makes_session :
      {s : Socket} {m : Sessions S W} {s' : Socket} {m' : Sessions S W}
      → Move t this s m s' m'
      → Bool
  makes_session (accepted n none e h) = true
  makes_session _ = false

  -- Neither that nor a message, which a session handles in the world.
  unfoldable pub is_quiet :
      {s : Socket} {m : Sessions S W} {s' : Socket} {m' : Sessions S W}
      → Move t this s m s' m'
      → Bool
  is_quiet (accepted n none e h) = false
  is_quiet (received n (message bytes) e h) = false
  is_quiet _ = true

  -- The move changes the cell of the session and the world, and happens whenever these are the same.
  pub record Local (id : ℕ) (s : Socket) (m : Sessions S W) (s' : Socket) (m' : Sessions S W)
      : Type 0 where
    pub cell : Option (Option S)
    pub world : W
    pub result : m' ≡ record m { map = write id cell m.map; world = world }
    pub again :
        (n : Sessions S W)
        → Sorted 0 n.map
        → lookup id n.map ≡ lookup id m.map
        → n.world ≡ m.world
        → Move t this s n s' (record n { map = write id cell n.map; world = world })

  -- Nor does the world matter.
  pub record Quiet (id : ℕ) (s : Socket) (m : Sessions S W) (s' : Socket) (m' : Sessions S W)
      : Type 0 where
    pub cell : Option (Option S)
    pub result : m' ≡ with_cell id cell m
    pub again :
        (n : Sessions S W)
        → Sorted 0 n.map
        → lookup id n.map ≡ lookup id m.map
        → Move t this s n s' (with_cell id cell n)

  pub Quiet-Local :
      (id : ℕ) (s s' : Socket) (m m' : Sessions S W) → Quiet id s m s' m' → Local id s m s' m'
  Quiet-Local id s s' m m' q = record {
    cell = q.cell;
    world = m.world;
    result = q.result;
    again = λ n sorted e w.
        subst (λ w'. Move t this s n s' (record n { map = write id q.cell n.map; world = w' })) w
          (q.again n sorted e);
  }

  quiet :
      (id : ℕ) (r : Socket × Option (Option S)) (s s' : Socket) (m m' : Sessions S W)
      → ((n : Sessions S W)
          → Sorted 0 n.map
          → lookup id n.map ≡ lookup id m.map
          → Move t this s n r.0 (with_cell id r.1 n))
      → ◌≡◌ {A = Option (Socket × Sessions S W)} (some (r.0, with_cell id r.1 m)) (some (s', m'))
      → Quiet id s m s' m'
  quiet id r s s' m m' moves e =
      let e' = some-injective _ _ e in
      record {
        cell = r.1;
        result = sym (ap (λ q. q.1) e');
        again = λ n sorted lk.
            subst (λ q. Move t this s n q (with_cell id r.1 n)) (ap (λ q. q.0) e')
              (moves n sorted lk);
      }

  message-Local :
      (id k : ℕ) (bytes : List ℕ) (s s' : Socket) (m m' : Sessions S W)
      → s.reads ≡ suc k
      → s.session_id ≡ some id
      → Sorted 0 m.map
      → on_read t (message bytes) (record s { reads = k }, m) ≡ some (s', m')
      → Local id s m s' m'
  unfolding on_read
  message-Local id k bytes s s' m m' e sid sorted h =
      let s0 : Socket = record s { reads = k } in
      let hears : (n : Sessions S W)
          → Sorted 0 n.map
          → on_read t (message bytes) (s0, n) ≡ (
              heard t bytes (lookup id n.map) n.world >>= (λ x. some (after_message t id s0 n x))) =
        λ n sorted'.
          ap (λ o. o >>= (λ j. on_message t j bytes (s0, n))) sid
          ∙ on_message_at t id bytes s0 n sorted' in
      let (x, found, last) =
        >>=-eq-some (heard t bytes (lookup id m.map) m.world) _ (sym (hears m sorted) ∙ h) in
      let e' = some-injective _ _ last in
      record {
        cell = some (sent t s0 (some x.0)).1;
        world = x.1;
        result = sym (ap (λ q. q.1) e');
        again = λ n sorted' lk w.
            subst
              (λ q.
                Move t this s n q
                  (record n { map = write id (some (sent t s0 (some x.0)).1) n.map; world = x.1 }))
              (ap (λ q. q.0) e')
              (received k (message bytes) e (
                hears n sorted'
                ∙ ap (λ o. o >>= (λ y. some (after_message t id s0 n y)))
                    (ap (λ c. heard t bytes c n.world) lk
                      ∙ ap (heard t bytes (lookup id m.map)) w
                      ∙ found)));
      }

  -- An error leaves the sessions as they are.
  failed-Quiet :
      (id : ℕ) (f s s' : Socket) (m m' : Sessions S W)
      → Sorted 0 m.map
      → ((n : Sessions S W) → Move t this s n f n)
      → ◌≡◌ {A = Option (Socket × Sessions S W)} (some (f, m)) (some (s', m'))
      → Quiet id s m s' m'
  failed-Quiet id f s s' m m' sorted moves e =
      let c = lookup id m.map in
      quiet id (f, c) s s' m m'
        (λ n sorted' lk. subst (Move t this s n f) (with_cell_same id c n sorted' lk) (moves n))
        (ap (λ x. some (f, x)) (sym (with_cell_same id c m sorted refl)) ∙ e)

  pub move-Quiet :
      (id : ℕ) {s : Socket} {m : Sessions S W} {s' : Socket} {m' : Sessions S W}
      → (move : Move t this s m s' m') → is_quiet move ≡ true
      → s.session_id ≡ some id
      → Sorted 0 m.map
      → Quiet id s m s' m'
  unfolding is_quiet on_accept on_read on_write delete_by_id send_next
  move-Quiet id {s} {m} {s'} {m'} (accepted k none e h) q sid sorted = absurd (ground arith)
  move-Quiet id {s} {m} {s'} {m'} (accepted k (some ec) e h) q sid sorted =
      failed-Quiet id (failed ec (codes "accept") (record s { accepts = k })) s s' m m' sorted
        (λ n. accepted k (some ec) e refl) h
  move-Quiet id {s} {m} {s'} {m'} (received k closed e h) q sid sorted =
      let s0 : Socket = record s { reads = k } in
      let closes : (n : Sessions S W) → on_read t closed (s0, n) ≡ some (s0, with_cell id none n) =
        λ n. ap (λ o. o >>= (λ j. some (s0, delete_by_id j n))) sid in
      quiet id (s0, none) s s' m m' (λ n sorted' lk. received k closed e (closes n))
        (sym (closes m) ∙ h)
  move-Quiet id {s} {m} {s'} {m'} (received k (read_error ec) e h) q sid sorted =
      failed-Quiet id (failed ec (codes "read") (record s { reads = k })) s s' m m' sorted
        (λ n. received k (read_error ec) e refl) h
  move-Quiet id {s} {m} {s'} {m'} (received k (message bytes) e h) q sid sorted =
      absurd (ground arith)
  move-Quiet id {s} {m} {s'} {m'} (wrote k (some ec) e h) q sid sorted =
      failed-Quiet id (failed ec (codes "write") (record s { writes = k })) s s' m m' sorted
        (λ n. wrote k (some ec) e refl) h
  move-Quiet id {s} {m} {s'} {m'} (wrote k none e h) q sid sorted =
      let s0 : Socket = record s { writes = k; write_active = false } in
      let c = lookup id m.map in
      let r = sent t s0 c in
      let sends : (n : Sessions S W)
          → Sorted 0 n.map
          → lookup id n.map ≡ c
          → on_write t none (record s { writes = k }, n) ≡ some (r.0, with_cell id (some r.1) n) =
        λ n sorted' lk.
          ap (λ o. o >>= (λ j. some (find_and_send t j (s0, n)))) sid
          ∙ ap some (find_and_send_at t id s0 n c sorted' lk) in
      quiet id (r.0, some r.1) s s' m m' (λ n sorted' lk. wrote k none e (sends n sorted' lk))
        (sym (sends m sorted refl) ∙ h)
  move-Quiet id {s} {m} {s'} {m'} (posted id' x sid' e alive) q sid sorted =
      let r = sent t s (some (some x)) in
      subst (λ j. Quiet j s m s' m') (some-injective _ _ (sym sid' ∙ sid))
        (quiet id' (r.0, some r.1) s s' m m' (λ n sorted' lk. posted id' x sid' (lk ∙ e) alive)
          refl)

  pub move-Local :
      (id : ℕ) {s : Socket} {m : Sessions S W} {s' : Socket} {m' : Sessions S W}
      → (move : Move t this s m s' m') → makes_session move ≡ false
      → s.session_id ≡ some id
      → Sorted 0 m.map
      → Local id s m s' m'
  unfolding makes_session is_quiet
  move-Local id (accepted k none e h) j sid sorted = absurd (ground arith)
  move-Local id {s} {m} {s'} {m'} (received k (message bytes) e h) j sid sorted =
      message-Local id k bytes s s' m m' e sid sorted h
  move-Local id {s} {m} {s'} {m'} (accepted k (some ec) e h) j sid sorted =
      Quiet-Local id s s' m m' (move-Quiet id (accepted k (some ec) e h) refl sid sorted)
  move-Local id {s} {m} {s'} {m'} (received k closed e h) j sid sorted =
      Quiet-Local id s s' m m' (move-Quiet id (received k closed e h) refl sid sorted)
  move-Local id {s} {m} {s'} {m'} (received k (read_error ec) e h) j sid sorted =
      Quiet-Local id s s' m m' (move-Quiet id (received k (read_error ec) e h) refl sid sorted)
  move-Local id {s} {m} {s'} {m'} (wrote k ec e h) j sid sorted =
      Quiet-Local id s s' m m' (move-Quiet id (wrote k ec e h) refl sid sorted)
  move-Local id {s} {m} {s'} {m'} (posted id' x sid' e alive) j sid sorted =
      Quiet-Local id s s' m m' (move-Quiet id (posted id' x sid' e alive) refl sid sorted)
