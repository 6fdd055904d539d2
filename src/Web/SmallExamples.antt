-- ===== src/Web/SmallExamples.antt =====
-- A server whose sessions always have a message to send, a web socket of it that has received one,
-- and a client that closes its web socket while it is sent one.
use geoff.Prelude.{ℕ, ◌≡◌, refl, true, [], ◌∷◌, Option, none, some, arith, ap, sym}
use mathlib.Core.Option.{some-injective}
use geoff.AppBuffer.{of_bytes}
use geoff.SortedMap.{lookup, insert, remove}
use geoff.Http.Connection.{plain}
use geoff.Sessions.{
  SessionType, Sessions, empty, delete_by_id, add_session, find_by_id, entered,
  server_comms_handler, handled,
}
use geoff.Sessions.Socket.{
  Socket, make_websocket_session, message, closed, with_callback, on_accept, on_read, on_write,
  on_message, find_and_send, send_next, do_write,
}
use geoff.Sessions.Reachable
use geoff.Sessions.Reachable.{Reach-IsSessions}
use geoff.Sessions.Socket.Present.{Present}
use geoff.Sessions.Socket.Steps.{Move, start, moved, received}
use geoff.Sessions.Socket.Local.{makes_session, is_quiet}
use geoff.Sessions.Socket.Talking.{Talking, ends_reading, begun, going, Talking-reading}
use geoff.Web.Family.{update}
use geoff.Web
use geoff.Web.{Web, SocketStep, Reach, later, socket, put, upgraded}
use geoff.Web.Orders.{Reach-commute}
use geoff.Web.Crash.{closed_while_writing}

-- A session is its id and its callback.
abbrev chatter : SessionType (ℕ × Option ℕ) (Unit {0})
chatter = record {
  make = λ id. (id, none);
  session_id = λ s. s.0;
  comms_handler = λ bytes q. some q;
  get_next_tx_buffer = λ s. (some (of_bytes (1 ∷ []) true), s);
  set_on_tx_ready_callback = λ this s. (s.0, some this);
  on_tx_ready = λ s. s.1;
  session_id-make = λ id. refl;
  session_id-set = λ this s. refl;
  on_tx_ready-make = λ id. refl;
  on_tx_ready-set = λ this s. refl;
  comms_handler_frame = λ bytes s s' w w' e.
      let h = some-injective _ _ e in (ap (λ q. q.0.0) (sym h), ap (λ q. q.0.1) (sym h));
  get_next_tx_buffer_frame = λ s. (refl, refl);
}

abbrev one : Sessions (ℕ × Option ℕ) (Unit {0})
one = record { next_id = 1; map = (0, some (0, some 0)) ∷ []; world = tt }

abbrev reading : Socket
reading = record (make_websocket_session plain) { session_id = some 0; accepts = 0; reads = 1 }

abbrev writing : Socket
writing = record reading { write_active = true; writes = 1 }

abbrev upgraded_web : Web (ℕ × Option ℕ) (Unit {0})
upgraded_web = upgraded plain (Web.begin tt)

abbrev joined : Web (ℕ × Option ℕ) (Unit {0})
joined = put 0 (reading, one) upgraded_web

abbrev answered : Web (ℕ × Option ℕ) (Unit {0})
answered = put 0 (writing, one) joined

accept_step :
    on_accept chatter 0 none (record (make_websocket_session plain) { accepts = 0 }, empty tt)
    ≡ some (reading, one)
unfolding on_accept with_callback find_by_id entered add_session lookup insert
accept_step = refl

read_step :
    on_read chatter (message (7 ∷ [])) (record reading { reads = 0 }, one) ≡ some (writing, one)
unfolding on_read on_message find_and_send send_next do_write server_comms_handler handled
    find_by_id entered lookup insert
read_step = refl

writing-Talking : Talking chatter 0 writing one
unfolding ends_reading
writing-Talking =
    going
      (begun 0 (start plain (empty tt) (Reach-IsSessions chatter (Reachable.Reach.start tt))) refl
        accept_step)
      (moved (received 0 (message (7 ∷ [])) refl read_step)) refl

Talking-reading_example :
    (writing.reads ≡ 1) × (writing.accepts ≡ 0) × ((id : ℕ) × (some 0 ≡ some id) × Present id one)
Talking-reading_example = Talking-reading chatter 0 writing-Talking

join : SocketStep chatter upgraded_web 1 joined
unfolding update
join = SocketStep.accepted 0 0 none (reading, one) refl accept_step

answer : SocketStep chatter joined 0 answered
unfolding update
answer = SocketStep.received 0 0 (message (7 ∷ [])) (writing, one) refl read_step

answered-Reach : Reach chatter tt 1 answered
answered-Reach =
    later (later (later Web.Reach.start (Web.Step.upgrade plain)) (socket join)) (socket answer)

closed_while_writing_example :
    (id : ℕ) × (q q' : Socket × Sessions (ℕ × Option ℕ) (Unit {0})) × (some 0 ≡ some id)
    × (on_read chatter closed (record writing { reads = 0 }, one) ≡ some q)
    × (on_write chatter none (record q.0 { writes = 0 }, q.1) ≡ some q')
    × (lookup id q'.1.map ≡ some none)
unfolding update
closed_while_writing_example =
    closed_while_writing chatter 0 0 0 answered-Reach (omega arith) (omega arith) refl refl

-- The sessions of two web sockets.
abbrev two : Sessions (ℕ × Option ℕ) (Unit {0})
two = record { next_id = 2; map = (0, some (0, some 0)) ∷ (1, some (1, some 1)) ∷ []; world = tt }

abbrev first_left : Sessions (ℕ × Option ℕ) (Unit {0})
first_left = record { next_id = 2; map = (0, some (0, some 0)) ∷ []; world = tt }

abbrev second : Socket
second = record reading { session_id = some 1 }

abbrev first_joined : Web (ℕ × Option ℕ) (Unit {0})
first_joined = put 0 (reading, one) (upgraded plain upgraded_web)

abbrev both : Web (ℕ × Option ℕ) (Unit {0})
both = put 1 (second, two) first_joined

second_accepted :
    on_accept chatter 1 none (record (make_websocket_session plain) { accepts = 0 }, one)
    ≡ some (second, two)
unfolding on_accept with_callback find_by_id entered add_session lookup insert
second_accepted = refl

both-Reach : Reach chatter tt 2 both
unfolding update
both-Reach =
    later
      (later (later (later Web.Reach.start (Web.Step.upgrade plain)) (Web.Step.upgrade plain))
        (socket (SocketStep.accepted 0 0 none (reading, one) refl accept_step)))
      (socket (SocketStep.accepted 1 0 none (second, two) refl second_accepted))

first_hears :
    on_read chatter (message (7 ∷ [])) (record reading { reads = 0 }, two) ≡ some (writing, two)
unfolding on_read on_message find_and_send send_next do_write server_comms_handler handled
    find_by_id entered lookup insert
first_hears = refl

second_closes :
    on_read chatter closed (record second { reads = 0 }, two)
    ≡ some (record second { reads = 0 }, first_left)
unfolding on_read delete_by_id remove
second_closes = refl

-- The first web socket receives a message, and the client of the second closes it.
Reach-commute_example :
    (m2 : Sessions (ℕ × Option ℕ) (Unit {0})) × Move chatter 1
      (both.sockets 1)
      two
      (record second { reads = 0 })
      m2
    × Move chatter 0
        ((put 1 (record second { reads = 0 }, m2) both).sockets 0)
        m2
        writing
        first_left
    × (put 0 (writing, first_left) (put 1 (record second { reads = 0 }, m2) both)
        ≡ put 1 (record second { reads = 0 }, first_left) (put 0 (writing, two) both))
unfolding update makes_session is_quiet
Reach-commute_example =
    Reach-commute chatter 0 1 0 1 both-Reach (omega arith) (omega arith) refl refl
      (received 0 (message (7 ∷ [])) refl first_hears) (received 0 closed refl second_closes) refl
      refl refl
