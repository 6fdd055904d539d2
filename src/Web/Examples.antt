-- ===== src/Web/Examples.antt =====
-- A client that is upgraded and has its session, in the whole program, and the theorems about its runs
-- there.
use geoff.Prelude.{◌≡◌, refl, true, false, [], ◌∷◌, none, some, arith, All}
use geoff.Words.{little}
use geoff.SortedMap.{lookup, insert}
use geoff.Double.Milli.{Milli, milli_double}
use geoff.Http.Text.{Text, codes}
use geoff.Http.Samples.{beast, disk, upgrade, protocol, eq_text}
use geoff.Http.Connection.{Connection, plain, request, run, create, do_read, on_read}
use geoff.Http.Connection.Steps.{received, complete, dispatch}
use geoff.Http.Connection.Steps
use geoff.Http.Connection.Released.{IsGiven}
use geoff.Http.Server.{
  Acceptor, Server, accepted, detected, served, listen_on, do_accept, on_accept, on_detect,
}
use geoff.Sessions.{SessionType, Sessions, add_session, find_by_id, entered}
use geoff.Sessions.Reachable.{IsSessions}
use geoff.Sessions.Socket
use geoff.Sessions.Socket.{Socket, make_websocket_session, with_callback}
use geoff.Asteroids.Collision.{collision_detection}
use geoff.Asteroids.Collision.Examples.{dice, no_players}
use geoff.Asteroids.RockField
use geoff.Asteroids.Session.{Session, World}
use geoff.Asteroids.Session.Managed.{game_sessions}
use geoff.Asteroids.Session.Keeps.{IsWorld}
use geoff.Asteroids.World.{SessionMap, tick}
use geoff.Asteroids.World.Total.{tick-IsWorld}
use geoff.Asteroids.World.Creation.{get_universe, create-IsWorld}
use geoff.Asteroids.World.Creation
use geoff.Asteroids.World.Timer.{start}
use geoff.Web.Family.{update}
use geoff.Web
use geoff.Web.Game.{after, tick-Ticked}
use geoff.Web.{Web, Ticked, SocketStep, Reach, later, socket, put, upgraded}
use geoff.Web.Owned.{IsWeb}
use geoff.Web.Runs.{Reach-IsWeb}
use geoff.Web.Program
use geoff.Web.Program.{Program}
use geoff.Web.Given
use geoff.Web.Given.{Reach-Given}
use geoff.Web.Whole.{IsProgram, Reach-IsProgram}

abbrev game : SessionType Session (World Milli)
game = game_sessions ⦃host = little⦄ dice 2

abbrev universe : World Milli
universe = get_universe dice 2 none

-- The session that the first web socket begins with.
abbrev one : Sessions Session (World Milli)
one = record {
  next_id = 1;
  map = (0, some (game.set_on_tx_ready_callback 0 (game.make 0))) ∷ [];
  world = universe;
}

abbrev reading : Socket
reading = record (make_websocket_session plain) { session_id = some 0; accepts = 0; reads = 1 }

abbrev upgraded_web : Web Session (World Milli)
upgraded_web = upgraded plain (Web.begin universe)

abbrev joined_web : Web Session (World Milli)
joined_web = put 0 (reading, one) upgraded_web

join : SocketStep game upgraded_web 1 joined_web
unfolding update Socket.on_accept with_callback find_by_id entered add_session lookup insert
join = SocketStep.accepted 0 0 none (reading, one) refl refl

joined-Reach : Reach game universe 1 joined_web
joined-Reach = later (later Web.Reach.start (Web.Step.upgrade plain)) (socket join)

Reach-IsWeb_example : IsWeb game 1 joined_web
Reach-IsWeb_example = Reach-IsWeb game joined-Reach (omega arith)

abbrev root : Text
root = codes "www"

abbrev free_port : Acceptor
free_port = record { open_acceptor = none; set_option = none; bind = none; listen = none }

abbrev connected : Server
connected =
    on_detect none false
      (record (on_accept none (record (listen_on free_port []) { accepting = 0 })) {
        detecting = 0;
      })

-- The first request of the connection is an upgrade.
abbrev given_away : Connection
given_away = record (run plain) { reads = 0; released = true }

upgrade_step :
    Steps.Step beast protocol root (run plain) (received disk (request upgrade)) given_away
unfolding run create do_read complete dispatch on_read eq_text
upgrade_step = record {
  between = record (create plain) { reads = 0 };
  completes = refl;
  handles = refl;
}

joined-Program :
    Program.Reach ⦃host = little⦄ dice 2 beast protocol root free_port [] 16666 false 1 (record {
      server = record connected { connections = given_away ∷ [] };
      web = joined_web;
      timer = start 16666 false;
    })
unfolding listen_on do_accept on_accept on_detect eq_text run
joined-Program =
    Program.Reach.later
      (Program.Reach.later
        (Program.Reach.later
          (Program.Reach.later Program.Reach.begin (Program.Step.http (accepted 0 none refl)))
          (Program.Step.http (detected 0 none false refl)))
        (Program.Step.http (
          served [] [] (run plain) given_away (received disk (request upgrade)) refl upgrade_step)))
      (Program.Step.socket join)

Reach-IsProgram_example :
    IsProgram ⦃host = little⦄ dice 2 beast protocol root free_port [] 1 (record {
      server = record connected { connections = given_away ∷ [] };
      web = joined_web;
      timer = start 16666 false;
    })
Reach-IsProgram_example =
    Reach-IsProgram ⦃host = little⦄ dice 2 beast protocol root free_port [] joined-Program
      (omega arith)

-- The game ticks over that session.
nothing_hit :
    collision_detection dice 2 universe.players
      (RockField.tick_event universe.universe universe.field)
    ≡ some ([], RockField.tick_event universe.universe universe.field)
unfolding get_universe Creation.create
nothing_hit = no_players (RockField.tick_event universe.universe universe.field)

tick_goes_through :
    (q : SessionMap × World Milli) × (tick ⦃host = little⦄ dice 2 0 one.map universe ≡ some q)
    × IsWorld q.1
unfolding get_universe
tick_goes_through =
    tick-IsWorld ⦃host = little⦄ dice 2 0 one.map universe
      ([], RockField.tick_event universe.universe universe.field)
      (create-IsWorld Milli dice 2 8192 8192) tt nothing_hit

one-IsSessions : IsSessions game one
one-IsSessions = (Reach-IsWeb game joined-Reach (omega arith)).sessions

tick-Ticked_example : Ticked game one (after tick_goes_through.0 one)
tick-Ticked_example =
    tick-Ticked ⦃host = little⦄ dice 2 0 one tick_goes_through.0 one-IsSessions tick_goes_through.1

Reach-Given_example :
    (1 ≡ Given.given_away (given_away ∷ [])) × All (IsGiven beast protocol root) (given_away ∷ [])
Reach-Given_example = Reach-Given beast protocol root ⦃host = little⦄ dice 2 joined-Program
