-- ===== src/Lib.antt =====
-- The verification library of geoff, a C++ web server for browser games, and of its game, asteroids.
--
-- A browser talks to the server over a web socket. The server holds a session for every socket in a
-- map; a session takes the bytes of a client apart, and the game's session acts on its player. Every
-- message is laid out with AppBuffer, in the byte order that the client asked for. A timer ticks: the
-- universe moves its rocks, finds collisions and tells every client what it sees, and then every
-- player ticks. A player has a ship, and a ship has a gun with bullets.
--
-- Which file models what:
--   * Words, AppBuffer: lib/src/AppBuffer.cpp over a list of bytes. A read or a write outside of the
--     buffer is `none`, and what follows from such a fault is left open. The host may be of either
--     byte order. AppBuffer/Message reads and writes runs of fields.
--   * SortedMap, Sessions: lib/inc/WebsockSessionManager.h and lib/src/WebsockServer.cpp, for any
--     type of session that has what the record SessionType names.
--   * Websock, GameSession: lib/src/WebsockSession.cpp and lib/src/GameSession.cpp. The virtual
--     handlers are a record, Handlers, which GameSession fills with its echoes and
--     Asteroids/Session with those of the game.
--   * Websock/Pump: the writes of lib/inc/websocket_session.h, as a step relation. Sessions/Socket is
--     the whole of that class, with its operations under way and the map of the sessions.
--     Sessions/Socket/Cell and Local are the part of the sessions that a handler of it uses.
--   * Double: the operations on `double` that the game uses, as an interface of which only the
--     order's laws are assumed, NaN included. Double/Milli is an instance on which examples run.
--   * Asteroids/Structs, Consts, Bullet, Gun, Rock, RockField, Ship, Player: the files of the same
--     names under apps/asteroids/inc and apps/asteroids/src. An object is a record, and a method
--     takes the record and returns the new one; the size of g_universe and rand() are parameters.
--   * Asteroids/Collision, Universe: CollisionDetection and PerSessionTickEvent of
--     apps/asteroids/src/Universe.cpp. An iterator of the list of the rocks is an address.
--     Asteroids/Collision/Earned says from the distances alone what a player is to earn.
--   * Asteroids/Session: the handlers of apps/asteroids/src/Session.cpp on a session and the world.
--   * Asteroids/World: a tick of the game, of Timer.cpp, Universe.cpp and Session.cpp under
--     apps/asteroids/src. Asteroids/World/Creation is the constructor of the universe,
--     Asteroids/World/Timer the timer, and Asteroids/World/Game the game as a state machine.
--
--   * Http/Text, Path, Mime, Handle, Failure: lib/src/ServerUtils.cpp and lib/inc/handle_request.h.
--     A text is a list of bytes; the file system is a function from a path to what opening it gives.
--   * Http/Queue, Connection: http_session of lib/src/geoff.cpp with its queue and its two derived
--     classes. A connection says which asynchronous operations are under way, and an event is the
--     completion of one of them. Http/Pipeline is what the queue promises, and
--     Http/Connection/Refines relates the two, and Http/Connection/Quiet is a connection that has ended.
--   * Http/Server: listener, detect_session and Geoff of lib/src/geoff.cpp,
--     lib/src/SSLContext.cpp and apps/asteroids/src/Main.cpp, around any number of connections.
--
--   * Web: all the web sockets over one map of sessions, by their numbers, with the handlers that
--     OnTxReady has posted. Web/Game makes the ticks of the game its ticks, through
--     Asteroids/Session/Managed, where asteroids::Session fills SessionType. Web/Program is the
--     server, the web sockets and the timer together: an upgrade of a connection makes a web socket.
--   * UniquePtrTest: the experiment UniquePtrTest/UniquePtrTest.cpp, apart from the server.
--
-- A browser's first request comes over HTTP: the listener accepts a socket, a detect_session finds out
-- whether it speaks TLS, and a connection answers with files until a request asks for a web socket.
-- What the code takes from Boost is a parameter: the comparison of extensions without regard to case,
-- prepare_payload, is_upgrade, need_eof and make_address.
--
-- Machine integers are natural numbers, reduced modulo 2 ^ 16 or 2 ^ 32 where the source stores
-- them, and m_lives_left, an int, is its 32 bits; sizes are taken not to overflow. Nothing needs fuel: all loops run over lists. The operations
-- of a session are one step each, as their mutexes make them.
--
-- Not modelled: sockets, TLS, the parsing of HTTP, timeouts, threads and signals (Boost and OpenSSL),
-- traces, and the client's JavaScript.
pub mod Prelude
pub mod SortedMap
pub mod Words
pub mod AppBuffer
pub mod Double
pub mod Websock
pub mod Sessions
pub mod GameSession
pub mod Asteroids
pub mod Http
pub mod Web
pub mod UniquePtrTest
