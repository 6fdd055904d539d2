-- ===== src/Asteroids/World.antt =====
-- A tick of the whole game: Timer::TickEvent of apps/asteroids/src/Timer.cpp, Universe::TickEvent of
-- Universe.cpp, and Session::TickEvent of Session.cpp. The sessions are those of g_sessions, where a
-- null pointer is `none`; the timer runs, and g_universe is there.
pub mod Total
pub mod Creation
pub mod Timer
pub mod Waiting
pub mod Ticks
pub mod Similar
pub mod Nulls
pub mod Game
pub mod Running
mod RunningExamples
pub mod Examples
use geoff.Prelude.{◌>>=◌, ℕ, List, [], ◌∷◌, Option, none, some}
use geoff.Words.{Host}
use geoff.SortedMap.{SortedMap}
use geoff.Double.{Double}
use geoff.Asteroids.RockField
use geoff.Asteroids.Player.{Player, Client}
use geoff.Asteroids.Player
use geoff.Asteroids.Collision.{collision_detection}
use geoff.Asteroids.Universe.{tick_message}
use geoff.Asteroids.Session.{Session, World, player_of, put_player, commit}

abbrev pub SessionMap : Type 0
SessionMap = SortedMap (Option Session)

module _ {W : Type 0} where
  abbrev pub client : Session → World W → Client
  client s w = record {
    session_id = s.websock.session_id;
    is_little_endian = s.websock.is_little_endian;
    tick_count = w.ticks;
  }

  -- The sessions with their players, as each of them finds them.
  pub peers : SessionMap → World W → Option (List (ℕ × Option (Player W)))
  peers [] w = some []
  peers ((id, none) ∷ m) w = none
  peers ((id, some s) ∷ m) w = do rest ← peers m w; some ((id, player_of s w) ∷ rest)

module _ {W : Type 0} ⦃d : Double W⦄ ⦃host : Host⦄ where
  -- A session without a player is told nothing.
  pub tell_one :
      List (ℕ × Option (Player W)) → Session → World W → Option (Player W) → Option Session
  tell_one all s w none = some s
  tell_one all s w (some p) = do
    tx ← tick_message w.universe w.field.rocks all (client s w)
    some (commit tx s)

  -- The loop of Universe::TickEvent: a null pointer in the map is followed.
  pub tell : List (ℕ × Option (Player W)) → SessionMap → World W → Option SessionMap
  tell all [] w = some []
  tell all ((id, none) ∷ m) w = none
  tell all ((id, some s) ∷ m) w = do
    s' ← tell_one all s w (player_of s w)
    m' ← tell all m w
    some ((id, some s') ∷ m')

  -- Session::TickEvent, up to the call of OnTxReady.
  pub act : Session → World W → Option (Player W) → Option (Session × World W)
  act s w none = some (s, w)
  act s w (some p) = do
    (p', tx) ← Player.tick_event w.universe (client s w) p
    some (commit tx s, put_player s p' w)

  -- The loop of Timer::TickEvent, which passes over null pointers.
  pub act_all : SessionMap → World W → Option (SessionMap × World W)
  act_all [] w = some ([], w)
  act_all ((id, none) ∷ m) w = do (m', w') ← act_all m w; some ((id, none) ∷ m', w')
  act_all ((id, some s) ∷ m) w = do
    (s', w1) ← act s w (player_of s w)
    (m', w2) ← act_all m w1
    some ((id, some s') ∷ m', w2)

  module _ (rand : ℕ → ℕ) (rand_max : ℕ) where
    -- Universe::TickEvent
    pub universe_tick : ℕ → SessionMap → World W → Option (SessionMap × World W)
    universe_tick count m w = do
      (players, field) ←
          collision_detection rand rand_max w.players (RockField.tick_event w.universe w.field)
      let w' = record w { ticks = count; field = field; players = players }
      all ← peers m w'
      m' ← tell all m w'
      some (m', w')

    -- Timer::TickEvent
    pub tick : ℕ → SessionMap → World W → Option (SessionMap × World W)
    tick count m w = do (m', w') ← universe_tick count m w; act_all m' w'
