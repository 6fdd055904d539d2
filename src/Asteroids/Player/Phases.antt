-- ===== src/Asteroids/Player/Phases.antt =====
-- The phases of a game in apps/asteroids/src/Player.cpp: which of them a player can be in, and what
-- a new game begins with.
use geoff.Prelude.{ℕ, ◌<◌, ◌≡◌, ◌≢◌, refl, Bool, true, false, arith, ◌⊎◌}
use geoff.Words.{u32_mod}
use geoff.Double.{Double}
use geoff.Asteroids.Structs.{Size}
use geoff.Asteroids.Consts.{num_lives}
use geoff.Asteroids.Ship.{Ship, new_life, resurrect}
use geoff.Asteroids.Ship
use geoff.Asteroids.Ship.Lives.{
  IsShip, create-IsShip, resurrect-IsShip, key_event-IsShip, resize_event-IsShip, tick_event-IsShip,
}
use geoff.Asteroids.Player.{
  Player, in_lobby, playing, game_over, is_playing, create, key_event, resize_event, advance,
  add_to_score, tick_ship, end_game,
}

-- What holds of every player: a dead ship is not being played, and a game is over only if the ship
-- is dead.
pub record IsPlayer {W : Type 0} (p : Player W) : Type 0 where
  pub ship : IsShip p.ship
  pub score_lt : p.score < u32_mod
  pub dead_is_over : p.ship.dead ≡ true → is_playing p.phase ≡ false
  pub over_is_dead : p.phase ≡ game_over → p.ship.dead ≡ true

in_lobby_open : in_lobby ≢ game_over
in_lobby_open e = cc

module _ {W : Type 0} ⦃d : Double W⦄ where
  pub create-IsPlayer : (u : Size W) (w h : W) → IsPlayer (create u w h)
  unfolding create
  create-IsPlayer u w h = record {
    ship = create-IsShip u _ _ _ _ _;
    score_lt = omega arith;
    dead_is_over = λ _. refl;
    over_is_dead = λ e. absurd (in_lobby_open e);
  }

  resurrect_alive : (s : Ship W) → (resurrect s).dead ≡ false
  unfolding resurrect new_life
  resurrect_alive s = refl

  key_event_frame :
      (key : ℕ) (is_down : Bool) (s : Ship W) → (Ship.key_event key is_down s).dead ≡ s.dead
  unfolding Ship.key_event Ship.fire_guns
  key_event_frame key is_down s = ground arith

  pub key_event-IsPlayer :
      (key : ℕ) (is_down : Bool) (p : Player W) → IsPlayer p → IsPlayer (key_event key is_down p)
  unfolding key_event
  key_event-IsPlayer key is_down p h =
      let s = Ship.key_event key is_down p.ship in
      let s-IsShip = key_event-IsShip key is_down p.ship h.ship in
      ground (
        arith,
        key_event_frame key is_down p.ship,
        s-IsShip,
        resurrect-IsShip s s-IsShip,
        resurrect_alive s,
      )

  tick_ship-IsPlayer : (u : Size W) (p : Player W) → IsPlayer p → IsShip (tick_ship u p).ship
  unfolding tick_ship
  tick_ship-IsPlayer u p h = ground (arith, tick_event-IsShip u p.ship h.ship)

  pub advance-IsPlayer : (u : Size W) (p : Player W) → IsPlayer p → IsPlayer (advance u p)
  unfolding advance tick_ship end_game
  advance-IsPlayer u p h = ground (arith, tick_event-IsShip u p.ship h.ship)

  pub resize_event-IsPlayer :
      (u : Size W) (w h : ℕ) (p : Player W) → IsPlayer p → IsPlayer (resize_event u w h p)
  unfolding resize_event Ship.resize_event
  resize_event-IsPlayer u w h p i = ground (arith, resize_event-IsShip u w h p.ship i.ship)

  pub add_to_score-IsPlayer : (n : ℕ) (p : Player W) → IsPlayer p → IsPlayer (add_to_score n p)
  unfolding add_to_score
  add_to_score-IsPlayer n p i = ground arith

  resurrect_whole :
      (s : Ship W)
      → ((resurrect s).lives_left ≡ num_lives)
        × ((resurrect s).invulnerable ≡ true)
        × ((resurrect s).exploding ≡ false)
  unfolding resurrect new_life
  resurrect_whole s = (refl, refl, refl)

  -- Any key that is pressed when the game of a player is over begins a new one: the score is 0, and
  -- the ship is alive, not exploding and invulnerable with all its lives.
  pub key_event_restart :
      (key : ℕ) (p : Player W)
      → IsPlayer p
      → p.phase ≡ game_over
      → let p' = key_event key true p in
        (p'.phase ≡ playing)
        × (p'.score ≡ 0)
        × (p'.ship.dead ≡ false)
        × (p'.ship.lives_left ≡ num_lives)
        × (p'.ship.invulnerable ≡ true)
        × (p'.ship.exploding ≡ false)
  unfolding key_event
  key_event_restart key p i e =
      let s = Ship.key_event key true p.ship in
      ground (
        arith,
        i.over_is_dead e,
        key_event_frame key true p.ship,
        resurrect_alive s,
        resurrect_whole s,
      )

  -- While a game is played no key changes the score or the phase, and a key that is released never
  -- does.
  pub key_event_playing :
      (key : ℕ) (is_down : Bool) (p : Player W)
      → (p.phase ≡ playing) ⊎ (is_down ≡ false)
      → let p' = key_event key is_down p in
        (p'.phase ≡ p.phase) × (p'.score ≡ p.score) × (p'.ship.dead ≡ p.ship.dead)
  unfolding key_event
  key_event_playing key is_down p h = ground (arith, key_event_frame key is_down p.ship)
