-- ===== src/Asteroids/Player.antt =====
-- apps/asteroids/inc/Player.h and src/Player.cpp: a player, with the ship. `m_deltaX` and `m_deltaY`
-- are never read and are left out; of the session a player reads its id and its byte order.
pub mod Phases
pub mod Packet
use geoff.Prelude.{
  ◌>>=◌, ℕ, ◌+◌, ◌%◌, Bool, true, false, not, ◌&&◌, List, [], ◌∷◌, Option, some, if◌then◌else◌,
}
use geoff.Words.{Host, u16_mod, u32_mod}
use geoff.AppBuffer.{AppBuffer, make, concat}
use geoff.AppBuffer.Message.{Field, u8, u16, u32, write}
use geoff.Double.{Double}
use geoff.Asteroids.Structs.{Context, Size}
use geoff.Asteroids.Consts.{degrees_to_rads, rock_radius}
use geoff.Asteroids.RockField.{RockField}
use geoff.Asteroids.RockField
use geoff.Asteroids.Ship.{Ship, centre_offset, resurrect}
use geoff.Asteroids.Ship
use geoff.Asteroids.Ship.Buffer

-- GamePhase
pub data Phase : Type 0 where
  in_lobby playing game_over : Phase

abbrev pub number : Phase → ℕ
number in_lobby = 0
number playing = 1
number game_over = 2

abbrev pub is_playing : Phase → Bool
is_playing in_lobby = false
is_playing playing = true
is_playing game_over = false

pub record Player (W : Type 0) : Type 0 where
  pub context : Context
  pub size : Size W
  pub ship : Ship W
  pub score : ℕ
  pub phase : Phase

-- What a player reads of its session, and the ticks of the universe.
pub record Client : Type 0 where
  pub session_id : ℕ
  pub is_little_endian : Bool
  pub tick_count : ℕ

-- PlayerTickMessage
abbrev pub player_tick_message : ℕ
player_tick_message = 7

module _ {W : Type 0} where
  unfoldable pub add_to_score : ℕ → Player W → Player W
  add_to_score increment p = record p { score = (p.score + increment) % u32_mod }

  -- The header of a player's tick message.
  abbrev pub header : Client → Player W → List Field
  header c p =
      u8 0xBB
      ∷ u8 player_tick_message
      ∷ u32 c.session_id
      ∷ u32 c.tick_count
      ∷ u16 p.context.ctx_w
      ∷ u16 p.context.ctx_h
      ∷ u16 p.context.ctx_ox
      ∷ u16 p.context.ctx_oy
      ∷ u32 p.score
      ∷ u16 (number p.phase)
      ∷ []

module _ {W : Type 0} ⦃d : Double W⦄ where
  open d use {of_nat, div, mul, to_u16}

  -- The window of a player, in the middle of the universe.
  abbrev pub window : Size W → ℕ → ℕ → Context
  window universe w h = record {
    ctx_w = w;
    ctx_h = h;
    ctx_ox = centre_offset universe.size_w w;
    ctx_oy = centre_offset universe.size_h h;
  }

  -- Player(width, height)
  unfoldable pub create : Size W → (width height : W) → Player W
  create universe width height = record {
    context = window universe (to_u16 width) (to_u16 height);
    size = record { size_w = width; size_h = height };
    ship =
        Ship.create universe (to_u16 width) (to_u16 height) (div universe.size_w (of_nat 2))
          (div universe.size_h (of_nat 2)) (mul (of_nat 90) degrees_to_rads);
    score = 0;
    phase = in_lobby;
  }

  -- The first key that is pressed starts a game, with a new ship if the old one is dead.
  unfoldable pub key_event : ℕ → Bool → Player W → Player W
  key_event key is_down p =
      let ship = Ship.key_event key is_down p.ship in
      if is_down && not (is_playing p.phase)
      then (if ship.dead
          then record p { ship = resurrect ship; score = 0; phase = playing }
          else record p { ship = ship; phase = playing })
      else record p { ship = ship }

  unfoldable pub resize_event : Size W → ℕ → ℕ → Player W → Player W
  resize_event universe w h p = record p {
    size = record { size_w = of_nat w; size_h = of_nat h };
    context = window universe (w % u16_mod) (h % u16_mod);
    ship = Ship.resize_event universe w h p.ship;
  }

  -- A ship that is alive takes its tick. The window is where the ship's was before that.
  tick_ship : Size W → Player W → Player W
  tick_ship universe p = if p.ship.dead then p else record p {
    context = record (p.context) { ctx_ox = p.ship.motion.ctx_ox; ctx_oy = p.ship.motion.ctx_oy };
    ship = Ship.tick_event universe p.ship;
  }

  end_game : Player W → Player W
  end_game p = if p.ship.dead && is_playing p.phase then record p { phase = game_over } else p

  -- Player::TickEvent up to the messages.
  pub advance : Size W → Player W → Player W
  advance universe p = end_game (tick_ship universe p)

  module _ (rand : ℕ → ℕ) (rand_max : ℕ) where
    -- A click launches a rock, where the window of the ship shows it.
    unfoldable pub click_event : ℕ → ℕ → Player W → RockField W → RockField W
    click_event x y p f =
        RockField.launch_one rand rand_max (of_nat (x + p.ship.motion.ctx_ox))
          (of_nat (y + p.ship.motion.ctx_oy)) rock_radius f

  module _ ⦃host : Host⦄ where
    -- Player::MakeBuffer
    pub make_buffer : Client → Player W → Option AppBuffer
    make_buffer c p = write (header c p) (make 24 c.is_little_endian)

    -- The player after a tick, and the message for its client.
    pub tick_event : Size W → Client → Player W → Option (Player W × AppBuffer)
    tick_event universe c p = do
      let p' = advance universe p
      ship ← Buffer.make_buffer c.is_little_endian p'.ship
      head ← make_buffer c p'
      tx ← concat head ship c.is_little_endian
      some (p', tx)
