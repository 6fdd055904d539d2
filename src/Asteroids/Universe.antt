-- ===== src/Asteroids/Universe.antt =====
-- Universe::PerSessionTickEvent of apps/asteroids/src/Universe.cpp: what a client is told of the
-- universe. `sessions` is the map of the sessions, in the order of their ids, each with its player
-- if it has one yet.
pub mod Packet
use geoff.Prelude.{
  ◌>>=◌, ℕ, ◌+◌, ◌*◌, Bool, List, [], ◌∷◌, ◌++◌, Option, none, some, length, ◌==◌, if◌then◌else◌,
}
use geoff.Words.{Host}
use geoff.AppBuffer.{AppBuffer, make, extend}
use geoff.AppBuffer.Message.{Field, u8, u16, u32, write}
use geoff.Double.{Double}
use geoff.Asteroids.Structs.{Size}
use geoff.Asteroids.Consts.{fp_4_12}
use geoff.Asteroids.Gun.{Gun}
use geoff.Asteroids.RockField.{Node}
use geoff.Asteroids.Ship.{Ship}
use geoff.Asteroids.Player.{Player, Client}

-- UniverseTickMessage
abbrev pub universe_tick_message : ℕ
universe_tick_message = 9

-- The ships of the sessions that have a player, but for the one with the given id.
pub others : {W : Type 0} → ℕ → List (ℕ × Option (Player W)) → List (Ship W)
others self [] = []
others self ((id, none) ∷ sessions) = others self sessions
others self ((id, some p) ∷ sessions) =
    let rest = others self sessions in if id == self then rest else p.ship ∷ rest

abbrev pub bullet_count : {W : Type 0} → List (Ship W) → ℕ
bullet_count [] = 0
bullet_count (s ∷ ships) = length s.gun + bullet_count ships

module _ ⦃host : Host⦄ where
  -- A buffer with room for a count and `width` bytes for each of what is counted, and these.
  append : Bool → (count width : ℕ) → List Field → AppBuffer → Option AppBuffer
  append flag count width fields tx = do
    tx' ← extend tx (2 + count * width) flag
    write (u16 count ∷ fields) tx'

module _ {W : Type 0} ⦃d : Double W⦄ where
  open d use {mul, to_u16, to_i16}

  abbrev pub header : Size W → Client → List Field
  header universe c =
      u8 0xBB
      ∷ u8 universe_tick_message
      ∷ u32 c.session_id
      ∷ u32 c.tick_count
      ∷ u16 (to_u16 universe.size_w)
      ∷ u16 (to_u16 universe.size_h)
      ∷ []

  abbrev pub rock_fields : List (Node W) → List Field
  rock_fields [] = []
  rock_fields (n ∷ rocks) =
      u16 (to_i16 n.rock.pos_x)
      ∷ u16 (to_i16 n.rock.pos_y)
      ∷ u16 (to_u16 n.rock.radius)
      ∷ rock_fields rocks

  abbrev pub ship_fields : List (Ship W) → List Field
  ship_fields [] = []
  ship_fields (s ∷ ships) =
      u16 (to_u16 s.motion.pos_x)
      ∷ u16 (to_u16 s.motion.pos_y)
      ∷ u16 (to_u16 (mul s.motion.angle fp_4_12))
      ∷ ship_fields ships

  abbrev pub gun_fields : Gun W → List Field
  gun_fields [] = []
  gun_fields (b ∷ g) = u16 (to_i16 b.pos_x) ∷ u16 (to_i16 b.pos_y) ∷ gun_fields g

  abbrev pub bullet_fields : List (Ship W) → List Field
  bullet_fields [] = []
  bullet_fields (s ∷ ships) = gun_fields s.gun ++ bullet_fields ships

  module _ ⦃host : Host⦄ where
    -- The bullets of the other ships, if there are any.
    append_bullets : Bool → List (Ship W) → AppBuffer → Option AppBuffer
    append_bullets flag ships tx =
        if bullet_count ships == 0
        then some tx
        else append flag (bullet_count ships) (2 * 2) (bullet_fields ships) tx

    -- The other ships and their bullets, if there are any.
    append_ships : Bool → List (Ship W) → AppBuffer → Option AppBuffer
    append_ships flag [] tx = some tx
    append_ships flag (s ∷ ships) tx = do
      tx' ← append flag (length (s ∷ ships)) (3 * 2) (ship_fields (s ∷ ships)) tx
      append_bullets flag (s ∷ ships) tx'

    -- Universe::PerSessionTickEvent, with the buffer that it commits.
    pub tick_message :
        Size W → List (Node W) → List (ℕ × Option (Player W)) → Client → Option AppBuffer
    tick_message universe rocks sessions c = do
      tx1 ← write (header universe c) (make 14 c.is_little_endian)
      tx2 ← append c.is_little_endian (length rocks) (3 * 2) (rock_fields rocks) tx1
      append_ships c.is_little_endian (others c.session_id sessions) tx2
