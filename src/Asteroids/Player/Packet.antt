-- ===== src/Asteroids/Player/Packet.antt =====
-- The tick message of a player (Player::TickEvent of apps/asteroids/src/Player.cpp).
use geoff.Prelude.{◌<◌, ◌≡◌, refl, ◌++◌, some, length}
use geoff.Words.{Host, u16_mod}
use geoff.AppBuffer.Filled.{filled, concat-filled}
use geoff.AppBuffer.Message.{encode_all}
use geoff.AppBuffer.Message.Laws.{write-make}
use geoff.Double.{Double}
use geoff.Asteroids.Structs.{Size}
use geoff.Asteroids.Ship.Buffer
use geoff.Asteroids.Ship.Buffer.Packet.{trailer, ship_packet}
use geoff.Asteroids.Player.{Player, Client, advance, header, make_buffer, tick_event}

module _ {W : Type 0} ⦃d : Double W⦄ ⦃host : Host⦄ where
  -- A tick of a player whose gun holds fewer than 2 ^ 16 bullets gives the player as `advance`
  -- leaves it, and a full buffer: the header, which shows the score and the phase after the tick,
  -- and the packet of the ship.
  pub player_message :
      (u : Size W) (c : Client) (p : Player W)
      → length (advance u p).ship.gun < u16_mod
      → tick_event u c p
        ≡ some (
          advance u p,
          filled c.is_little_endian
              (encode_all c.is_little_endian (header c (advance u p))
                ++ (encode_all c.is_little_endian
                      (Buffer.header (advance u p).ship (length (advance u p).ship.gun))
                    ++ trailer c.is_little_endian (advance u p).ship.gun))
              0,
        )
  unfolding tick_event make_buffer
  player_message u c p h =
      let flag = c.is_little_endian in
      let p' = advance u p in
      let head = encode_all flag (header c p') in
      let packet =
        encode_all flag (Buffer.header p'.ship (length p'.ship.gun)) ++ trailer flag p'.ship.gun in
      rw (ship_packet flag p'.ship h) (
        rw (write-make flag 24 (header c p') refl)
          (rw (concat-filled flag flag flag head packet 0 0)))
