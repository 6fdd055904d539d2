-- ===== src/Asteroids/World/Total.antt =====
-- A tick of the game does not fault (apps/asteroids/src/Timer.cpp, Universe.cpp and Session.cpp).
use geoff.Prelude.{ℕ, ◌<◌, ◌≡◌, refl, ap, List, [], ◌∷◌, Option, none, some, ◌>>=◌, arith, length}
use geoff.Words.{Host, u16_mod}
use geoff.Double.{Double}
use geoff.Asteroids.RockField
use geoff.Asteroids.RockField.{RockField}
use geoff.Asteroids.RockField.Nodes.{tick_event-IsList}
use geoff.Asteroids.Player.{Player, advance}
use geoff.Asteroids.Player.Packet.{player_message}
use geoff.Asteroids.Player.Phases.{IsPlayer, advance-IsPlayer}
use geoff.Asteroids.Collision.{collision_detection}
use geoff.Asteroids.Collision.Keeps.{collision_detection-IsPlayer}
use geoff.Asteroids.Universe.Packet.{universe_message}
use geoff.Asteroids.Session.{Session, World, player_of, put_player, commit}
use geoff.Asteroids.Session.Keeps.{IsWorld, player_of-IsPlayer, put_player-IsWorld}
use geoff.Asteroids.World.{
  SessionMap, client, peers, tell_one, tell, act, act_all, universe_tick, tick,
}

-- No null pointer is in the map.
abbrev pub NoNull : SessionMap → Type 0
NoNull [] = Unit
NoNull ((id, none) ∷ m) = ⊥
NoNull ((id, some s) ∷ m) = NoNull m

module _ {W : Type 0} where
  peers-NoNull :
      (m : SessionMap) (w : World W)
      → NoNull m
      → (all : List (ℕ × Option (Player W))) × (peers m w ≡ some all)
  unfolding peers
  peers-NoNull [] w h = ([], refl)
  peers-NoNull ((id, none) ∷ m) w h = absurd h
  peers-NoNull ((id, some s) ∷ m) w h =
      let (all, e) = peers-NoNull m w h in ((id, player_of s w) ∷ all, rw e)

module _ {W : Type 0} ⦃d : Double W⦄ ⦃host : Host⦄ where
  tell_one-some :
      (all : List (ℕ × Option (Player W))) (s : Session) (w : World W) (o : Option (Player W))
      → (s' : Session) × (tell_one all s w o ≡ some s')
  unfolding tell_one
  tell_one-some all s w none = (s, refl)
  tell_one-some all s w (some p) =
      let e = universe_message w.universe w.field.rocks all (client s w) in
      (_, ap (λ out. out >>= (λ tx. some (commit tx s))) e)

  tell-NoNull :
      (all : List (ℕ × Option (Player W))) (m : SessionMap) (w : World W)
      → NoNull m
      → (m' : SessionMap) × (tell all m w ≡ some m')
  unfolding tell
  tell-NoNull all [] w h = ([], refl)
  tell-NoNull all ((id, none) ∷ m) w h = absurd h
  tell-NoNull all ((id, some s) ∷ m) w h =
      let (s', e) = tell_one-some all s w (player_of s w) in
      let (m', e') = tell-NoNull all m w h in ((id, some s') ∷ m', rw (e, e'))

  -- A session's tick goes through, and keeps the world.
  act-IsWorld :
      (s : Session) (w : World W) (o : Option (Player W))
      → IsWorld w
      → ((p : Player W) → o ≡ some p → IsPlayer p)
      → (q : Session × World W) × (act s w o ≡ some q) × IsWorld q.1
  unfolding act
  act-IsWorld s w none i h = ((s, w), refl, i)
  act-IsWorld s w (some p) i h =
      let i' = advance-IsPlayer w.universe p (h p refl) in
      let few : length (advance w.universe p).ship.gun < u16_mod =
        omega (arith, i'.ship.magazine.fits) in
      let e = player_message w.universe (client s w) p few in
      (
        (commit _ s, put_player s (advance w.universe p) w),
        ap (λ out. out >>= (λ (p', tx). some (commit tx s, put_player s p' w))) e,
        put_player-IsWorld s w _ i i',
      )

  act_all-IsWorld :
      (m : SessionMap) (w : World W)
      → IsWorld w
      → (q : SessionMap × World W) × (act_all m w ≡ some q) × IsWorld q.1
  unfolding act_all
  act_all-IsWorld [] w i = (([], w), refl, i)
  act_all-IsWorld ((id, none) ∷ m) w i =
      let ((m', w'), e, i') = act_all-IsWorld m w i in (((id, none) ∷ m', w'), rw e, i')
  act_all-IsWorld ((id, some s) ∷ m) w i =
      let ((s', w1), e, i1) = act-IsWorld s w (player_of s w) i (λ p. player_of-IsPlayer s w p i) in
      let ((m', w2), e', i2) = act_all-IsWorld m w1 i1 in (((id, some s') ∷ m', w2), rw (e, e'), i2)

  module _ (rand : ℕ → ℕ) (rand_max : ℕ) where
    -- In a world whose players are as IsPlayer says and whose rocks are a list, with no null
    -- pointer among the sessions: if the collision detection of a tick goes through, the whole tick
    -- does, so every message to every client fits its buffer, and the world stays such.
    pub tick-IsWorld :
        (count : ℕ) (m : SessionMap) (w : World W) (hit : List (ℕ × Player W) × RockField W)
        → IsWorld w
        → NoNull m
        → collision_detection rand rand_max w.players (RockField.tick_event w.universe w.field)
          ≡ some hit
        → (q : SessionMap × World W) × (tick rand rand_max count m w ≡ some q) × IsWorld q.1
    unfolding tick universe_tick
    tick-IsWorld count m w (players, field) i h e =
        let (ps, rs, _) =
          collision_detection-IsPlayer rand rand_max w.players players
            (RockField.tick_event w.universe w.field) field i.players
            (tick_event-IsList w.universe w.field i.rocks) e in
        let w' = record w { ticks = count; field = field; players = players } in
        let i' : IsWorld w' = record { players = ps; rocks = rs } in
        let (all, e1) = peers-NoNull m w' h in
        let (m', e2) = tell-NoNull all m w' h in
        let (q, e3, i3) = act_all-IsWorld m' w' i' in (q, rw e (rw e1 (rw e2 e3)), i3)
