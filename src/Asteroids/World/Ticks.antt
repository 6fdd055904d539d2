-- ===== src/Asteroids/World/Ticks.antt =====
-- What a tick keeps of the sessions and of the world (apps/asteroids/src/Timer.cpp, Universe.cpp).
use geoff.Prelude.{ℕ, List, [], ◌∷◌, Option, none, some, ◌≡◌, refl, >>=-eq-some, sym, subst, arith}
use mathlib.Core.Option.{some-injective, some-ne-none}
use geoff.Words.{Host}
use geoff.Double.{Double}
use geoff.SortedMap.{insert, remove}
use geoff.Asteroids.RockField
use geoff.Asteroids.RockField.{RockField}
use geoff.Asteroids.Player.{Player}
use geoff.Asteroids.Player
use geoff.Asteroids.Collision.{collision_detection}
use geoff.Asteroids.Session.{Session, World, player_of}
use geoff.Asteroids.Session.Sky.{SameSky, put_player-SameSky}
use geoff.Asteroids.World.{
  SessionMap, client, peers, tell_one, tell, act, act_all, universe_tick, tick,
}
use geoff.Asteroids.World.Total.{NoNull}

pub insert-NoNull :
    (id : ℕ) (s : Session) (m : SessionMap) → NoNull m → NoNull (insert id (some s) m)
unfolding insert
insert-NoNull id s [] h = tt
insert-NoNull id s ((k, none) ∷ m) h = absurd h
insert-NoNull id s ((k, some s1) ∷ m) h = ground (arith, insert-NoNull id s m h)

pub remove-NoNull : (id : ℕ) (m : SessionMap) → NoNull m → NoNull (remove id m)
unfolding remove
remove-NoNull id [] h = tt
remove-NoNull id ((k, none) ∷ m) h = absurd h
remove-NoNull id ((k, some s1) ∷ m) h = ground (arith, remove-NoNull id m h)

module _ {W : Type 0} ⦃d : Double W⦄ ⦃host : Host⦄ where
  tell-keeps :
      (all : List (ℕ × Option (Player W))) (m m' : SessionMap) (w : World W)
      → tell all m w ≡ some m'
      → NoNull m'
  unfolding tell
  tell-keeps all [] m' w e = subst NoNull (some-injective _ _ e) tt
  tell-keeps all ((id, none) ∷ m) m' w e = absurd (some-ne-none _ (sym e))
  tell-keeps all ((id, some s) ∷ m) m' w e =
      let (s', _, e1) = >>=-eq-some (tell_one all s w (player_of s w)) _ e in
      let (m1, told, e2) = >>=-eq-some (tell all m w) _ e1 in
      subst NoNull (some-injective _ _ e2) (tell-keeps all m m1 w told)

  -- No null pointer in the map, and the sky of `sky`.
  abbrev Keeps : World W → SessionMap × World W → Type 0
  Keeps sky q = NoNull q.0 × SameSky sky q.1

  act-SameSky :
      (sky : World W) (s s' : Session) (w w' : World W) (o : Option (Player W))
      → SameSky sky w
      → act s w o ≡ some (s', w')
      → SameSky sky w'
  unfolding act
  act-SameSky sky s s' w w' none h e = subst (λ q. SameSky sky q.1) (some-injective _ _ e) h
  act-SameSky sky s s' w w' (some p) h e =
      let ((p', tx), _, e1) = >>=-eq-some (Player.tick_event w.universe (client s w) p) _ e in
      subst (λ q. SameSky sky q.1) (some-injective _ _ e1) (put_player-SameSky sky w s p' h)

  act_all-Keeps :
      (sky : World W) (m : SessionMap) (w : World W) (q : SessionMap × World W)
      → NoNull m
      → SameSky sky w
      → act_all m w ≡ some q
      → Keeps sky q
  unfolding act_all
  act_all-Keeps sky [] w q n h e = subst (Keeps sky) (some-injective _ _ e) (tt, h)
  act_all-Keeps sky ((id, none) ∷ m) w q n h e = absurd n
  act_all-Keeps sky ((id, some s) ∷ m) w q n h e =
      let ((s', w1), acted, e1) = >>=-eq-some (act s w (player_of s w)) _ e in
      let ((m', w2), rest, e2) = >>=-eq-some (act_all m w1) _ e1 in
      subst (Keeps sky) (some-injective _ _ e2)
        (act_all-Keeps sky m w1 (m', w2) n (act-SameSky sky s s' w w1 (player_of s w) h acted) rest)

  module _ (rand : ℕ → ℕ) (rand_max : ℕ) where
    -- A tick leaves no null pointer among the sessions, and changes the sky only in its count.
    pub tick-keeps :
        (count : ℕ) (m : SessionMap) (w : World W) (q : SessionMap × World W)
        → tick rand rand_max count m w ≡ some q
        → NoNull q.0 × SameSky (record w { ticks = count }) q.1
    unfolding tick universe_tick
    tick-keeps count m w q e =
        let ((m1, w1), u, acted) = >>=-eq-some (universe_tick rand rand_max count m w) _ e in
        let ((players, field), _, e1) =
          >>=-eq-some
            (collision_detection rand rand_max w.players (RockField.tick_event w.universe w.field))
            _ u in
        let w' = record w { ticks = count; field = field; players = players } in
        let (all, _, e2) = >>=-eq-some (peers m w') _ e1 in
        let (m', told, e3) = >>=-eq-some (tell all m w') _ e2 in
        let same = some-injective _ _ e3 in
        let n : NoNull m1 = subst (λ r. NoNull r.0) same (tell-keeps all m m' w' told) in
        let sky : SameSky (record w { ticks = count }) w1 =
          subst (λ r. SameSky (record w { ticks = count }) r.1) same (refl, refl, refl) in
        act_all-Keeps (record w { ticks = count }) m1 w1 q n sky acted

    -- A tick that goes through has a collision detection that does.
    pub tick-hit :
        (count : ℕ) (m : SessionMap) (w : World W) (q : SessionMap × World W)
        → tick rand rand_max count m w ≡ some q
        → (hit : List (ℕ × Player W) × RockField W) × (collision_detection rand rand_max w.players
              (RockField.tick_event w.universe w.field)
            ≡ some hit)
    unfolding tick universe_tick
    tick-hit count m w q e =
        let (q1, u, _) = >>=-eq-some (universe_tick rand rand_max count m w) _ e in
        let (hit, c, _) =
          >>=-eq-some
            (collision_detection rand rand_max w.players (RockField.tick_event w.universe w.field))
            _ u in
        (hit, c)
