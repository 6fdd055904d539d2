-- ===== src/Asteroids/World/Nulls.antt =====
-- A tick over a null pointer in the map of the sessions, which Universe::TickEvent follows
-- (apps/asteroids/src/Universe.cpp, Timer.cpp).
use geoff.Prelude.{
  ℕ, ◌≡◌, List, [], ◌∷◌, Option, none, some, sym, ◌∙◌, arith, >>=-eq-some, subst, Option-cases, inl,
  inr,
}
use mathlib.Core.Option.{some-injective, some-ne-none}
use geoff.Words.{Host}
use geoff.Double.{Double}
use geoff.SortedMap.{lookup}
use geoff.Asteroids.RockField
use geoff.Asteroids.Player.{Player}
use geoff.Asteroids.Collision.{collision_detection}
use geoff.Asteroids.Session.{World, player_of}
use geoff.Asteroids.Session.Keeps.{IsWorld}
use geoff.Asteroids.World.{SessionMap, peers, tell_one, tell, universe_tick, tick}
use geoff.Asteroids.World.Total.{NoNull, tick-IsWorld}
use geoff.Asteroids.World.Ticks.{tick-hit}

NoNull-lookup : (id : ℕ) (m : SessionMap) → lookup id m ≡ some none → NoNull m → ⊥
unfolding lookup
NoNull-lookup id [] e h = some-ne-none _ (sym e)
NoNull-lookup id ((k, none) ∷ m) e h = h
NoNull-lookup id ((k, some s) ∷ m) e h = ground (arith, NoNull-lookup id m)

module _ {W : Type 0} ⦃d : Double W⦄ ⦃host : Host⦄ where
  tell-none_null :
      (all : List (ℕ × Option (Player W))) (m m' : SessionMap) (w : World W)
      → tell all m w ≡ some m'
      → NoNull m
  unfolding tell
  tell-none_null all [] m' w e = tt
  tell-none_null all ((id, none) ∷ m) m' w e = absurd (some-ne-none _ (sym e))
  tell-none_null all ((id, some s) ∷ m) m' w e =
      let (s', _, e1) = >>=-eq-some (tell_one all s w (player_of s w)) _ e in
      let (m1, told, _) = >>=-eq-some (tell all m w) _ e1 in tell-none_null all m m1 w told

  module _ (rand : ℕ → ℕ) (rand_max count : ℕ) (m : SessionMap) (w : World W) where
    pub tick-none_null :
        (q : SessionMap × World W) → tick rand rand_max count m w ≡ some q → NoNull m
    unfolding tick universe_tick
    tick-none_null q e =
        let ((m1, w1), u, _) = >>=-eq-some (universe_tick rand rand_max count m w) _ e in
        let ((players, field), _, e1) =
          >>=-eq-some
            (collision_detection rand rand_max w.players (RockField.tick_event w.universe w.field))
            _ u in
        let (all, _, e2) = >>=-eq-some (peers m _) _ e1 in
        let (m', told, _) = >>=-eq-some (tell all m _) _ e2 in tell-none_null all m m' _ told

    -- When a null pointer stands in the map of the sessions, the next tick is undefined, whatever
    -- the players and the rocks are.
    pub tick-null : (id : ℕ) → lookup id m ≡ some none → tick rand rand_max count m w ≡ none
    tick-null id e = elim (Option-cases (tick rand rand_max count m w)) [
      | inl undefined ↦ undefined
      | inr (q, run) ↦ absurd (NoNull-lookup id m e (tick-none_null q run))
    ]

    -- A tick that goes through keeps the players and the rocks as they must be.
    pub ran-IsWorld :
        (q : SessionMap × World W) → tick rand rand_max count m w ≡ some q → IsWorld w → IsWorld q.1
    ran-IsWorld q e i =
        let (hit, c) = tick-hit rand rand_max count m w q e in
        let (q', run, world) = tick-IsWorld rand rand_max count m w hit i (tick-none_null q e) c in
        subst (λ r. IsWorld r.1) (some-injective _ _ (sym run ∙ e)) world
