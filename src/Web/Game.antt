-- ===== src/Web/Game.antt =====
-- The game under the web sockets: the ticks of apps/asteroids/src/Timer.cpp and Universe.cpp are ticks
-- of the server (apps/AppSession.h makes asteroids::Session the type of its sessions).
use geoff.Prelude.{ℕ, ◌≡◌, refl, some, ◌∙◌}
use geoff.Words.{Host}
use geoff.Double.{Double}
use geoff.Sessions.{Sessions}
use geoff.Sessions.Reachable.{IsSessions}
use geoff.Asteroids.Session.{Session, World}
use geoff.Asteroids.Session.Managed.{game_sessions, Unchanged, game-Unchanged}
use geoff.Asteroids.World.{SessionMap, tick}
use geoff.Asteroids.World.Similar.{tick-SameMap}
use geoff.Web.{Ticked}

-- The sessions and the universe after a tick.
abbrev pub after :
    {W : Type 0} → SessionMap × World W → Sessions Session (World W) → Sessions Session (World W)
after (map, world) m = record m { map = map; world = world }

module _ {W : Type 0} ⦃d : Double W⦄ ⦃host : Host⦄ (rand : ℕ → ℕ) (rand_max : ℕ) where
  -- A tick of the game that does not fault changes the sessions in place: no session is new, none is
  -- lost, and each keeps its id and the web socket that it calls back.
  pub tick-Ticked :
      (count : ℕ) (m : Sessions Session (World W)) (q : SessionMap × World W)
      → IsSessions (game_sessions rand rand_max) m
      → tick rand rand_max count m.map m.world ≡ some q
      → Ticked (game_sessions rand rand_max) m (after q m)
  tick-Ticked count m q i e =
      let t = game_sessions rand rand_max in
      let same = tick-SameMap rand rand_max count m.map m.world q e in
      record {
        sessions = record {
          sorted = same.sorted i.sorted;
          keyed = λ id x' e'.
              let (x, e0, h) = same.kept id x' e' in
              let u : Unchanged t x x' = game-Unchanged rand rand_max x x' h in
              u.same_id ∙ i.keyed id x e0;
          next_lt = i.next_lt;
        };
        next = refl;
        present = λ k (x, e'). let (x', e1, _) = same.present k x e' in (x', e1);
        kept = λ k x' e'.
            let (x, e0, h) = same.kept k x' e' in
            let u : Unchanged t x x' = game-Unchanged rand rand_max x x' h in
            (x, e0, u.same_callback);
      }
