-- ===== src/Asteroids/World/Running.antt =====
-- What holds of the game in every state that it reaches (apps/asteroids/src/Timer.cpp, Session.cpp and
-- Universe.cpp).
use geoff.Prelude.{
  ℕ, suc, ◌≤◌, ◌≡◌, refl, Bool, true, List, none, some, >>=-eq-some, arith, subst, ap, ◌∙◌, sym,
  length,
}
use mathlib.Core.Option.{some-injective}
use geoff.Words.{Host}
use geoff.Double.{Double}
use geoff.SortedMap.{insert}
use geoff.Asteroids.Consts.{num_stars}
use geoff.Asteroids.RockField
use geoff.Asteroids.RockField.{RockField}
use geoff.Asteroids.Player.{Player}
use geoff.Asteroids.Session.{Session, World, on_message}
use geoff.Asteroids.Session.Keeps.{IsWorld, on_message-IsWorld}
use geoff.Asteroids.Session.Sky.{SameSky, on_message-SameSky}
use geoff.Asteroids.World.{SessionMap, tick}
use geoff.Asteroids.World.Creation.{get_universe, create, length-create, create-IsWorld}
use geoff.Asteroids.World.Timer.{Timer, start, tick_event, ticker}
use geoff.Asteroids.World.Waiting.{reschedule_running, start_running}
use geoff.Asteroids.World.Total.{tick-IsWorld}
use geoff.Asteroids.World.Ticks.{tick-keeps, tick-hit}
use geoff.Asteroids.World.Nulls.{tick-none_null}
use geoff.Asteroids.World.Game.{
  Game, Step, joined, left, found, message, ticked, wait_failed, Reach, begin, later,
}

module _ {W : Type 0} ⦃d : Double W⦄ where
  open d use {of_nat}

  -- What holds of the game between two handlers.
  pub record IsGame (g : Game W) : Type 0 where
    pub world : IsWorld g.world
    pub size : g.world.universe ≡ record { size_w = of_nat 8192; size_h = of_nat 8192 }
    pub stars : length g.world.stars ≡ num_stars
    pub ticks : g.world.ticks ≡ 0
    pub tick_count : g.timer.tick_count ≡ 0
    pub runs : g.timer.run_timer ≡ true
    pub one_wait : g.timer.waiting ≤ 1

  -- A world with the same sky has what IsGame says of the sky.
  abbrev IsSky : World W → Type 0
  IsSky w =
      (w.universe ≡ record { size_w = of_nat 8192; size_h = of_nat 8192 })
      × (length w.stars ≡ num_stars)
      × (w.ticks ≡ 0)

  SameSky-IsSky : (w w' : World W) → SameSky w w' → IsSky w → IsSky w'
  SameSky-IsSky w w' (size, stars, ticks) (h1, h2, h3) =
      (size ∙ h1, ap (λ l. length l) stars ∙ h2, ticks ∙ h3)

  module _ ⦃host : Host⦄ (rand : ℕ → ℕ) (rand_max : ℕ) where
    begin-IsGame :
        (interval : ℕ) (ec : Bool) (m : SessionMap)
        → IsGame (record {
          timer = start interval ec;
          sessions = m;
          world = get_universe rand rand_max none;
        })
    unfolding get_universe create
    begin-IsGame interval ec m =
        let (c, r, o) = start_running interval ec in
        record {
          world = create-IsWorld W rand rand_max 8192 8192;
          size = refl;
          stars = length-create W rand rand_max 8192 8192;
          ticks = refl;
          tick_count = c;
          runs = r;
          one_wait = o;
        }

    -- The tick of a running timer is a tick of the world, with the count 0.
    tick_event_running :
        (t : Timer) (m : SessionMap) (w : World W)
        → t.run_timer ≡ true
        → t.tick_count ≡ 0
        → tick_event rand rand_max t m w ≡ tick rand rand_max 0 m w
    unfolding tick_event
    tick_event_running t m w r c = rw (r, c) refl

    ticked-IsGame :
        (g : Game W) (n : ℕ) (ec : Bool) (t' : Timer) (m' : SessionMap) (w' : World W)
        → IsGame g
        → g.timer.waiting ≡ suc n
        → ticker rand rand_max ec (record g.timer { waiting = n }) g.sessions g.world
          ≡ some (t', m', w')
        → IsGame (record { timer = t'; sessions = m'; world = w' })
    unfolding ticker
    ticked-IsGame g n ec t' m' w' i e h =
        let t = record g.timer { waiting = n } in
        let ((m1, w1), event, h1) =
          >>=-eq-some (tick_event rand rand_max t g.sessions g.world) _ h in
        let run : tick rand rand_max 0 g.sessions g.world ≡ some (m1, w1) =
          sym (tick_event_running t g.sessions g.world i.runs i.tick_count) ∙ event in
        let (_, sky) = tick-keeps rand rand_max 0 g.sessions g.world (m1, w1) run in
        let (hit, c) = tick-hit rand rand_max 0 g.sessions g.world (m1, w1) run in
        let no_null = tick-none_null rand rand_max 0 g.sessions g.world (m1, w1) run in
        let (q, run', world) =
          tick-IsWorld rand rand_max 0 g.sessions g.world hit i.world no_null c in
        let (count, running, one) = reschedule_running ec g.timer n i.runs e i.one_wait in
        let (size, stars, ticks) =
          SameSky-IsSky (record g.world { ticks = 0 }) w1 sky (i.size, i.stars, refl) in
        subst (λ r. IsGame (record { timer = r.0; sessions = r.1; world = r.2 }))
          (some-injective _ _ h1)
          (record {
            world = subst (λ r. IsWorld r.1) (some-injective _ _ (sym run' ∙ run)) world;
            size = size;
            stars = stars;
            ticks = ticks;
            tick_count = count ∙ i.tick_count;
            runs = running;
            one_wait = one;
          })

    message-IsGame :
        (g : Game W) (id : ℕ) (bytes : List ℕ) (s s' : Session) (w' : World W)
        → IsGame g
        → on_message rand rand_max bytes s g.world ≡ some (s', w')
        → IsGame (record g { sessions = insert id (some s') g.sessions; world = w' })
    message-IsGame g id bytes s s' w' i e =
        let sky =
          on_message-SameSky g.world rand rand_max bytes s s' g.world w' (refl, refl, refl) e in
        let (size, stars, ticks) = SameSky-IsSky g.world w' sky (i.size, i.stars, i.ticks) in
        record {
          world = on_message-IsWorld rand rand_max bytes s s' g.world w' i.world e;
          size = size;
          stars = stars;
          ticks = ticks;
          tick_count = i.tick_count;
          runs = i.runs;
          one_wait = i.one_wait;
        }

    sessions-IsGame : (g : Game W) (m : SessionMap) → IsGame g → IsGame (record g { sessions = m })
    sessions-IsGame g m i = record {
      world = i.world;
      size = i.size;
      stars = i.stars;
      ticks = i.ticks;
      tick_count = i.tick_count;
      runs = i.runs;
      one_wait = i.one_wait;
    }

    step-IsGame : {g g' : Game W} → Step rand rand_max g g' → IsGame g → IsGame g'
    step-IsGame {g} (joined id) i = sessions-IsGame g _ i
    step-IsGame {g} (left id) i = sessions-IsGame g _ i
    step-IsGame {g} (found id) i = sessions-IsGame g _ i
    step-IsGame {g} (message id bytes s s' w' here e) i = message-IsGame g id bytes s s' w' i e
    step-IsGame {g} (ticked n ec t' m' w' e h) i = ticked-IsGame g n ec t' m' w' i e h
    step-IsGame {g} (wait_failed n e) i = record {
      world = i.world;
      size = i.size;
      stars = i.stars;
      ticks = i.ticks;
      tick_count = i.tick_count;
      runs = i.runs;
      one_wait = let one = i.one_wait in omega arith;
    }

    -- In every state that the game reaches, by any clients that come, go and send any bytes, by any
    -- looks for sessions that may be gone, and by any ticks: the players are as IsPlayer says and the
    -- rocks are a list, the universe has its size and its 1600 stars, at most one wait of the timer is
    -- under way, and the count of ticks is still 0.
    pub Reach-IsGame : {g : Game W} → Reach rand rand_max g → IsGame g
    Reach-IsGame (begin interval ec m) = begin-IsGame interval ec m
    Reach-IsGame (later r step) = step-IsGame step (Reach-IsGame r)
