-- ===== src/Web/Whole.antt =====
-- Every run of the whole program (lib/src/geoff.cpp, lib/inc/websocket_session.h, apps/asteroids/src).
use geoff.Prelude.{
  ℕ, ◌+◌, ◌≤◌, ◌≡◌, refl, Bool, true, not, if◌then◌else◌, List, Option, none, some, arith, sym, ◌∙◌,
  ap, subst, >>=-eq-some,
}
use mathlib.Core.Option.{some-injective}
use geoff.Words.{Host, u32_mod}
use geoff.Double.{Double}
use geoff.Http.Text.{Text}
use geoff.Http.Handle.{Beast}
use geoff.Http.Connection.{Kind, Protocol}
use geoff.Http.Server.{Acceptor}
use geoff.Http.Server.Runs
use geoff.Asteroids.Session.{Session, World}
use geoff.Asteroids.Session.Keeps.{IsWorld, on_message-IsWorld}
use geoff.Asteroids.Session.Managed.{game_sessions, comms_handler-on_message}
use geoff.Asteroids.World.{SessionMap, tick}
use geoff.Asteroids.World.Creation.{get_universe, create-IsWorld}
use geoff.Asteroids.World.Nulls.{ran-IsWorld}
use geoff.Asteroids.World.Timer.{Timer, reschedule, tick_event, ticker}
use geoff.Asteroids.World.Waiting.{start_running}
use geoff.Web
use geoff.Web.{AllThere, Web, upgraded}
use geoff.Web.Runs.{Reach-IsWeb}
use geoff.Web.Worlds.{socket-keeps}
use geoff.Web.Game.{after, tick-Ticked}
use geoff.Web.Program.{
  Program, upgrade_in, follow, called, told, Step, http, socket, ticked, wait_failed, Reach, begin,
  later,
}

reschedule_runs : (ec : Bool) (t : Timer) → (reschedule ec t).run_timer ≡ t.run_timer
unfolding reschedule
reschedule_runs ec t = ground arith

module _ {W : Type 0} ⦃d : Double W⦄ ⦃host : Host⦄ (rand : ℕ → ℕ) (rand_max : ℕ) (beast : Beast)
    (protocol : Protocol) (doc_root : Text) where
  -- A run of the web sockets over the game.
  abbrev pub IsRun : ℕ → Web Session (World W) → Type 0
  IsRun n w = Web.Reach (game_sessions rand rand_max) (get_universe rand rand_max none) n w

  -- The parts of the program are runs of the server and of the web sockets, the timer runs, and the
  -- universe is as it must be.
  pub record IsProgram (a : Acceptor) (log : List Text) (n : ℕ) (p : Program W) : Type 0 where
    pub server : Runs.Reach beast protocol doc_root a log p.server
    pub web : IsRun n p.web
    pub runs : p.timer.run_timer ≡ true
    pub world : IsWorld p.web.sessions.world

  -- A tick of the running timer is a tick of the universe, and the timer runs on.
  ticker_runs :
      (ec : Bool) (t t' : Timer) (m : SessionMap) (w : World W) (q : SessionMap × World W)
      → t.run_timer ≡ true
      → ticker rand rand_max ec t m w ≡ some (t', q.0, q.1)
      → (tick rand rand_max t.tick_count m w ≡ some q) × (t'.run_timer ≡ true)
  unfolding ticker tick_event
  ticker_runs ec t t' m w q r e =
      let (q1, event, e1) = >>=-eq-some (tick_event rand rand_max t m w) _ e in
      let same = some-injective _ _ e1 in
      let run : tick rand rand_max t.tick_count m w ≡ some q1 =
        subst (λ b. (if not b then some (m, w) else tick rand rand_max t.tick_count m w) ≡ some q1)
          r event in
      (
        run ∙ ap (λ x. some (x.1, x.2)) same,
        ap (λ x. x.0.run_timer) (sym same) ∙ reschedule_runs ec t ∙ r,
      )

  follow-IsRun :
      (n : ℕ) (w : Web Session (World W)) (o : Option Kind) → IsRun n w → IsRun n (follow o w)
  follow-IsRun n w none r = r
  follow-IsRun n w (some kind) r =
      subst (λ k. IsRun k (upgraded kind w)) (omega arith)
        (Web.Reach.later r (Web.Step.upgrade kind))

  follow_world :
      (o : Option Kind) (w : Web Session (World W)) → (follow o w).sessions.world ≡ w.sessions.world
  follow_world none w = refl
  follow_world (some kind) w = refl

  module _ (a : Acceptor) (log : List Text) where
    ticked-IsProgram :
        (n k : ℕ) (p : Program W) (ec : Bool) (t' : Timer) (q : SessionMap × World W)
        → IsProgram a log n p
        → n ≤ u32_mod
        → ticker rand rand_max ec
            (record p.timer { waiting = k })
            p.web.sessions.map
            p.web.sessions.world
          ≡ some (t', q.0, q.1)
        → AllThere p.web (called rand rand_max p.timer.run_timer (after q p.web.sessions))
        → IsProgram a log n (record p {
          web = told rand rand_max p.timer.run_timer (after q p.web.sessions) p.web;
          timer = t';
        })
    ticked-IsProgram n k p ec t' q i h e there =
        let (run, runs) =
          ticker_runs ec (record p.timer { waiting = k }) t' p.web.sessions.map p.web.sessions.world
            q i.runs e in
        let web = Reach-IsWeb (game_sessions rand rand_max) i.web h in
        let all_there =
          subst (λ b. AllThere p.web (called rand rand_max b (after q p.web.sessions))) i.runs
            there in
        let tick = tick-Ticked rand rand_max p.timer.tick_count p.web.sessions q web.sessions run in
        record {
          server = i.server;
          web =
              subst (λ b. IsRun n (told rand rand_max b (after q p.web.sessions) p.web))
                (sym i.runs)
                (subst (λ j. IsRun j (told rand rand_max true (after q p.web.sessions) p.web))
                  (omega arith)
                  (Web.Reach.later i.web
                    (Web.Step.ticked (after q p.web.sessions) tick all_there)));
          runs = runs;
          world =
              ran-IsWorld rand rand_max p.timer.tick_count p.web.sessions.map p.web.sessions.world q
                run i.world;
        }

    step-IsProgram :
        {n k : ℕ} {p p' : Program W}
        → Step rand rand_max beast protocol doc_root p k p'
        → IsProgram a log n p
        → n ≤ u32_mod
        → IsProgram a log (n + k) p'
    step-IsProgram {n} {k} {p} {p'} (http step) i h =
        subst (λ j. IsProgram a log j p') (omega arith)
          (record {
            server = Runs.Reach.later i.server step;
            web = follow-IsRun n p.web (upgrade_in protocol step) i.web;
            runs = i.runs;
            world = subst IsWorld (sym (follow_world (upgrade_in protocol step) p.web)) i.world;
          })
    step-IsProgram {n} {k} {p} {p'} (socket move) i h = record {
      server = i.server;
      web = Web.Reach.later i.web (Web.Step.socket move);
      runs = i.runs;
      world =
          socket-keeps (game_sessions rand rand_max) IsWorld
            (λ bytes s s' w w' world e.
              on_message-IsWorld rand rand_max bytes s s' w w' world
                (sym (comms_handler-on_message rand rand_max bytes s w) ∙ e))
            move i.world;
    }
    step-IsProgram {n} {k} {p} {p'} (ticked j ec t' q e run there) i h =
        subst (λ l. IsProgram a log l p') (omega arith)
          (ticked-IsProgram n j p ec t' q i h run there)
    step-IsProgram {n} {k} {p} {p'} (wait_failed j e) i h =
        subst (λ l. IsProgram a log l p') (omega arith)
          (record { server = i.server; web = i.web; runs = i.runs; world = i.world })

    -- While no more than 2 ^ 32 sessions have been made, the whole program is its parts: whatever
    -- happens, its connections are a run of the server, its web sockets and sessions are a run of
    -- the web sockets in which the ticks of the game are ticks, the timer runs, and the players and
    -- the rocks are as they must be.
    pub Reach-IsProgram :
        {interval : ℕ} {ec : Bool} {n : ℕ} {p : Program W}
        → Reach rand rand_max beast protocol doc_root a log interval ec n p
        → n ≤ u32_mod
        → IsProgram a log n p
    unfolding get_universe
    Reach-IsProgram {interval} {ec} {n} begin h = record {
      server = Runs.Reach.start;
      web = Web.Reach.start;
      runs = (start_running interval ec).1;
      world = create-IsWorld W rand rand_max 8192 8192;
    }
    Reach-IsProgram (later r step) h =
        step-IsProgram step (Reach-IsProgram r (omega arith)) (omega arith)
