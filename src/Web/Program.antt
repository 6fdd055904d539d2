-- ===== src/Web/Program.antt =====
-- The whole program: the HTTP connections of lib/src/geoff.cpp, the web sockets that they become, and
-- the game of apps/asteroids, whose timer ticks. The universe and its timer are there from the
-- beginning; the source makes them with the first session, and no tick is seen before.
use geoff.Prelude.{ℕ, suc, ◌+◌, ◌≡◌, Bool, List, ◌++◌, Option, none, some, if◌then◌else◌, []}
use geoff.Words.{Host}
use geoff.Double.{Double}
use geoff.Http.Text.{Text}
use geoff.Http.Handle.{Beast}
use geoff.Http.Connection.{Kind, Protocol}
use geoff.Http.Connection.Steps.{asks_upgrade}
use geoff.Http.Server
use geoff.Http.Server.{Acceptor, Server, accepted, detected, served, listen_on}
use geoff.Sessions.{Sessions}
use geoff.Asteroids.Session.{Session, World}
use geoff.Asteroids.Session.Managed.{game_sessions}
use geoff.Asteroids.World.Creation.{get_universe}
use geoff.Asteroids.World.Timer.{Timer, start, ticker}
use geoff.Web
use geoff.Web.{AllThere, Web, upgraded, ready, SocketStep}
use geoff.Web.Game.{after}

pub record Program (W : Type 0) : Type 0 where
  pub server : Server
  pub web : Web Session (World W)
  pub timer : Timer

module _ (protocol : Protocol) where
  -- The web socket that a step of the server makes: that of an event which asks for one.
  abbrev pub upgrade_in :
      {beast : Beast} {doc_root : Text} {s s' : Server}
      → Server.Step beast protocol doc_root s s'
      → Option Kind
  upgrade_in (served before after c c' e eq step) =
      if asks_upgrade protocol e then some c.kind else none
  upgrade_in _ = none

abbrev pub follow : {W : Type 0} → Option Kind → Web Session (World W) → Web Session (World W)
follow none w = w
follow (some kind) w = upgraded kind w

module _ {W : Type 0} ⦃d : Double W⦄ ⦃host : Host⦄ (rand : ℕ → ℕ) (rand_max : ℕ) where
  -- What the calls of OnTxReady post, if the timer runs.
  abbrev pub called : Bool → Sessions Session (World W) → List (ℕ × ℕ)
  called runs m = if runs then ready (game_sessions {W = W} rand rand_max) m.map else []

  -- The sessions after a tick, and what its calls of OnTxReady have posted, if the timer runs.
  abbrev pub told :
      Bool → Sessions Session (World W) → Web Session (World W) → Web Session (World W)
  told runs m w = record w { sessions = m; posts = w.posts ++ called runs m }

  module _ (beast : Beast) (protocol : Protocol) (doc_root : Text) where
    -- What can happen next, and how many sessions it adds.
    pub data Step (p : Program W) : ℕ → Program W → Type 0 where
      http :
          {s' : Server} (step : Server.Step beast protocol doc_root p.server s')
          → Step p 0 (record p { server = s'; web = follow (upgrade_in protocol step) p.web })
      socket :
          {d : ℕ} {w' : Web Session (World W)}
          → SocketStep (game_sessions rand rand_max) p.web d w'
          → Step p d (record p { web = w' })
      ticked :
          (n : ℕ) (ec : Bool) (t' : Timer) (q : List (ℕ × Option Session) × World W)
          → p.timer.waiting ≡ suc n
          → ticker rand rand_max ec
              (record p.timer { waiting = n })
              p.web.sessions.map
              p.web.sessions.world
            ≡ some (t', q.0, q.1)
          → AllThere p.web (called p.timer.run_timer (after q p.web.sessions))
          → Step p 0
              (record p { web = told p.timer.run_timer (after q p.web.sessions) p.web; timer = t' })
      wait_failed :
          (n : ℕ)
          → p.timer.waiting ≡ suc n
          → Step p 0 (record p { timer = record p.timer { waiting = n } })

    pub data Reach (a : Acceptor) (log : List Text) (interval : ℕ) (ec : Bool)
        : ℕ → Program W → Type 0 where
      begin : Reach a log interval ec 0 (record {
        server = listen_on a log;
        web = Web.begin (get_universe rand rand_max none);
        timer = start interval ec;
      })
      later :
          {n k : ℕ} {p p' : Program W}
          → Reach a log interval ec n p
          → Step p k p'
          → Reach a log interval ec (n + k) p'
