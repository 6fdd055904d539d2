-- ===== src/Web/Given.antt =====
-- As many web sockets as connections that were given away (make_websocket_session and
-- http_session::on_read in lib/src/geoff.cpp).
use geoff.Prelude.{
  ℕ, ◌+◌, ◌≡◌, refl, Bool, true, false, List, [], ◌∷◌, ◌++◌, Option, none, some, arith, sym, ◌∙◌,
  ap, subst, All, All-append, All-middle, if◌then◌else◌,
}
use geoff.Words.{Host}
use geoff.Double.{Double}
use geoff.Http.Text.{Text}
use geoff.Http.Handle.{Beast}
use geoff.Http.Connection.{Connection, Protocol, Kind, plain, ssl, run, create, do_read}
use geoff.Http.Connection.Steps.{asks_upgrade}
use geoff.Http.Connection.Refines.{Run-IsConnection}
use geoff.Http.Connection.Released.{IsGiven, step_released, step-IsGiven, released_by}
use geoff.Http.Server
use geoff.Http.Server.{
  Acceptor, Server, accepted, detected, served, listen_on, do_accept, on_accept, on_detect,
}
use geoff.Http.Server.Runs
use geoff.Http.Server.Runs.{IsRun, Reach-IsRun}
use geoff.Web.{SocketStep}
use geoff.Web
use geoff.Asteroids.Session.{Session, World}
use geoff.Asteroids.Session.Managed.{game_sessions}
use geoff.Web.Program.{
  Program, upgrade_in, follow, Step, http, socket, ticked, wait_failed, Reach, begin, later,
}

abbrev one_if : Bool → ℕ
one_if b = if b then 1 else 0

-- How many of the connections have been given away.
pub given_away : List Connection → ℕ
given_away [] = 0
given_away (c ∷ cs) = one_if c.released + given_away cs

given_away-append :
    (xs ys : List Connection) → given_away (xs ++ ys) ≡ given_away xs + given_away ys
unfolding given_away
given_away-append [] ys = omega arith
given_away-append (x ∷ xs) ys = omega (arith, given_away-append xs ys)

run_released : (kind : Kind) → (run kind).released ≡ false
unfolding run create do_read
run_released plain = refl
run_released ssl = refl

module _ (beast : Beast) (protocol : Protocol) (doc_root : Text) where
  -- How many web sockets a step makes.
  abbrev made_in : Option Kind → ℕ
  made_in none = 0
  made_in (some kind) = 1

  -- The connections read no more when they have been given away, and `n` of them have been.
  pub record Given (a : Acceptor) (log : List Text) (n : ℕ) (s : Server) : Type 0 where
    pub reached : Runs.Reach beast protocol doc_root a log s
    pub all : All (IsGiven beast protocol doc_root) s.connections
    pub count : n ≡ given_away s.connections

  one_more :
      (kind : Kind) (s : Server)
      → given_away (s.connections ++ (run kind ∷ [])) ≡ given_away s.connections
  unfolding given_away
  one_more kind s =
      given_away-append s.connections (run kind ∷ []) ∙ rw (run_released kind) (omega arith)

  new-IsGiven : (kind : Kind) → IsGiven beast protocol doc_root (run kind)
  new-IsGiven kind h = let e = run_released kind in cc

  -- One connection has an event.
  served-count :
      (before after : List Connection) (c c' : Connection) (upgrade : Bool)
      → c'.released ≡ released_by upgrade c
      → (upgrade ≡ true → c.released ≡ false)
      → given_away (before ++ (c' ∷ after)) ≡ one_if upgrade + given_away (before ++ (c ∷ after))
  unfolding given_away
  served-count before after c c' upgrade e first =
      let l = given_away-append before (c ∷ after) in
      let l' = given_away-append before (c' ∷ after) in ground arith

  made_in-if : (b : Bool) (kind : Kind) → made_in (if b then some kind else none) ≡ one_if b
  made_in-if true kind = refl
  made_in-if false kind = refl

  none_made :
      (a : Acceptor) (log : List Text) (n : ℕ) (s : Server)
      → Given a log n s
      → Given a log (0 + n) s
  none_made a log n s g = subst (λ k. Given a log k s) (omega arith) g

  same_connections :
      (a : Acceptor) (log : List Text) (n : ℕ) (s s' : Server)
      → Runs.Reach beast protocol doc_root a log s'
      → s'.connections ≡ s.connections
      → Given a log n s
      → Given a log n s'
  same_connections a log n s s' reached e g = record {
    reached = reached;
    all = subst (All (IsGiven beast protocol doc_root)) (sym e) g.all;
    count = g.count ∙ ap given_away (sym e);
  }

  new_connection :
      (a : Acceptor) (log : List Text) (n : ℕ) (kind : Kind) (s s' : Server)
      → Runs.Reach beast protocol doc_root a log s'
      → s'.connections ≡ s.connections ++ (run kind ∷ [])
      → Given a log n s
      → Given a log n s'
  new_connection a log n kind s s' reached e g = record {
    reached = reached;
    all =
        subst (All (IsGiven beast protocol doc_root)) (sym e)
          (All-append _ s.connections (run kind ∷ []) g.all (new-IsGiven kind, tt));
    count = g.count ∙ sym (one_more kind s) ∙ ap given_away (sym e);
  }

  server-Given :
      (a : Acceptor) (log : List Text) (n : ℕ) (s : Server) {s' : Server}
      (step : Server.Step beast protocol doc_root s s')
      → Given a log n s
      → Given a log (made_in (upgrade_in protocol step) + n) s'
  unfolding on_accept on_detect do_accept
  server-Given a log n s {s'} (accepted k none e) g =
      none_made a log n s'
        (same_connections a log n s s' (Runs.Reach.later g.reached (accepted k none e)) refl g)
  server-Given a log n s {s'} (accepted k (some ec) e) g =
      none_made a log n s'
        (same_connections a log n s s' (Runs.Reach.later g.reached (accepted k (some ec) e)) refl g)
  server-Given a log n s {s'} (detected k (some ec) result e) g = none_made a log n s' (
      same_connections a log n s s' (Runs.Reach.later g.reached (detected k (some ec) result e))
        refl g)
  server-Given a log n s {s'} (detected k none true e) g =
      none_made a log n s' (
        new_connection a log n ssl s s' (Runs.Reach.later g.reached (detected k none true e)) refl
          g)
  server-Given a log n s {s'} (detected k none false e) g = none_made a log n s' (
      new_connection a log n plain s s' (Runs.Reach.later g.reached (detected k none false e)) refl
        g)
  server-Given a log n s {s'} (served before after c c' e eq step) g =
      let (ib, (kind, acts, r), ia) = All-middle (IsRun beast protocol doc_root) before after c (
        subst (All (IsRun beast protocol doc_root)) eq
          (Reach-IsRun beast protocol doc_root g.reached)) in
      let (gb, gc, ga) =
        All-middle (IsGiven beast protocol doc_root) before after c
          (subst (All (IsGiven beast protocol doc_root)) eq g.all) in
      let i = Run-IsConnection beast protocol doc_root r in
      let (gc', first) = step-IsGiven beast protocol doc_root e step i gc in
      let upgrade = asks_upgrade protocol e in
      let counted =
        served-count before after c c' upgrade (step_released beast protocol doc_root e step)
          first in
      let was = g.count ∙ ap given_away eq in
      let more = made_in-if upgrade c.kind in
      record {
        reached = Runs.Reach.later g.reached (served before after c c' e eq step);
        all = All-append (IsGiven beast protocol doc_root) before (c' ∷ after) gb (gc', ga);
        count = omega arith;
      }

  follow_made :
      {W : Type 0} (o : Option Kind) (w : Web.Web Session (World W))
      → (follow o w).made ≡ made_in o + w.made
  follow_made none w = omega arith
  follow_made (some kind) w = omega arith

  module _ {W : Type 0} ⦃d : Double W⦄ ⦃host : Host⦄ (rand : ℕ → ℕ) (rand_max : ℕ) where
    socket_made :
        {n : ℕ} {w w' : Web.Web Session (World W)}
        → SocketStep (game_sessions rand rand_max) w n w'
        → w'.made ≡ w.made
    socket_made (SocketStep.accepted k n ec q a e) = refl
    socket_made (SocketStep.received k n incoming q a e) = refl
    socket_made (SocketStep.wrote k n ec q a e) = refl
    socket_made (SocketStep.ran before after k id x p e alive) = refl

    step-Given :
        {a : Acceptor} {log : List Text} {k : ℕ} {p p' : Program W}
        → Step rand rand_max beast protocol doc_root p k p'
        → Given a log p.web.made p.server
        → Given a log p'.web.made p'.server
    step-Given {a} {log} {k} {p} {p'} (http {s'} step) g =
        subst (λ j. Given a log j s') (sym (follow_made (upgrade_in protocol step) p.web))
          (server-Given a log p.web.made p.server step g)
    step-Given {a} {log} {k} {p} {p'} (socket move) g =
        subst (λ j. Given a log j p.server) (sym (socket_made move)) g
    step-Given (ticked n ec t' q e run there) g = g
    step-Given (wait_failed n e) g = g

    run-Given :
        {a : Acceptor} {log : List Text} {interval : ℕ} {ec : Bool} {n : ℕ} {p : Program W}
        → Reach rand rand_max beast protocol doc_root a log interval ec n p
        → Given a log p.web.made p.server
    unfolding listen_on do_accept given_away
    run-Given begin = record { reached = Runs.Reach.start; all = tt; count = refl }
    run-Given (later r step) = step-Given step (run-Given r)

    -- As many web sockets have been made as streams of connections have been given away, one by each
    -- upgrade; and a connection whose stream is given away has no read or handshake under way, and
    -- not a full queue, so that no write begins one.
    pub Reach-Given :
        {a : Acceptor} {log : List Text} {interval : ℕ} {ec : Bool} {n : ℕ} {p : Program W}
        → Reach rand rand_max beast protocol doc_root a log interval ec n p
        → (p.web.made ≡ given_away p.server.connections)
          × All (IsGiven beast protocol doc_root) p.server.connections
    Reach-Given r = let g = run-Given r in (g.count, g.all)
