-- ===== src/Web/Runs.antt =====
-- Every run of the server's web sockets (lib/inc/websocket_session.h, lib/src/WebsockServer.cpp).
use geoff.Prelude.{
  ℕ, suc, ◌+◌, ◌≤◌, ◌<◌, ◌≡◌, refl, List, ◌++◌, none, some, arith, inl, inr, ◌⊎◌, sym, ◌∙◌, ap,
  subst, All, All-append, All-mono, All-middle,
}
use mathlib.Core.Option.{some-ne-none}
use geoff.Words.{u32_mod}
use geoff.SortedMap.{lookup}
use geoff.Http.Connection.{Kind, plain, ssl}
use geoff.Sessions.{SessionType, Sessions}
use geoff.Sessions.Reachable.{IsSessions, Reach-IsSessions}
use geoff.Sessions.Reachable
use geoff.Sessions.Socket.{Socket, make_websocket_session}
use geoff.Sessions.Socket.Steps
use geoff.Sessions.Socket.Steps.{Move}
use geoff.Sessions.Socket.Runs.{IsSocket, Reach-IsSocket}
use geoff.Sessions.Socket.Effect.{Keeps, Joins, move-Effect}
use geoff.Web.Family.{update-all}
use geoff.Web.{
  Web, unmade, upgraded, put, ready, Ticked, SocketStep, Step, socket, upgrade, accepted, received,
  wrote, ran, ticked, Reach, start, later,
}
use geoff.Web.Owned.{Owns, IsWeb, Keeps-IsWeb}
use geoff.Web.Joined.{Joins-IsWeb}
use geoff.Web.Ready.{All-ready}

nameless : (kind : Kind) → (make_websocket_session kind).session_id ≡ none
nameless plain = refl
nameless ssl = refl

module _ {S W : Type 0} (t : SessionType S W) where
  module _ (n : ℕ) (w : Web S W) (i : IsWeb t n w) where
    with_posts :
        (posts : List (ℕ × ℕ))
        → All (λ p. Owns t w p.0 p.1) posts
        → IsWeb t n (record w { posts = posts })
    with_posts posts h = record {
      sessions = i.sessions;
      next = i.next;
      unmade_after = i.unmade_after;
      unnamed = i.unnamed;
      fresh = i.fresh;
      distinct = i.distinct;
      calls = i.calls;
      posts = h;
      single = i.single;
    }

    none_new : IsWeb t (n + 0) w
    none_new = subst (λ a. IsWeb t a w) (omega arith) i

    -- Only a web socket that is there has something under way.
    there : (k m : ℕ) (f : Socket → ℕ) → f unmade ≡ 0 → f (w.sockets k) ≡ suc m → k < w.made
    there k m f none_there e =
        let cases : (k < w.made) ⊎ (w.made ≤ k) = omega arith in
        elim cases [
          | inl lt ↦ lt
          | inr le ↦ let gone = ap f (i.unmade_after k le) in absurd (omega arith)
        ]

    owner_there : (k id : ℕ) → Owns t w k id → k < w.made
    owner_there k id e =
        let cases : (k < w.made) ⊎ (w.made ≤ k) = omega arith in
        elim cases [
          | inl lt ↦ lt
          | inr le ↦ absurd (some-ne-none _ (sym e ∙ ap (λ s. s.session_id) (i.unmade_after k le)))
        ]

    moved-IsSocket :
        (k : ℕ) (q : Socket × Sessions S W)
        → k < w.made
        → Move t k (w.sockets k) w.sessions q.0 q.1
        → IsSocket t k q.0 q.1
    moved-IsSocket k q made move =
        Reach-IsSocket t k (Steps.Reach.later (i.single k made) (Steps.Step.moved move))

    moved-IsWeb :
        (k : ℕ) (q : Socket × Sessions S W)
        → k < w.made
        → Move t k (w.sockets k) w.sessions q.0 q.1
        → Keeps t k (w.sockets k) q.0 w.sessions q.1
        → IsWeb t n (put k q w)
    moved-IsWeb k q made move keeps =
        Keeps-IsWeb t n w i k q.0 q.1 move (moved-IsSocket k q made move).sessions made keeps

    upgraded-IsWeb : (kind : Kind) → IsWeb t n (upgraded kind w)
    upgraded-IsWeb kind = record {
      sessions = i.sessions;
      next = i.next;
      unmade_after =
          update-all (λ j s. suc w.made ≤ j → s ≡ unmade) w.sockets w.made _
            (λ le. absurd (omega arith)) (λ j ne le. i.unmade_after j (omega arith));
      unnamed =
          update-all (λ j s. 0 < s.accepts → s.session_id ≡ none) w.sockets w.made _
            (λ lt. nameless kind) (λ j ne lt. i.unnamed j lt);
      fresh = λ j id e. i.fresh j id (sym (same j) ∙ e);
      distinct = λ j k id e e'. i.distinct j k id (sym (same j) ∙ e) (sym (same k) ∙ e');
      calls = λ id j x e c. same j ∙ i.calls id j x e c;
      posts = All-mono w.posts (λ p e. same p.0 ∙ e) i.posts;
      single =
          update-all (λ j s. j < suc w.made → Steps.Reach t j s w.sessions) w.sockets w.made _
            (λ lt. Steps.Reach.start kind w.sessions i.sessions)
            (λ j ne lt. i.single j (omega arith));
    }
      where
        same : (j : ℕ) → ((upgraded kind w).sockets j).session_id ≡ (w.sockets j).session_id
        same =
            update-all (λ j s. s.session_id ≡ (w.sockets j).session_id) w.sockets w.made _
              (nameless kind ∙ sym (ap (λ s. s.session_id) (i.unmade_after w.made (omega arith))))
              (λ j ne. refl)

    Ticked-IsWeb :
        (m' : Sessions S W)
        → Ticked t w.sessions m'
        → IsWeb t n (record w { sessions = m'; posts = w.posts ++ ready t m'.map })
    Ticked-IsWeb m' tick = record {
      sessions = tick.sessions;
      next = tick.next ∙ i.next;
      unmade_after = i.unmade_after;
      unnamed = i.unnamed;
      fresh = i.fresh;
      distinct = i.distinct;
      calls = calls;
      posts =
          All-append (λ p. Owns t w p.0 p.1) w.posts (ready t m'.map) i.posts
            (All-ready t (λ p. Owns t w p.0 p.1) 0 m'.map tick.sessions.sorted calls);
      single = λ j lt.
          Steps.Reach.later (i.single j lt)
            (Steps.Step.others m' tick.sessions (λ id e p. tick.present id p));
    }
      where
        calls :
            (id k : ℕ) (x' : S)
            → lookup id m'.map ≡ some (some x')
            → t.on_tx_ready x' ≡ some k
            → Owns t w k id
        calls id k x' e c = let (x, e0, c0) = tick.kept id x' e in i.calls id k x e0 (sym c0 ∙ c)

  socket-IsWeb :
      {n d : ℕ} {w w' : Web S W}
      → SocketStep t w d w'
      → IsWeb t n w
      → n + d ≤ u32_mod
      → IsWeb t (n + d) w'
  socket-IsWeb {n} {d} {w} {w'} (accepted k m none q a e) i h =
      let move = Move.accepted m none a e in
      let made = there n w i k m (λ s. s.accepts) refl a in
      let socket = moved-IsSocket n w i k q made move in
      let one = (Reach-IsSocket t k (i.single k made)).one_read in
      let joins : Joins t k (w.sockets k) q.0 w.sessions q.1 = move-Effect t k i.sessions move in
      Joins-IsWeb t n w i k q.0 q.1 move socket.sessions made (omega (arith, joins.handshake))
        (omega arith) joins
  socket-IsWeb {n} {d} {w} {w'} (accepted k m (some ec) q a e) i h =
      let move = Move.accepted m (some ec) a e in
      none_new n w' (
        moved-IsWeb n w i k q (there n w i k m (λ s. s.accepts) refl a) move
          (move-Effect t k i.sessions move))
  socket-IsWeb {n} {d} {w} {w'} (received k m incoming q a e) i h =
      let move = Move.received m incoming a e in
      none_new n w' (
        moved-IsWeb n w i k q (there n w i k m (λ s. s.reads) refl a) move
          (move-Effect t k i.sessions move))
  socket-IsWeb {n} {d} {w} {w'} (wrote k m ec q a e) i h =
      let move = Move.wrote m ec a e in
      none_new n w' (
        moved-IsWeb n w i k q (there n w i k m (λ s. s.writes) refl a) move
          (move-Effect t k i.sessions move))
  socket-IsWeb {n} {d} {w} {w'} (ran before after k id x p e alive) i h =
      let (hb, own, ha) =
        All-middle (λ p. Owns t w p.0 p.1) before after (k, id)
          (subst (All (λ p. Owns t w p.0 p.1)) p i.posts) in
      let w1 : Web S W = record w { posts = before ++ after } in
      let i1 = with_posts n w i (before ++ after) (All-append _ before after hb ha) in
      let move = Move.posted id x own e alive in
      none_new n w' (
        moved-IsWeb n w1 i1 k _ (owner_there n w i k id own) move (move-Effect t k i.sessions move))

  step-IsWeb :
      {n d : ℕ} {w w' : Web S W}
      → Step t w d w'
      → IsWeb t n w
      → n + d ≤ u32_mod
      → IsWeb t (n + d) w'
  step-IsWeb (socket move) i h = socket-IsWeb move i h
  step-IsWeb {n} {d} {w} {w'} (upgrade kind) i h = none_new n w' (upgraded-IsWeb n w i kind)
  step-IsWeb {n} {d} {w} {w'} (ticked m' tick there) i h =
      none_new n w' (Ticked-IsWeb n w i m' tick)

  -- While no more than 2 ^ 32 sessions have been made, no two web sockets have the same session, a
  -- session calls back the web socket that has it, and every posted handler waits on the executor of
  -- the web socket whose session it refers to; and each web socket, whatever the others do, is one
  -- that a run of it alone reaches.
  pub Reach-IsWeb :
      {world : W} {n : ℕ} {w : Web S W} → Reach t world n w → n ≤ u32_mod → IsWeb t n w
  unfolding lookup
  Reach-IsWeb {world} start h = record {
    sessions = Reach-IsSessions t (Reachable.Reach.start world);
    next = refl;
    unmade_after = λ k le. refl;
    unnamed = λ k lt. refl;
    fresh = λ k id e. absurd (some-ne-none _ (sym e));
    distinct = λ j k id e e'. absurd (some-ne-none _ (sym e));
    calls = λ id k x e c. absurd (some-ne-none _ (sym e));
    posts = tt;
    single = λ k lt. absurd (omega arith);
  }
  Reach-IsWeb (later r step) h = step-IsWeb step (Reach-IsWeb r (omega arith)) h
