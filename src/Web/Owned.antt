-- ===== src/Web/Owned.antt =====
-- Whose session is whose, among all the web sockets of the server (lib/inc/websocket_session.h,
-- lib/inc/WebsockSessionManager.h).
use geoff.Prelude.{
  ℕ, ◌%◌, ◌≤◌, ◌<◌, ◌≡◌, ◌≢◌, refl, none, some, arith, inl, inr, sym, ◌∙◌, ap, subst, All, All-mono,
}
use geoff.Words.{u32_mod}
use geoff.SortedMap.{lookup}
use geoff.Sessions.{SessionType, Sessions}
use geoff.Sessions.Reachable.{IsSessions}
use geoff.Sessions.Socket.{Socket}
use geoff.Sessions.Socket.Present.{Present}
use geoff.Sessions.Socket.Steps
use geoff.Sessions.Socket.Steps.{Move}
use geoff.Sessions.Socket.Effect.{Keeps}
use geoff.Web.Family.{update-all}
use geoff.Web.{Web, unmade, put}

module _ {S W : Type 0} (t : SessionType S W) where
  -- The web socket of number `k` has the session `id`.
  abbrev pub Owns : Web S W → ℕ → ℕ → Type 0
  Owns w k id = (w.sockets k).session_id ≡ some id

  -- No two web sockets have the same session, `n` sessions have been made, a session calls back the
  -- web socket that has it, the posted handlers wait at the web socket of their session, and each
  -- web socket is one that a run of it alone, among others, reaches.
  pub record IsWeb (n : ℕ) (w : Web S W) : Type 0 where
    pub sessions : IsSessions t w.sessions
    pub next : w.sessions.next_id ≡ n % u32_mod
    pub unmade_after : (k : ℕ) → w.made ≤ k → w.sockets k ≡ unmade
    pub unnamed : (k : ℕ) → 0 < (w.sockets k).accepts → (w.sockets k).session_id ≡ none
    pub fresh : (k id : ℕ) → Owns w k id → id < n
    pub distinct : (j k id : ℕ) → Owns w j id → Owns w k id → j ≡ k
    pub calls :
        (id k : ℕ) (x : S)
        → lookup id w.sessions.map ≡ some (some x)
        → t.on_tx_ready x ≡ some k
        → Owns w k id
    pub posts : All (λ p. Owns w p.0 p.1) w.posts
    pub single : (k : ℕ) → k < w.made → Steps.Reach t k (w.sockets k) w.sessions

  module _ (n : ℕ) (w : Web S W) (i : IsWeb n w) (k : ℕ) (s' : Socket) (m' : Sessions S W) where
    abbrev s : Socket
    s = w.sockets k

    abbrev w' : Web S W
    w' = put k (s', m') w

    -- The other web sockets are still runs, when no session of theirs is lost.
    pub put-single :
        Move t k s w.sessions s' m'
        → IsSessions t m'
        → k < w.made
        → ((j id : ℕ) → j ≢ k → Owns w j id → Present id w.sessions → Present id m')
        → (j : ℕ) → j < w.made
        → Steps.Reach t j (w'.sockets j) m'
    put-single move sessions made present =
        update-all (λ j s1. j < w.made → Steps.Reach t j s1 m') w.sockets k s'
          (λ lt. Steps.Reach.later (i.single k lt) (Steps.Step.moved move))
          (λ j ne lt.
            Steps.Reach.later (i.single j lt)
              (Steps.Step.others m' sessions (λ id e. present j id ne e)))

    -- Web sockets that are not there have not moved.
    pub put-unmade : k < w.made → (j : ℕ) → w.made ≤ j → w'.sockets j ≡ unmade
    put-unmade made =
        update-all (λ j s1. w.made ≤ j → s1 ≡ unmade) w.sockets k s' (λ le. absurd (omega arith))
          (λ j ne le. i.unmade_after j le)

    pub Keeps-IsWeb :
        Move t k s w.sessions s' m'
        → IsSessions t m'
        → k < w.made
        → Keeps t k s s' w.sessions m'
        → IsWeb n w'
    Keeps-IsWeb move sessions made keeps = record {
      sessions = sessions;
      next = next ∙ i.next;
      unmade_after = put-unmade made;
      unnamed =
          update-all (λ j s1. 0 < s1.accepts → s1.session_id ≡ none) w.sockets k s'
            (λ lt. keeps.same_id ∙ i.unnamed k (omega (arith, keeps.accepts)))
            (λ j ne lt. i.unnamed j lt);
      fresh = λ j id e. i.fresh j id (sym (same j) ∙ e);
      distinct = λ j j' id e e'. i.distinct j j' id (sym (same j) ∙ e) (sym (same j') ∙ e');
      calls =
          λ id j x' e c. let (x, e0, c0) = kept id x' e in same j ∙ i.calls id j x e0 (sym c0 ∙ c);
      posts = All-mono w.posts (λ p e. same p.0 ∙ e) i.posts;
      single = put-single move sessions made present;
    }
      where
        same : (j : ℕ) → (w'.sockets j).session_id ≡ (w.sockets j).session_id
        same =
            update-all (λ j s1. s1.session_id ≡ (w.sockets j).session_id) w.sockets k s'
              keeps.same_id (λ j ne. refl)

        next : m'.next_id ≡ w.sessions.next_id
        next = elim keeps.within [
          | inl e ↦ ap (λ m. m.next_id) e
          | inr (id, e, within) ↦ within.next
        ]

        kept :
            (id : ℕ) (x' : S)
            → lookup id m'.map ≡ some (some x')
            → (x : S) × (lookup id w.sessions.map ≡ some (some x))
              × (t.on_tx_ready x' ≡ t.on_tx_ready x)
        kept id x' e = elim keeps.within [
          | inl eq ↦ (x', ap (λ m. lookup id m.map) (sym eq) ∙ e, refl)
          | inr (own, _, within) ↦ within.kept id x' e
        ]

        present : (j id : ℕ) → j ≢ k → Owns w j id → Present id w.sessions → Present id m'
        present j id ne e p = elim keeps.within [
          | inl eq ↦ subst (Present id) (sym eq) p
          | inr (own, e', within) ↦
              within.others id (λ same_own. ne (i.distinct j k id e (e' ∙ ap some (sym same_own))))
                p
        ]
