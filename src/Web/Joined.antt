-- ===== src/Web/Joined.antt =====
-- What a new session leaves of the ownership of the others (websocket_session::on_accept in
-- lib/inc/websocket_session.h, WebsockSessionManager::add_session).
use geoff.Prelude.{
  ℕ, ◌+◌, ◌<◌, ◌≡◌, ◌≢◌, refl, none, some, arith, inl, inr, ◌⊎◌, sym, ◌∙◌, ap, subst, All-mono,
}
use mathlib.Core.Option.{some-injective, some-ne-none}
use geoff.Words.{u32_mod}
use geoff.SortedMap.{lookup}
use geoff.Sessions.{SessionType, Sessions}
use geoff.Sessions.Reachable.{IsSessions}
use geoff.Sessions.Socket.{Socket}
use geoff.Sessions.Socket.Present.{Present}
use geoff.Sessions.Socket.Steps.{Move}
use geoff.Sessions.Socket.Effect.{Joins}
use geoff.Web.Family.{update-all, update_same}
use geoff.Web.{Web, put}
use geoff.Web.Owned.{Owns, IsWeb, put-single, put-unmade}

module _ {S W : Type 0} (t : SessionType S W) (n : ℕ) (w : Web S W) (i : IsWeb t n w) (k : ℕ)
    (s' : Socket) (m' : Sessions S W) where
  abbrev s : Socket
  s = w.sockets k

  abbrev w' : Web S W
  w' = put k (s', m') w

  pub Joins-IsWeb :
      Move t k s w.sessions s' m'
      → IsSessions t m'
      → k < w.made
      → s'.accepts ≡ 0
      → n < u32_mod
      → Joins t k s s' w.sessions m'
      → IsWeb t (n + 1) w'
  Joins-IsWeb move sessions made accepted lt joins = record {
    sessions = sessions;
    next = omega (arith, joins.next, id_is);
    unmade_after = put-unmade t n w i k s' m' made;
    unnamed =
        update-all (λ j s1. 0 < s1.accepts → s1.session_id ≡ none) w.sockets k s'
          (λ h. absurd (omega arith)) (λ j ne h. i.unnamed j h);
    fresh = λ j id e. elim (newer j id e) [
      | inl (_, eq) ↦ omega arith
      | inr (_, e') ↦ omega (arith, i.fresh j id e')
    ];
    distinct = λ j j' id e e'. elim (newer j id e) [
      | inl (eq, eq_id) ↦ elim (newer j' id e') [
        | inl (eq', _) ↦ eq ∙ sym eq'
        | inr (_, o') ↦ absurd (omega (arith, i.fresh j' id o'))
      ]
      | inr (_, o) ↦ elim (newer j' id e') [
        | inl (eq', eq_id) ↦ absurd (omega (arith, i.fresh j id o))
        | inr (_, o') ↦ i.distinct j j' id o o'
      ]
    ];
    calls = λ id j x e c.
        let same : (id ≡ w.sessions.next_id) ⊎ (id ≢ w.sessions.next_id) = omega arith in
        elim same [
          | inl eq ↦
              let mine = joins.mine x (subst (λ a. lookup a m'.map ≡ some (some x)) eq e) in
              let eq_k : k ≡ j = some-injective _ _ (sym mine ∙ c) in
              subst (λ a. Owns t w' a id) eq_k
                (ap (λ s1. s1.session_id) (update_same w.sockets k s')
                  ∙ joins.named
                  ∙ ap some (sym eq))
          | inr ne ↦ older j id (i.calls id j x (sym (joins.others id ne) ∙ e) c)
        ];
    posts = All-mono w.posts (λ p. older p.0 p.1) i.posts;
    single = put-single t n w i k s' m' move sessions made present;
  }
    where
      id_is : w.sessions.next_id ≡ n
      id_is = omega (arith, i.next)

      nameless : s.session_id ≡ none
      nameless = i.unnamed k (omega (arith, joins.handshake))

      older : (j id : ℕ) → Owns t w j id → Owns t w' j id
      older j id =
          update-all (λ a s1. Owns t w a id → s1.session_id ≡ some id) w.sockets k s'
            (λ e. absurd (some-ne-none _ (sym e ∙ nameless))) (λ a ne e. e) j

      newer : (j id : ℕ) → Owns t w' j id → ((j ≡ k) × (id ≡ n)) ⊎ ((j ≢ k) × Owns t w j id)
      newer j id =
          update-all
            (λ a s1. s1.session_id ≡ some id → ((a ≡ k) × (id ≡ n)) ⊎ ((a ≢ k) × Owns t w a id))
            w.sockets k s' (λ e. inl (refl, some-injective _ _ (sym e ∙ joins.named) ∙ id_is))
            (λ a ne e. inr (ne, e)) j

      present : (j id : ℕ) → j ≢ k → Owns t w j id → Present id w.sessions → Present id m'
      present j id ne e (x, p) =
          let lower = i.fresh j id e in
          (x, joins.others id (λ eq. absurd (omega (arith, id_is))) ∙ p)
