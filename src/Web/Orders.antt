-- ===== src/Web/Orders.antt =====
-- The handlers of two web sockets of the server may run in either order
-- (lib/inc/websocket_session.h).
use geoff.Prelude.{ℕ, ◌≤◌, ◌≡◌, ◌≢◌, true, false, ◌||◌, sym, ap, subst}
use geoff.Words.{u32_mod}
use geoff.Sessions.{SessionType, Sessions}
use geoff.Sessions.Socket.{Socket}
use geoff.Sessions.Socket.Steps.{Move}
use geoff.Sessions.Socket.Local.{makes_session, is_quiet}
use geoff.Sessions.Socket.Commute.{Move-commute}
use geoff.Web.{Web, Reach, put}
use geoff.Web.Family.{update_other, update_commute}
use geoff.Web.Owned.{Owns}
use geoff.Web.Runs.{Reach-IsWeb}

-- In any state that the server reaches with no more than 2 ^ 32 sessions made, when a handler of one web socket runs and then one of
-- another, both with a session, they can run in the other order, and the server is left in the same
-- state; if neither handler makes a session and at most one of them has received a message, which may
-- change the world.
pub Reach-commute :
    {S W : Type 0} (t : SessionType S W) {world : W} {n : ℕ} {w : Web S W} (j k id id' : ℕ)
    {s s' : Socket} {m m' : Sessions S W}
    → Reach t world n w
    → n ≤ u32_mod
    → j ≢ k
    → Owns t w j id
    → Owns t w k id'
    → (one : Move t j (w.sockets j) w.sessions s m) → (two : Move t k (w.sockets k) m s' m')
    → makes_session t j one ≡ false
    → makes_session t k two ≡ false
    → (is_quiet t j one || is_quiet t k two) ≡ true
    → (m2 : Sessions S W) × Move t k (w.sockets k) w.sessions s' m2
      × Move t j ((put k (s', m2) w).sockets j) m2 s m'
      × (put j (s, m') (put k (s', m2) w) ≡ put k (s', m') (put j (s, m) w))
Reach-commute t {w = w} j k id id' {s} {s'} {m} {m'} r le ne own own' one two made made' quiet =
    let i = Reach-IsWeb t r le in
    let (m2, first, second) =
      Move-commute t j k id id' i.sessions own own'
        (λ e. ne (i.distinct j k id' (subst (Owns t w j) e own) own')) one two made made' quiet in
    (
      m2,
      first,
      subst (λ x. Move t j x m2 s m') (sym (update_other w.sockets k j s' ne)) second,
      ap (λ f. record w { sockets = f; sessions = m' })
          (update_commute w.sockets k j s' s (λ e. ne (sym e))),
    )
