-- ===== src/Sessions/Socket/Shared.antt =====
-- What the handlers of a web socket keep of what the sessions share (lib/inc/websocket_session.h,
-- WebsockServer::CommsHandler in lib/src/WebsockServer.cpp).
use geoff.Prelude.{
  ℕ, ◌≡◌, ◌∙◌, refl, List, Option, none, some, >>=-eq-some, sym, subst, ap, Option-cases, inl, inr,
}
use mathlib.Core.Option.{some-injective}
use geoff.SortedMap.{lookup}
use geoff.Sessions.{
  SessionType, Sessions, add_session, find_by_id, entered, delete_by_id, handled,
  server_comms_handler,
}
use geoff.Sessions.Found.{find_by_id-add_session}
use geoff.Sessions.Socket.{
  Socket, Incoming, closed, read_error, message, with_callback, send_next, find_and_send, on_accept,
  on_message, on_read, on_write,
}
use geoff.Http.Failure.{ErrorCode}

module _ {S W : Type 0} (t : SessionType S W) where
  find_by_id_world : (id : ℕ) (m : Sessions S W) → (find_by_id id m).1.world ≡ m.world
  unfolding find_by_id entered
  find_by_id_world id m = elim (Option-cases (lookup id m.map)) [
    | inl e ↦ rw (e, find_by_id, entered) refl
    | inr (o, e) ↦ rw (e, find_by_id, entered) refl
  ]

  pub send_next_world :
      (id : ℕ) (o : Option S) (s : Socket) (m : Sessions S W)
      → (send_next t id o (s, m)).1.world ≡ m.world
  unfolding send_next
  send_next_world id none s m = refl
  send_next_world id (some x) s m = refl

  find_and_send_world :
      (id : ℕ) (s : Socket) (m : Sessions S W) → (find_and_send t id (s, m)).1.world ≡ m.world
  unfolding find_and_send
  find_and_send_world id s m =
      send_next_world id (find_by_id id m).0 s (find_by_id id m).1 ∙ find_by_id_world id m

module _ {S W : Type 0} (t : SessionType S W) (P : W → Type 0)
    (handler : (bytes : List ℕ) (s s' : S) (w w' : W)
      → P w
      → t.comms_handler bytes (s, w) ≡ some (s', w')
      → P w') where
  handled-keeps :
      (id : ℕ) (bytes : List ℕ) (o : Option S) (m m' : Sessions S W)
      → P m.world
      → handled t id bytes o m ≡ some m'
      → P m'.world
  unfolding handled
  handled-keeps id bytes none m m' p e = subst (λ r. P r.world) (some-injective _ _ e) p
  handled-keeps id bytes (some x) m m' p e =
      let ((x', w'), e1, e2) = >>=-eq-some (t.comms_handler bytes (x, m.world)) _ e in
      subst (λ r. P r.world) (some-injective _ _ e2) (handler bytes x x' m.world w' p e1)

  on_message-keeps :
      (id : ℕ) (bytes : List ℕ) (s : Socket) (m : Sessions S W) (q : Socket × Sessions S W)
      → P m.world
      → on_message t id bytes (s, m) ≡ some q
      → P q.1.world
  unfolding on_message server_comms_handler
  on_message-keeps id bytes s m q p e =
      let (m1, h, e1) = >>=-eq-some (server_comms_handler t id bytes m) _ e in
      let found = find_by_id id m in
      let p1 =
        handled-keeps id bytes found.0 found.1 m1 (subst P (sym (find_by_id_world t id m)) p) h in
      subst (λ r. P r.1.world) (some-injective _ _ e1)
        (subst P (sym (find_and_send_world t id s m1)) p1)

  pub on_accept-keeps :
      (this : ℕ) (ec : Option ErrorCode) (s : Socket) (m : Sessions S W) (q : Socket × Sessions S W)
      → P m.world
      → on_accept t this ec (s, m) ≡ some q
      → P q.1.world
  unfolding on_accept with_callback add_session
  on_accept-keeps this none s m q p e =
      let e1 = ap (λ f. with_callback t this m.next_id f s) (find_by_id-add_session t m) in
      subst (λ r. P r.1.world) (some-injective _ _ (sym e1 ∙ e)) p
  on_accept-keeps this (some ec) s m q p e = subst (λ r. P r.1.world) (some-injective _ _ e) p

  -- What every message that is handled keeps, every read keeps.
  pub on_read-keeps :
      (incoming : Incoming) (s : Socket) (m : Sessions S W) (q : Socket × Sessions S W)
      → P m.world
      → on_read t incoming (s, m) ≡ some q
      → P q.1.world
  unfolding on_read delete_by_id
  on_read-keeps closed s m q p e =
      let (id, _, e1) = >>=-eq-some s.session_id _ e in
      subst (λ r. P r.1.world) (some-injective _ _ e1) p
  on_read-keeps (read_error ec) s m q p e = subst (λ r. P r.1.world) (some-injective _ _ e) p
  on_read-keeps (message bytes) s m q p e =
      let (id, _, e1) = >>=-eq-some s.session_id _ e in on_message-keeps id bytes s m q p e1

  pub on_write-keeps :
      (ec : Option ErrorCode) (s : Socket) (m : Sessions S W) (q : Socket × Sessions S W)
      → P m.world
      → on_write t ec (s, m) ≡ some q
      → P q.1.world
  unfolding on_write
  on_write-keeps none s m q p e =
      let (id, _, e1) = >>=-eq-some s.session_id _ e in
      subst (λ r. P r.1.world) (some-injective _ _ e1)
        (subst P (sym (find_and_send_world t id _ m)) p)
  on_write-keeps (some ec) s m q p e = subst (λ r. P r.1.world) (some-injective _ _ e) p
