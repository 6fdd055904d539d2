-- ===== src/Sessions/Socket/Within.antt =====
-- What a web socket leaves of the sessions of the others (lib/inc/websocket_session.h,
-- lib/src/WebsockServer.cpp).
use geoff.Prelude.{
  ℕ, ◌≡◌, ◌≢◌, refl, List, Option, none, some, arith, inl, inr, ◌⊎◌, sym, ◌∙◌, ap, subst,
  >>=-eq-some, Option-cases,
}
use mathlib.Core.Option.{some-injective, some-ne-none}
use geoff.SortedMap.{SortedMap, lookup, insert, remove}
use geoff.SortedMap.Laws.{lookup-insert, lookup-insert_other, lookup-remove, lookup-remove_other}
use geoff.Sessions.{
  SessionType, Sessions, find_by_id, entered, delete_by_id, server_comms_handler, handled,
}
use geoff.Sessions.Reachable.{IsSessions}
use geoff.Sessions.Socket.{send_next, find_and_send, Socket}
use geoff.Sessions.Socket.Present.{Present}

module _ {S W : Type 0} (t : SessionType S W) where
  -- A session in `map` is one of `from`, with the callback that it had.
  abbrev pub Kept : ℕ → S → SortedMap (Option S) → Type 0
  Kept k x' from = (x : S) × (lookup k from ≡ some (some x)) × (t.on_tx_ready x' ≡ t.on_tx_ready x)

  -- From `m` to `m'` no session is new, no callback is another, and none is lost but that of `id`.
  pub record Within (id : ℕ) (m m' : Sessions S W) : Type 0 where
    pub next : m'.next_id ≡ m.next_id
    pub others : (k : ℕ) → k ≢ id → Present k m → Present k m'
    pub kept : (k : ℕ) (x' : S) → lookup k m'.map ≡ some (some x') → Kept k x' m.map

  pub Within-refl : (id : ℕ) (m : Sessions S W) → Within id m m
  Within-refl id m = record { next = refl; others = λ k ne p. p; kept = λ k x e. (x, e, refl) }

  pub Within-trans :
      {id : ℕ} {m m1 m2 : Sessions S W} → Within id m m1 → Within id m1 m2 → Within id m m2
  Within-trans w w' = record {
    next = w'.next ∙ w.next;
    others = λ k ne p. w'.others k ne (w.others k ne p);
    kept = λ k x' e.
        let (x1, e1, c1) = w'.kept k x' e in let (x, e0, c0) = w.kept k x1 e1 in (x, e0, c1 ∙ c0);
  }

  -- The entry at `id` is another one, or none.
  insert-Within :
      (id : ℕ) (o : Option S) (m m' : Sessions S W)
      → m'.map ≡ insert id o m.map
      → m'.next_id ≡ m.next_id
      → ((x' : S) → o ≡ some x' → Kept id x' m.map)
      → Within id m m'
  insert-Within id o m m' e n h = record {
    next = n;
    others = λ k ne (x, p). (x, ap (lookup k) e ∙ lookup-insert_other id k o m.map ne ∙ p);
    kept = λ k x' p.
        let same : (k ≡ id) ⊎ (k ≢ id) = omega arith in
        let p' = sym (ap (lookup k) e) ∙ p in
        elim same [
          | inl eq ↦
              subst (λ j. Kept j x' m.map) (sym eq)
                (h x' (
                  some-injective _ _ (
                    sym (lookup-insert id o m.map)
                    ∙ subst (λ j. lookup j (insert id o m.map) ≡ some (some x')) eq p')))
          | inr ne ↦ (x', sym (lookup-insert_other id k o m.map ne) ∙ p', refl)
        ];
  }

  pub delete_by_id-Within :
      (id : ℕ) (m : Sessions S W) → IsSessions t m → Within id m (delete_by_id id m)
  unfolding delete_by_id
  delete_by_id-Within id m i = record {
    next = refl;
    others = λ k ne (x, p). (x, lookup-remove_other id k m.map ne ∙ p);
    kept = λ k x' p.
        let same : (k ≡ id) ⊎ (k ≢ id) = omega arith in
        elim same [
          | inl eq ↦ absurd (
              some-ne-none _ (
                sym p
                ∙ subst (λ j. lookup j (remove id m.map) ≡ none) (sym eq)
                    (lookup-remove id 0 m.map i.sorted)))
          | inr ne ↦ (x', sym (lookup-remove_other id k m.map ne) ∙ p, refl)
        ];
  }

  -- The session that is found is the one that was there.
  find_by_id-Within :
      (id : ℕ) (m : Sessions S W)
      → Within id m (find_by_id id m).1
        × ((x : S)
            → (find_by_id id m).0 ≡ some x
            → lookup id (find_by_id id m).1.map ≡ some (some x))
  unfolding find_by_id entered
  find_by_id-Within id m = elim (Option-cases (lookup id m.map)) [
    | inl e ↦
        rw (e, find_by_id, entered)
          (
            insert-Within id none m _ refl refl (λ x' e'. absurd (some-ne-none _ (sym e'))),
            λ x e'. absurd (some-ne-none _ (sym e')),
          )
    | inr (o, e) ↦ rw (e, find_by_id, entered) (Within-refl id m, λ x e'. e ∙ ap some e')
  ]

  handled-Within :
      (id : ℕ) (bytes : List ℕ) (o : Option S) (m m' : Sessions S W)
      → ((x : S) → o ≡ some x → lookup id m.map ≡ some (some x))
      → handled t id bytes o m ≡ some m'
      → Within id m m'
  unfolding handled
  handled-Within id bytes none m m' h e =
      subst (Within id m) (some-injective _ _ e) (Within-refl id m)
  handled-Within id bytes (some x) m m' h e =
      let ((x', w'), e1, e2) = >>=-eq-some (t.comms_handler bytes (x, m.world)) _ e in
      let (_, same) = t.comms_handler_frame bytes x x' m.world w' e1 in
      subst (Within id m) (some-injective _ _ e2) (
        insert-Within id (some x') m _ refl refl
          (λ y e3. (x, h x refl, ap t.on_tx_ready (sym (some-injective _ _ e3)) ∙ same)))

  pub server_comms_handler-Within :
      (id : ℕ) (bytes : List ℕ) (m m' : Sessions S W)
      → server_comms_handler t id bytes m ≡ some m'
      → Within id m m'
  unfolding server_comms_handler
  server_comms_handler-Within id bytes m m' e =
      let (w, h) = find_by_id-Within id m in
      Within-trans w (handled-Within id bytes (find_by_id id m).0 (find_by_id id m).1 m' h e)

  pub send_next-Within :
      (id : ℕ) (o : Option S) (s : Socket) (m : Sessions S W)
      → ((x : S) → o ≡ some x → lookup id m.map ≡ some (some x))
      → Within id m (send_next t id o (s, m)).1
  unfolding send_next
  send_next-Within id none s m h = Within-refl id m
  send_next-Within id (some x) s m h =
      let (_, same) = t.get_next_tx_buffer_frame x in
      insert-Within id (some (t.get_next_tx_buffer x).1) m _ refl refl
        (λ y e. (x, h x refl, ap t.on_tx_ready (sym (some-injective _ _ e)) ∙ same))

  pub find_and_send-Within :
      (id : ℕ) (s : Socket) (m : Sessions S W) → Within id m (find_and_send t id (s, m)).1
  unfolding find_and_send
  find_and_send-Within id s m =
      let (w, h) = find_by_id-Within id m in
      Within-trans w (send_next-Within id (find_by_id id m).0 s (find_by_id id m).1 h)
