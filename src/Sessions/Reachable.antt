-- ===== src/Sessions/Reachable.antt =====
-- What the map of the sessions can be (lib/inc/WebsockSessionManager.h, src/WebsockServer.cpp).
use geoff.Prelude.{
  ℕ, ◌<◌, ◌≡◌, ◌≢◌, refl, List, Option, none, some, arith, >>=-eq-some, Option-cases, inl, inr, ◌⊎◌,
  ap, sym, ◌∙◌, subst,
}
use mathlib.Core.Option.{some-injective, some-ne-none}
use geoff.Words.{u32_mod}
use geoff.SortedMap.{SortedMap, lookup, insert, remove}
use geoff.SortedMap.Laws.{
  Sorted, lookup-insert, lookup-insert_other, lookup-remove, lookup-remove_other, insert-Sorted,
  remove-Sorted,
}
use geoff.Sessions.{
  SessionType, Sessions, empty, find_by_id, delete_by_id, add_session, server_comms_handler,
  entered, handled,
}

module _ {S W : Type 0} (t : SessionType S W) where
  -- The calls of the server: OnAccept, OnClose, FindSessionByID and CommsHandler.
  pub data Step (m : Sessions S W) : Sessions S W → Type 0 where
    accept : Step m (add_session t m).1
    close : (id : ℕ) → Step m (delete_by_id id m)
    find : (id : ℕ) → Step m (find_by_id id m).1
    message :
        {m' : Sessions S W} (id : ℕ) (bytes : List ℕ)
        → server_comms_handler t id bytes m ≡ some m'
        → Step m m'

  pub data Reach : Sessions S W → Type 0 where
    start : (w : W) → Reach (empty w)
    later : {m m' : Sessions S W} → Reach m → Step m m' → Reach m'

  abbrev pub Keyed : SortedMap (Option S) → Type 0
  Keyed map = (id : ℕ) (s : S) → lookup id map ≡ some (some s) → t.session_id s ≡ id

  -- Each session stands at its own id, and the next id is a `uint32_t`.
  pub record IsSessions (m : Sessions S W) : Type 0 where
    pub sorted : Sorted 0 m.map
    pub keyed : Keyed m.map
    pub next_lt : m.next_id < u32_mod

  insert-Keyed :
      (key : ℕ) (o : Option S) (map : SortedMap (Option S))
      → ((s : S) → o ≡ some s → t.session_id s ≡ key)
      → Keyed map
      → Keyed (insert key o map)
  insert-Keyed key o map h keyed id s e =
      let same : (id ≡ key) ⊎ (id ≢ key) = omega arith in
      elim same [
        | inl eq ↦
            let stored = lookup-insert key o map in
            h s (
              some-injective _ _
                (sym stored ∙ (subst (λ k. lookup k (insert key o map) ≡ some (some s)) eq e)))
            ∙ sym eq
        | inr ne ↦ keyed id s (sym (lookup-insert_other key id o map ne) ∙ e)
      ]

  remove-Keyed :
      (key : ℕ) (map : SortedMap (Option S)) → Sorted 0 map → Keyed map → Keyed (remove key map)
  remove-Keyed key map sorted keyed id s e =
      let same : (id ≡ key) ⊎ (id ≢ key) = omega arith in
      elim same [
        | inl eq ↦ absurd (
            some-ne-none _ (
              sym e
              ∙ subst (λ k. lookup k (remove key map) ≡ none) (sym eq)
                  (lookup-remove key 0 map sorted)))
        | inr ne ↦ keyed id s (sym (lookup-remove_other key id map ne) ∙ e)
      ]

  pub add_session-IsSessions : (m : Sessions S W) → IsSessions m → IsSessions (add_session t m).1
  unfolding add_session
  add_session-IsSessions m i = record {
    sorted = insert-Sorted m.next_id 0 _ m.map (omega arith) i.sorted;
    keyed =
        insert-Keyed m.next_id _ m.map
          (λ s e. ap t.session_id (sym (some-injective _ _ e)) ∙ t.session_id-make m.next_id)
          i.keyed;
    next_lt = omega arith;
  }

  -- A session that is changed in place.
  pub insert-IsSessions :
      (id : ℕ) (s : S) (m : Sessions S W)
      → t.session_id s ≡ id
      → IsSessions m
      → IsSessions (record m { map = insert id (some s) m.map })
  insert-IsSessions id s m e i = record {
    sorted = insert-Sorted id 0 (some s) m.map (omega arith) i.sorted;
    keyed =
        insert-Keyed id (some s) m.map (λ s' e'. ap t.session_id (sym (some-injective _ _ e')) ∙ e)
          i.keyed;
    next_lt = i.next_lt;
  }

  pub delete_by_id-IsSessions :
      (id : ℕ) (m : Sessions S W) → IsSessions m → IsSessions (delete_by_id id m)
  unfolding delete_by_id
  delete_by_id-IsSessions id m i = record {
    sorted = remove-Sorted id 0 m.map i.sorted;
    keyed = remove-Keyed id m.map i.sorted i.keyed;
    next_lt = i.next_lt;
  }

  pub find_by_id-IsSessions :
      (id : ℕ) (m : Sessions S W)
      → IsSessions m
      → IsSessions (find_by_id id m).1
        × ((s : S) → (find_by_id id m).0 ≡ some s → t.session_id s ≡ id)
  unfolding find_by_id entered
  find_by_id-IsSessions id m i = elim (Option-cases (lookup id m.map)) [
    | inl e ↦
        rw (e, find_by_id, entered)
          (
            record {
              sorted = insert-Sorted id 0 none m.map (omega arith) i.sorted;
              keyed = insert-Keyed id none m.map (λ s e'. absurd (some-ne-none _ (sym e'))) i.keyed;
              next_lt = i.next_lt;
            },
            λ s e'. absurd (some-ne-none _ (sym e')),
          )
    | inr (o, e) ↦ rw (e, find_by_id, entered) (i, λ s e'. i.keyed id s (e ∙ ap some e'))
  ]

  handled-IsSessions :
      (id : ℕ) (bytes : List ℕ) (o : Option S) (m m' : Sessions S W)
      → IsSessions m
      → ((s : S) → o ≡ some s → t.session_id s ≡ id)
      → handled t id bytes o m ≡ some m'
      → IsSessions m'
  unfolding handled
  handled-IsSessions id bytes none m m' i h e = subst IsSessions (some-injective _ _ e) i
  handled-IsSessions id bytes (some s) m m' i h e =
      let ((s', w'), e1, e2) = >>=-eq-some (t.comms_handler bytes (s, m.world)) _ e in
      let (same_id, _) = t.comms_handler_frame bytes s s' m.world w' e1 in
      subst IsSessions (some-injective _ _ e2) (record {
        sorted = insert-Sorted id 0 (some s') m.map (omega arith) i.sorted;
        keyed =
            insert-Keyed id (some s') m.map
              (λ s1 e3. ap t.session_id (sym (some-injective _ _ e3)) ∙ same_id ∙ h s refl) i.keyed;
        next_lt = i.next_lt;
      })

  pub step-IsSessions : {m m' : Sessions S W} → Step m m' → IsSessions m → IsSessions m'
  unfolding server_comms_handler
  step-IsSessions {m} accept i = add_session-IsSessions m i
  step-IsSessions {m} (close id) i = delete_by_id-IsSessions id m i
  step-IsSessions {m} (find id) i = (find_by_id-IsSessions id m i).0
  step-IsSessions {m} {m'} (message id bytes e) i =
      let (i', h) = find_by_id-IsSessions id m i in
      handled-IsSessions id bytes (find_by_id id m).0 (find_by_id id m).1 m' i' h e

  -- Whatever the server is called with, the map is one: its keys rise, each session stands at its
  -- own id, and the next id is a `uint32_t`.
  pub Reach-IsSessions : {m : Sessions S W} → Reach m → IsSessions m
  unfolding lookup
  Reach-IsSessions (start w) = record {
    sorted = tt;
    keyed = λ id s e. absurd (some-ne-none _ (sym e));
    next_lt = omega arith;
  }
  Reach-IsSessions (later r step) = step-IsSessions step (Reach-IsSessions r)
