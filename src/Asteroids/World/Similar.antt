-- ===== src/Asteroids/World/Similar.antt =====
-- A tick leaves the sessions what they are (apps/asteroids/src/Timer.cpp, Universe.cpp).
use geoff.Prelude.{
  ℕ, suc, ◌≡◌, ◌≢◌, ◌⊎◌, inl, inr, List, [], ◌∷◌, Option, none, some, refl, sym, ◌∙◌, arith,
  >>=-eq-some, subst,
}
use mathlib.Core.Option.{some-injective, some-ne-none}
use geoff.Words.{Host}
use geoff.Double.{Double}
use geoff.SortedMap.{lookup}
use geoff.SortedMap.Laws.{Sorted, lookup_head, lookup_skip}
use geoff.Asteroids.Player.{Player}
use geoff.Asteroids.Player
use geoff.Asteroids.Collision.{collision_detection}
use geoff.Asteroids.Universe.{tick_message}
use geoff.Asteroids.Session.{Session, World, player_of}
use geoff.Asteroids.Session.Managed.{SameSession, commit-Same}
use geoff.Asteroids.World.{
  SessionMap, client, peers, tell_one, tell, act, act_all, universe_tick, tick,
}

-- The same ids in the same order, with the same sessions or null pointers at them.
pub data Similar : SessionMap → SessionMap → Type 0 where
  nil : Similar [] []
  null : (id : ℕ) {m m' : SessionMap} → Similar m m' → Similar ((id, none) ∷ m) ((id, none) ∷ m')
  session :
      (id : ℕ) {s s' : Session} {m m' : SessionMap}
      → SameSession s s'
      → Similar m m'
      → Similar ((id, some s) ∷ m) ((id, some s') ∷ m')

Similar-Sorted : {m m' : SessionMap} (low : ℕ) → Similar m m' → Sorted low m → Sorted low m'
Similar-Sorted low nil h = tt
Similar-Sorted low (null id r) (le, h) = (le, Similar-Sorted (suc id) r h)
Similar-Sorted low (session id e r) (le, h) = (le, Similar-Sorted (suc id) r h)

Similar-sym : {m m' : SessionMap} → Similar m m' → Similar m' m
Similar-sym nil = nil
Similar-sym (null id r) = null id (Similar-sym r)
Similar-sym (session id (e, c) r) = session id (sym e, sym c) (Similar-sym r)

-- Of a session that is found, one that is the same is found.
Similar-lookup :
    {m m' : SessionMap} (k : ℕ) (x : Session)
    → Similar m m'
    → lookup k m ≡ some (some x)
    → (x' : Session) × (lookup k m' ≡ some (some x')) × SameSession x x'
unfolding lookup
Similar-lookup k x nil e = absurd (some-ne-none _ (sym e))
Similar-lookup k x (null id {m} {m'} r) e =
    let same : (k ≡ id) ⊎ (k ≢ id) = omega arith in
    elim same [
      | inl eq ↦ absurd (
          some-ne-none _ (
            sym (
              some-injective _ _ (
                sym (lookup_head k none m)
                ∙ subst (λ j. lookup k ((j, none) ∷ m) ≡ some (some x)) (sym eq) e))))
      | inr ne ↦
          let (x', e', h) = Similar-lookup k x r (sym (lookup_skip k id none m ne) ∙ e) in
          (x', lookup_skip k id none m' ne ∙ e', h)
    ]
Similar-lookup k x (session id {s} {s'} {m} {m'} h r) e =
    let same : (k ≡ id) ⊎ (k ≢ id) = omega arith in
    elim same [
      | inl eq ↦
          let found : s ≡ x = some-injective _ _ (
            some-injective _ _ (
              sym (lookup_head k (some s) m)
              ∙ subst (λ j. lookup k ((j, some s) ∷ m) ≡ some (some x)) (sym eq) e)) in
          (
            s',
            subst (λ j. lookup k ((j, some s') ∷ m') ≡ some (some s')) eq
                (lookup_head k (some s') m'),
            subst (λ y. SameSession y s') found h,
          )
      | inr ne ↦
          let (x', e', same_session) =
            Similar-lookup k x r (sym (lookup_skip k id (some s) m ne) ∙ e) in
          (x', lookup_skip k id (some s') m' ne ∙ e', same_session)
    ]

-- What a tick keeps of a map: its order, and the sessions that are found in it, both ways.
pub record SameMap (m m' : SessionMap) : Type 0 where
  pub sorted : Sorted 0 m → Sorted 0 m'
  pub present :
      (k : ℕ) (x : Session)
      → lookup k m ≡ some (some x)
      → (x' : Session) × (lookup k m' ≡ some (some x')) × SameSession x x'
  pub kept :
      (k : ℕ) (x' : Session)
      → lookup k m' ≡ some (some x')
      → (x : Session) × (lookup k m ≡ some (some x)) × SameSession x x'

Similar-SameMap : {m m' : SessionMap} → Similar m m' → SameMap m m'
Similar-SameMap r = record {
  sorted = Similar-Sorted 0 r;
  present = λ k x e. Similar-lookup k x r e;
  kept = λ k x' e.
      let (x, e0, (i, c)) = Similar-lookup k x' (Similar-sym r) e in (x, e0, (sym i, sym c));
}

SameMap-trans : {m m1 m2 : SessionMap} → SameMap m m1 → SameMap m1 m2 → SameMap m m2
SameMap-trans a b = record {
  sorted = λ h. b.sorted (a.sorted h);
  present = λ k x e.
      let (x1, e1, (i1, c1)) = a.present k x e in
      let (x2, e2, (i2, c2)) = b.present k x1 e1 in (x2, e2, (i2 ∙ i1, c2 ∙ c1));
  kept = λ k x2 e.
      let (x1, e1, (i1, c1)) = b.kept k x2 e in
      let (x, e0, (i0, c0)) = a.kept k x1 e1 in (x, e0, (i1 ∙ i0, c1 ∙ c0));
}

module _ {W : Type 0} ⦃d : Double W⦄ ⦃host : Host⦄ where
  tell_one-Same :
      (all : List (ℕ × Option (Player W))) (s s' : Session) (w : World W) (o : Option (Player W))
      → tell_one all s w o ≡ some s'
      → SameSession s s'
  unfolding tell_one
  tell_one-Same all s s' w none e = subst (SameSession s) (some-injective _ _ e) (refl, refl)
  tell_one-Same all s s' w (some p) e =
      let (tx, _, e1) = >>=-eq-some (tick_message _ _ all (client s w)) _ e in
      subst (SameSession s) (some-injective _ _ e1) (commit-Same tx s)

  tell-Similar :
      (all : List (ℕ × Option (Player W))) (m m' : SessionMap) (w : World W)
      → tell all m w ≡ some m'
      → Similar m m'
  unfolding tell
  tell-Similar all [] m' w e = subst (Similar []) (some-injective _ _ e) nil
  tell-Similar all ((id, none) ∷ m) m' w e = absurd (some-ne-none _ (sym e))
  tell-Similar all ((id, some s) ∷ m) m' w e =
      let (s', one, e1) = >>=-eq-some (tell_one all s w (player_of s w)) _ e in
      let (m1, told, e2) = >>=-eq-some (tell all m w) _ e1 in
      subst (Similar ((id, some s) ∷ m)) (some-injective _ _ e2)
        (session id (tell_one-Same all s s' w (player_of s w) one) (tell-Similar all m m1 w told))

  act-Same :
      (s : Session) (w : World W) (o : Option (Player W)) (q : Session × World W)
      → act s w o ≡ some q
      → SameSession s q.0
  unfolding act
  act-Same s w none q e = subst (λ r. SameSession s r.0) (some-injective _ _ e) (refl, refl)
  act-Same s w (some p) q e =
      let ((p', tx), _, e1) = >>=-eq-some (Player.tick_event w.universe (client s w) p) _ e in
      subst (λ r. SameSession s r.0) (some-injective _ _ e1) (commit-Same tx s)

  act_all-Similar :
      (m : SessionMap) (w : World W) (q : SessionMap × World W)
      → act_all m w ≡ some q
      → Similar m q.0
  unfolding act_all
  act_all-Similar [] w q e = subst (λ r. Similar [] r.0) (some-injective _ _ e) nil
  act_all-Similar ((id, none) ∷ m) w q e =
      let ((m', w'), rest, e1) = >>=-eq-some (act_all m w) _ e in
      subst (λ r. Similar ((id, none) ∷ m) r.0) (some-injective _ _ e1)
        (null id (act_all-Similar m w (m', w') rest))
  act_all-Similar ((id, some s) ∷ m) w q e =
      let ((s', w1), acted, e1) = >>=-eq-some (act s w (player_of s w)) _ e in
      let ((m', w2), rest, e2) = >>=-eq-some (act_all m w1) _ e1 in
      subst (λ r. Similar ((id, some s) ∷ m) r.0) (some-injective _ _ e2)
        (session id (act-Same s w (player_of s w) (s', w1) acted)
          (act_all-Similar m w1 (m', w2) rest))

  -- A tick that does not fault changes the sessions in place.
  pub tick-SameMap :
      (rand : ℕ → ℕ) (rand_max count : ℕ) (m : SessionMap) (w : World W) (q : SessionMap × World W)
      → tick rand rand_max count m w ≡ some q
      → SameMap m q.0
  unfolding tick universe_tick
  tick-SameMap rand rand_max count m w q e =
      let ((m1, w1), ticked, e1) = >>=-eq-some (universe_tick rand rand_max count m w) _ e in
      let ((players, field), _, e2) =
        >>=-eq-some (collision_detection rand rand_max _ _) _ ticked in
      let (all, _, e3) = >>=-eq-some (peers m _) _ e2 in
      let (m2, told, e4) = >>=-eq-some (tell all m _) _ e3 in
      let same : SameMap m m1 =
        subst (λ r. SameMap m r.0) (some-injective _ _ e4)
          (Similar-SameMap (tell-Similar all m m2 _ told)) in
      SameMap-trans same (Similar-SameMap (act_all-Similar m1 w1 q e1))
