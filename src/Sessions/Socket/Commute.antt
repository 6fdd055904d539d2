-- ===== src/Sessions/Socket/Commute.antt =====
-- The handlers of two web sockets may run in either order (lib/inc/websocket_session.h).
use geoff.Prelude.{
  ℕ, ◌≡◌, ◌≢◌, refl, true, false, ◌||◌, Option, some, inl, inr, ◌⊎◌, sym, ◌∙◌, ap, subst, arith,
}
use geoff.SortedMap.{SortedMap, lookup}
use geoff.SortedMap.Laws.{Sorted}
use geoff.SortedMap.Cells.{write, write_commute, lookup-write_other, write-Sorted}
use geoff.Sessions.{SessionType, Sessions}
use geoff.Sessions.Reachable.{IsSessions}
use geoff.Sessions.Socket.{Socket}
use geoff.Sessions.Socket.Cell.{with_cell}
use geoff.Sessions.Socket.Steps.{Move}
use geoff.Sessions.Socket.Local.{makes_session, is_quiet, Local, Quiet, move-Local, move-Quiet}

abbrev stored : {S W : Type 0} → ℕ → Option (Option S) → W → Sessions S W → Sessions S W
stored id c w m = record m { map = write id c m.map; world = w }

abbrev with_map : {S W : Type 0} → Sessions S W → W → SortedMap (Option S) → Sessions S W
with_map m w map = record m { map = map; world = w }

module _ {S W : Type 0} (t : SessionType S W) (this this' : ℕ) {s1 s1' s2 s2' : Socket}
    (m m1 m12 : Sessions S W) (id1 id2 : ℕ) (ne : id1 ≢ id2) (sorted : Sorted 0 m.map) where
  quiet_first :
      Quiet t this id1 s1 m s1' m1
      → Local t this' id2 s2 m1 s2' m12
      → (m2 : Sessions S W) × Move t this' s2 m s2' m2 × Move t this s1 m2 s1' m12
  quiet_first q l =
      let m2 = stored id2 l.cell l.world m in
      let lk : lookup id2 m1.map ≡ lookup id2 m.map =
        ap (λ n. lookup id2 n.map) q.result
        ∙ lookup-write_other id1 id2 q.cell m.map (λ e. ne (sym e)) in
      (
        m2,
        l.again m sorted (sym lk) (sym (ap (λ n. n.world) q.result)),
        subst (Move t this s1 m2 s1')
            (ap (with_map m l.world) (write_commute id1 id2 q.cell l.cell m.map ne sorted)
              ∙ sym (l.result ∙ ap (stored id2 l.cell l.world) q.result))
            (q.again m2 (write-Sorted id2 l.cell m.map sorted)
              (lookup-write_other id2 id1 l.cell m.map ne)),
      )

  quiet_second :
      Local t this id1 s1 m s1' m1
      → Quiet t this' id2 s2 m1 s2' m12
      → (m2 : Sessions S W) × Move t this' s2 m s2' m2 × Move t this s1 m2 s1' m12
  quiet_second l q =
      let m2 = with_cell id2 q.cell m in
      let lk : lookup id2 m1.map ≡ lookup id2 m.map =
        ap (λ n. lookup id2 n.map) l.result
        ∙ lookup-write_other id1 id2 l.cell m.map (λ e. ne (sym e)) in
      (
        m2,
        q.again m sorted (sym lk),
        subst (Move t this s1 m2 s1')
            (ap (with_map m l.world) (write_commute id1 id2 l.cell q.cell m.map ne sorted)
              ∙ sym (q.result ∙ ap (with_cell id2 q.cell) l.result))
            (l.again m2 (write-Sorted id2 q.cell m.map sorted)
              (lookup-write_other id2 id1 q.cell m.map ne) refl),
      )

-- Two web sockets of different sessions whose handlers run one after the other can run them in the
-- other order, and each is then left as it was, and so are the sessions; if neither handler makes a
-- session and at most one of them has received a message, which may change the world.
pub Move-commute :
    {S W : Type 0} (t : SessionType S W) (this this' : ℕ) {s1 s1' s2 s2' : Socket}
    {m m1 m12 : Sessions S W} (id1 id2 : ℕ)
    → IsSessions t m
    → s1.session_id ≡ some id1
    → s2.session_id ≡ some id2
    → id1 ≢ id2
    → (one : Move t this s1 m s1' m1) → (two : Move t this' s2 m1 s2' m12)
    → makes_session t this one ≡ false
    → makes_session t this' two ≡ false
    → (is_quiet t this one || is_quiet t this' two) ≡ true
    → (m2 : Sessions S W) × Move t this' s2 m s2' m2 × Move t this s1 m2 s1' m12
Move-commute t this this' {s1} {s1'} {s2} {s2'} {m} {m1} {m12} id1 id2 i e1 e2 ne one two j1 j2 q =
    let l1 = move-Local t this id1 one j1 e1 i.sorted in
    let sorted : Sorted 0 m1.map =
      subst (λ n. Sorted 0 n.map) (sym l1.result) (write-Sorted id1 l1.cell m.map i.sorted) in
    let cases : (is_quiet t this one ≡ true) ⊎ (is_quiet t this' two ≡ true) = ground arith in
    elim cases [
      | inl q1 ↦
          quiet_first t this this' m m1 m12 id1 id2 ne i.sorted
            (move-Quiet t this id1 one q1 e1 i.sorted) (move-Local t this' id2 two j2 e2 sorted)
      | inr q2 ↦
          quiet_second t this this' m m1 m12 id1 id2 ne i.sorted l1
            (move-Quiet t this' id2 two q2 e2 sorted)
    ]
