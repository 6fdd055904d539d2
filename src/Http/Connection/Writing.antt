-- ===== src/Http/Connection/Writing.antt =====
-- What the end of a write does to a connection (http_session::on_write in lib/src/geoff.cpp).
use geoff.Prelude.{
  suc, ◌≡◌, refl, ◌⊎◌, inl, inr, true, false, List, [], ◌∷◌, Option, none, some, arith, length,
  take, ◌∙◌, sym, subst, ap, if◌then◌else◌, Bool-cases,
}
use geoff.Http.Text.{codes}
use geoff.Http.Handle.{Response}
use geoff.Http.Failure.{ErrorCode}
use geoff.Http.Queue
use geoff.Http.Queue.{Queue, limit, is_full}
use geoff.Http.Queue.Laws.{writing_first, on_write_next}
use geoff.Http.Pipeline
use geoff.Http.Pipeline.{Action, accept, finish, idle}
use geoff.Http.Connection.{Connection, Protocol, do_read, do_eof, on_write, write_next, failed}
use geoff.Http.Connection.Steps.{write_action, is_last, written}
use geoff.Http.Connection.Invariant.{IsConnection, Outcome, do_eof_frame, Waits}

module _ (c : Connection) (msg : Response) (rest : List Response) where
  -- Nothing is written any more: `c'` is left with its items, of which the first was written when
  -- the action says so.
  stopped :
      (a : Action) (c' : Connection)
      → IsConnection c
      → c.queue.writing ≡ msg ∷ []
      → c.queue.items ≡ msg ∷ rest
      → c'.queue.items ≡ msg ∷ rest
      → c'.queue.writing ≡ []
      → c'.handshakes ≡ c.handshakes
      → c'.reads ≡ c.reads
      → (a ≡ idle) ⊎ (a ≡ finish msg)
      → Outcome a true c c'
  stopped a c' i w e e' w' h r seen =
      let one = i.one_read in
      let room = i.room in
      let n = ap (λ l. length l) e in
      let n' = ap (λ l. length l) e' in
      record {
        keeps = record {
          in_order = inr (w', omega arith);
          one_read = omega arith;
          room = omega arith;
        };
        simulates = λ q waits. go q waits seen;
        serves = λ l. cc;
        stays_quiet = λ s.
            let none_read = s.no_read in
            let not_full = s.not_full in record { no_read = omega arith; not_full = omega arith };
      }
    where
      go :
          (q : List Response)
          → Waits c q
          → (a ≡ idle) ⊎ (a ≡ finish msg)
          → (q' : List Response) × Pipeline.Step q a q' × Waits c' q'
      go q (inr (m, i', none_writing)) s = absurd (cc)
      go q (inl items) (inl s) =
          (q, subst (λ a'. Pipeline.Step q a' q) (sym s) Pipeline.Step.idled, inl (cc))
      go q (inl items) (inr s) = (
        rest,
        subst (λ a'. Pipeline.Step q a' rest) (sym s) (Pipeline.Step.finished msg rest (cc)),
        inr (msg, e', w'),
      )

  -- The first response was written, and the next one begins.
  moved_on :
      (c' : Connection)
      → IsConnection c
      → c.queue.writing ≡ msg ∷ []
      → c.queue.items ≡ msg ∷ rest
      → c'.queue.items ≡ rest
      → c'.queue.writing ≡ take 1 rest
      → c'.handshakes ≡ c.handshakes
      → c'.reads ≡ (if is_full c.queue then suc c.reads else c.reads)
      → Outcome (finish msg) false c c'
  unfolding is_full
  moved_on c' i w e e' w' h r =
      let one = i.one_read in
      let room = i.room in
      let n = ap (λ l. length l) e in
      let n' = ap (λ l. length l) e' in
      record {
        keeps = record {
          in_order = inl (w' ∙ ap (take 1) (sym e'));
          one_read = ground arith;
          room = ground arith;
        };
        simulates = λ q waits. elim waits [
          | inl items ↦ (rest, Pipeline.Step.finished msg rest (cc), inl e')
          | inr (m, items, none_writing) ↦ absurd (cc)
        ];
        serves = λ l s. (w' ∙ ap (take 1) (sym e'), ground arith);
        stays_quiet = λ s.
            let none_read = s.no_read in
            let not_full = s.not_full in record { no_read = ground arith; not_full = omega arith };
      }

on_write-full :
    (q : Queue) (msg : Response) (rest msgs : List Response)
    → q.items ≡ msg ∷ rest
    → msgs ≡ []
    → Queue.on_write (record q { writing = msgs })
      ≡ some (is_full q, record { items = rest; writing = take 1 rest })
unfolding is_full
on_write-full q msg rest msgs e empty = rw (e, empty) (on_write_next msg rest)

keep-Outcome :
    (c : Connection) (msg : Response) (rest msgs : List Response)
    → IsConnection c
    → c.queue.writing ≡ msg ∷ []
    → c.queue.items ≡ msg ∷ rest
    → msgs ≡ []
    → (c' : Connection) × (write_next (record c { queue = record c.queue { writing = msgs } })
        ≡ some c')
      × Outcome (finish msg) false c c'
unfolding write_next do_read
keep-Outcome c msg rest msgs i w e empty =
    let step = on_write-full c.queue msg rest msgs e empty in
    let queue : Queue = record { items = rest; writing = take 1 rest } in
    elim (Bool-cases (is_full c.queue)) [
      | inl full ↦ (
        record c { queue = queue; reads = suc c.reads },
        rw (step, full) refl,
        moved_on c msg rest (record c { queue = queue; reads = suc c.reads }) i w e refl refl refl
            (rw full refl),
      )
      | inr room ↦ (
        record c { queue = queue },
        rw (step, room) refl,
        moved_on c msg rest (record c { queue = queue }) i w e refl refl refl (rw room refl),
      )
    ]

-- What is seen of a write, and whether it is the last event.
pub write-Outcome :
    (protocol : Protocol) (ec : Option ErrorCode) (c : Connection) (msg : Response)
    (msgs : List Response)
    → IsConnection c
    → c.queue.writing ≡ msg ∷ msgs
    → (c' : Connection) × (on_write
          (protocol.need_eof msg)
          ec
          (record c { queue = record c.queue { writing = msgs } })
        ≡ some c')
      × Outcome (write_action (msg ∷ msgs) ec) (is_last protocol (msg ∷ msgs) (written ec)) c c'
unfolding on_write
write-Outcome protocol (some ec) c msg msgs i w =
    let (rest, e, empty) = writing_first c.queue msg msgs i.in_order w in
    let w' : c.queue.writing ≡ msg ∷ [] = cc in
    let c' = failed ec (codes "write") (record c { queue = record c.queue { writing = msgs } }) in
    (c', refl, stopped c msg rest idle c' i w' e e empty refl refl (inl refl))
write-Outcome protocol none c msg msgs i w =
    let (rest, e, empty) = writing_first c.queue msg msgs i.in_order w in
    let w' : c.queue.writing ≡ msg ∷ [] = cc in
    let c1 : Connection = record c { queue = record c.queue { writing = msgs } } in
    let (e', h, r) = do_eof_frame c1 in
    elim (Bool-cases (protocol.need_eof msg)) [
      | inl close ↦ rw close (
        do_eof c1,
        refl,
        stopped c msg rest (finish msg) (do_eof c1) i w' e (ap (λ q. q.items) e' ∙ e)
            (ap (λ q. q.writing) e' ∙ empty) h r (inr refl),
      )
      | inr keep ↦ rw keep (keep-Outcome c msg rest msgs i w' e empty)
    ]
