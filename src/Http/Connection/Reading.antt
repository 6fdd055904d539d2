-- ===== src/Http/Connection/Reading.antt =====
-- What the end of a read does to a connection (http_session::on_read in lib/src/geoff.cpp).
use geoff.Prelude.{
  ℕ, suc, ◌≡◌, refl, inl, inr, Bool, true, false, [], ◌∷◌, ◌++◌, some, arith, length, length-append,
  ap, if◌then◌else◌, Bool-cases,
}
use geoff.Http.Text.{Text}
use geoff.Http.Handle.{Request, Response, Opened, Beast, handle_request}
use geoff.Http.Queue.{is_full}
use geoff.Http.Queue.Laws.{Pushed, push-InOrder}
use geoff.Http.Pipeline
use geoff.Http.Pipeline.{Action, accept, finish, idle}
use geoff.Http.Connection.{
  Connection, Protocol, ReadResult, end_of_stream, read_error, request, do_read, do_eof, answer,
  on_read,
}
use geoff.Http.Connection.Steps.{read_action, is_last, received}
use geoff.Http.Connection.Invariant.{
  IsConnection, Outcome, same_queue, do_eof_frame, Waits-length, Waits-Pushed,
}

-- A response was queued; a read begins when there is room for one more.
Pushed-Outcome :
    (msg : Response) (last : Bool) (c c' : Connection) (n : ℕ)
    → IsConnection c
    → c.reads ≡ suc n
    → Pushed msg c.queue c'.queue
    → c'.handshakes ≡ c.handshakes
    → c'.reads ≡ (if is_full c'.queue then n else suc n)
    → Outcome (accept msg) last c c'
unfolding is_full
Pushed-Outcome msg last c c' n i some_read p h r =
    let longer = length-append c.queue.items (msg ∷ []) in
    let items = ap (λ l. length l) p.items in
    let one = i.one_read in
    let room = i.room in
    record {
      keeps = record { in_order = p.in_order; one_read = ground arith; room = ground arith };
      simulates = λ q w.
          let short = Waits-length c q w in
          (q ++ (msg ∷ []), Pipeline.Step.accepted msg (omega arith), Waits-Pushed c c' msg q p w);
      serves = λ l s. (p.writes s.0, ground arith);
      stays_quiet = λ s. let none_read = s.no_read in absurd (omega arith);
    }

module _ (beast : Beast) (protocol : Protocol) (doc_root : Text) where
  answer-Outcome :
      (last : Bool) (open_file : Text → Opened) (req : Request) (c : Connection) (n : ℕ)
      → IsConnection c
      → c.reads ≡ suc n
      → (c' : Connection) × (answer beast protocol doc_root open_file req (record c { reads = n })
          ≡ some c')
        × Outcome (accept (handle_request beast doc_root open_file req)) last c c'
  unfolding answer do_read
  answer-Outcome last open_file req c n i r =
      let msg = handle_request beast doc_root open_file req in
      let (queue, e, p) = push-InOrder msg c.queue i.in_order in
      elim (Bool-cases (is_full queue)) [
        | inl full ↦ (
          record c { queue = queue; reads = n },
          rw (e, full) refl,
          Pushed-Outcome msg last c (record c { queue = queue; reads = n }) n i r p refl
              (rw full refl),
        )
        | inr room ↦ (
          record c { queue = queue; reads = suc n },
          rw (e, room) refl,
          Pushed-Outcome msg last c (record c { queue = queue; reads = suc n }) n i r p refl
              (rw room refl),
        )
      ]

  -- What is seen of a read, and whether it is the last.
  pub read-Outcome :
      (open_file : Text → Opened) (result : ReadResult) (c : Connection) (n : ℕ)
      → IsConnection c
      → c.reads ≡ suc n
      → (c' : Connection) × (on_read beast protocol doc_root open_file result
            (record c { reads = n })
          ≡ some c')
        × Outcome
            (read_action beast protocol doc_root open_file result)
            (is_last protocol c.queue.writing (received open_file result))
            c
            c'
  unfolding on_read
  read-Outcome open_file end_of_stream c n i r =
      let (e, h, r') = do_eof_frame (record c { reads = n }) in
      (
        do_eof (record c { reads = n }),
        refl,
        same_queue true c (do_eof (record c { reads = n })) e (omega arith) (λ l. cc) i,
      )
  read-Outcome open_file (read_error ec) c n i r =
      (_, refl, same_queue true c _ refl (omega arith) (λ l. cc) i)
  read-Outcome open_file (request req) c n i r = elim (Bool-cases (protocol.is_upgrade req)) [
    | inl upgrade ↦ (
      record c { reads = n; released = true },
      rw upgrade refl,
      rw upgrade (
          same_queue true c (record c { reads = n; released = true }) refl (omega arith) (λ l. cc)
            i),
    )
    | inr plain_request ↦ rw plain_request (answer-Outcome false open_file req c n i r)
  ]
