-- ===== src/Http/Connection/Refines.antt =====
-- Every run of a connection (http_session in lib/src/geoff.cpp): no handler faults, and what is seen
-- of the run is a run of the pipeline that lib/src/geoff.cpp promises.
use geoff.Prelude.{
  ◌≤◌, ◌≡◌, refl, inl, true, false, List, [], ◌∷◌, ◌++◌, none, some, arith, length, ◌∙◌, sym, subst,
}
use mathlib.Core.Option.{some-injective}
use geoff.Http.Text.{Text, codes}
use geoff.Http.Handle.{Response, Beast}
use geoff.Http.Queue.{limit}
use geoff.Http.Pipeline
use geoff.Http.Pipeline.{Action, idle, all_accepted, all_finished, Run-order, Run-bound}
use geoff.Http.Connection.{
  Connection, Kind, plain, ssl, failed, Protocol, create, run, do_read, on_handshake, on_shutdown,
}
use geoff.Http.Connection.Steps.{
  Event, handshaken, received, written, shut_down, complete, dispatch, action, is_last, Step, Run,
  Serving,
}
use geoff.Http.Connection.Invariant.{IsConnection, IsServing, Outcome, same_queue, Waits}
use geoff.Http.Connection.Completes.{
  complete-handshaken, complete-received, complete-written, complete-shut_down,
}
use geoff.Http.Connection.Reading.{read-Outcome}
use geoff.Http.Connection.Writing.{write-Outcome}

module _ (beast : Beast) (protocol : Protocol) (doc_root : Text) where
  -- An event whose operation is under way is handled, and its outcome is known.
  HandledAt : List Response → Event → Connection → Connection → Type 0
  HandledAt writing e c between =
      (c' : Connection) × (dispatch beast protocol doc_root writing e between ≡ some c')
      × Outcome (action beast protocol doc_root writing e) (is_last protocol writing e) c c'

  Handled : Event → Connection → Connection → Type 0
  unfolding HandledAt
  Handled e c between = HandledAt c.queue.writing e c between

  handled :
      (e : Event) (c between : Connection)
      → IsConnection c
      → complete e c ≡ some between
      → Handled e c between
  unfolding Handled complete dispatch on_handshake on_shutdown do_read
  handled (handshaken none) c between i h =
      let (n, some_handshake, e) = complete-handshaken none c between h in
      subst (Handled (handshaken none) c) e (
        _,
        refl,
        same_queue false c (do_read (record c { handshakes = n })) refl (omega arith)
            (λ l. omega arith) i,
      )
  handled (handshaken (some ec)) c between i h =
      let (n, some_handshake, e) = complete-handshaken (some ec) c between h in
      subst (Handled (handshaken (some ec)) c) e (
        _,
        refl,
        same_queue true c (failed ec (codes "handshake") (record c { handshakes = n })) refl
            (omega arith) (λ l. cc) i,
      )
  handled (received open_file result) c between i h =
      let (n, some_read, e) = complete-received open_file result c between h in
      subst (Handled (received open_file result) c) e
        (read-Outcome beast protocol doc_root open_file result c n i some_read)
  handled (written ec) c between i h =
      let (msg, msgs, w, e) = complete-written ec c between h in
      subst (λ ws. HandledAt ws (written ec) c between) (sym w)
        (subst (HandledAt (msg ∷ msgs) (written ec) c) e (write-Outcome protocol ec c msg msgs i w))
  handled (shut_down none) c between i h =
      let (n, some_shutdown, e) = complete-shut_down none c between h in
      subst (Handled (shut_down none) c) e
        (_, refl, same_queue false c (record c { shutdowns = n }) refl (omega arith) (λ l. refl) i)
  handled (shut_down (some ec)) c between i h =
      let (n, some_shutdown, e) = complete-shut_down (some ec) c between h in
      let c' = failed ec (codes "shutdown") (record c { shutdowns = n }) in
      subst (Handled (shut_down (some ec)) c) e
        (c', refl, same_queue false c c' refl (omega arith) (λ l. refl) i)

  run_starts : (kind : Kind) → Waits (run kind) [] × IsServing (run kind)
  unfolding run create do_read
  run_starts plain = (inl refl, (refl, inl refl))
  run_starts ssl = (inl refl, (refl, inl refl))

  create-IsConnection : (kind : Kind) → IsConnection (run kind)
  unfolding run create do_read
  create-IsConnection plain = ground arith
  create-IsConnection ssl = ground arith

  -- The outcome of a step, which has the handler's connection and no other.
  pub step-Outcome :
      {c c' : Connection} (e : Event)
      → Step beast protocol doc_root c e c'
      → IsConnection c
      → Outcome
          (action beast protocol doc_root c.queue.writing e)
          (is_last protocol c.queue.writing e)
          c
          c'
  unfolding Handled
  step-Outcome {c} {c'} e s i =
      let (c'', h, o) = handled e c s.between i s.completes in
      subst
        (Outcome (action beast protocol doc_root c.queue.writing e)
          (is_last protocol c.queue.writing e) c)
        (some-injective _ _ (sym h ∙ s.handles)) o

  -- In every connection that a run reaches, the response that is being written is the first of the
  -- queue, at most one read is under way, and the responses with the one that a read brings are no
  -- more than the limit of eight.
  pub Run-IsConnection :
      {kind : Kind} {acts : List Action} {c : Connection}
      → Run beast protocol doc_root kind acts c
      → IsConnection c
  Run-IsConnection {kind} Run.start = create-IsConnection kind
  Run-IsConnection (Run.later e r s) = (step-Outcome e s (Run-IsConnection r)).keeps

  -- What is seen of a run of a connection is a run of the pipeline: its responses are accepted in
  -- the order of the requests, each is written once, in that order, and no more than eight wait.
  pub Run-refines :
      {kind : Kind} {acts : List Action} {c : Connection}
      → Run beast protocol doc_root kind acts c
      → (q : List Response) × Pipeline.Run acts q × Waits c q
  Run-refines {kind} Run.start = ([], Pipeline.Run.start, (run_starts kind).0)
  Run-refines (Run.later e r s) =
      let (q, r', w) = Run-refines r in
      let (q', s', w') = (step-Outcome e s (Run-IsConnection r)).simulates q w in
      (q', Pipeline.Run.later r' s', w')

  -- What has been written is the first responses that were accepted, in their order.
  pub Run-all_finished :
      {kind : Kind} {acts : List Action} {c : Connection}
      → Run beast protocol doc_root kind acts c
      → (q : List Response) × (all_accepted acts ≡ all_finished acts ++ q) × (length q ≤ limit)
  Run-all_finished r = let (q, r', w) = Run-refines r in (q, Run-order r', Run-bound r')

  Serving-both :
      {kind : Kind} {c : Connection}
      → Serving beast protocol doc_root kind c
      → IsConnection c × IsServing c
  Serving-both {kind} Serving.start = (create-IsConnection kind, (run_starts kind).1)
  Serving-both (Serving.later e r s l) =
      let (i, serving) = Serving-both r in
      let o = step-Outcome e s i in (o.keeps, o.serves l serving)

  -- A connection that has had no last event never stalls: a request is being read, or the queue is
  -- full and its first response is being written.
  pub Serving-IsServing :
      {kind : Kind} {c : Connection} → Serving beast protocol doc_root kind c → IsServing c
  Serving-IsServing r = (Serving-both r).1
