-- ===== src/Http/Connection/Quiet.antt =====
-- A connection that has ended (http_session in lib/src/geoff.cpp): its handshake has failed, or its
-- last read brought the end of the stream, an error or an upgrade.
use geoff.Prelude.{suc, ◌+◌, List, ◌≡◌, refl, true, some, arith, if◌then◌else◌, subst, sym}
use mathlib.Core.Option.{some-injective}
use geoff.Http.Text.{Text}
use geoff.Http.Handle.{Opened, Beast}
use geoff.Http.Failure.{ErrorCode}
use geoff.Http.Pipeline.{Action}
use geoff.Http.Connection.{
  Connection, Kind, Protocol, ReadResult, end_of_stream, read_error, request, on_handshake, answer,
  on_read,
}
use geoff.Http.Connection.Steps.{Event, handshaken, received, dispatch, is_last, Step, Run}
use geoff.Http.Connection.Invariant.{IsConnection, IsQuiet, do_eof_frame}
use geoff.Http.Connection.Completes.{complete-handshaken, complete-received}
use geoff.Http.Connection.Refines.{Run-IsConnection, step-Outcome}

-- The only operation that was reading has completed and none has begun.
one_fewer-IsQuiet :
    (c c' : Connection)
    → IsConnection c
    → c'.queue ≡ c.queue
    → suc (c'.handshakes + c'.reads) ≡ c.handshakes + c.reads
    → IsQuiet c'
one_fewer-IsQuiet c c' i e fewer =
    let one = i.one_read in
    let room = i.room in record { no_read = omega arith; not_full = rw e (omega arith) }

module _ (beast : Beast) (protocol : Protocol) (doc_root : Text) where
  pub data Ended (kind : Kind) : Connection → Type 0 where
    refused :
        {acts : List Action} {c c' : Connection} (ec : ErrorCode)
        → Run beast protocol doc_root kind acts c
        → Step beast protocol doc_root c (handshaken (some ec)) c'
        → Ended kind c'
    read_last :
        {acts : List Action} {c c' : Connection} (open_file : Text → Opened) (result : ReadResult)
        → Run beast protocol doc_root kind acts c
        → Step beast protocol doc_root c (received open_file result) c'
        → is_last protocol c.queue.writing (received open_file result) ≡ true
        → Ended kind c'
    later :
        {c c' : Connection} (e : Event)
        → Ended kind c
        → Step beast protocol doc_root c e c'
        → Ended kind c'

  -- The last read leaves the queue as it was and begins no other.
  on_read-last :
      (open_file : Text → Opened) (result : ReadResult) (c c' : Connection)
      → is_last protocol c.queue.writing (received open_file result) ≡ true
      → on_read beast protocol doc_root open_file result c ≡ some c'
      → (c'.queue ≡ c.queue) × (c'.handshakes ≡ c.handshakes) × (c'.reads ≡ c.reads)
  unfolding on_read
  on_read-last open_file end_of_stream c c' last e =
      rw (sym (some-injective _ _ e)) (do_eof_frame c)
  on_read-last open_file (read_error ec) c c' last e =
      rw (sym (some-injective _ _ e)) (refl, refl, refl)
  on_read-last open_file (request req) c c' last e =
      let frame : some (record c { released = true }) ≡ some c'
          → (c'.queue ≡ c.queue) × (c'.handshakes ≡ c.handshakes) × (c'.reads ≡ c.reads) =
        λ h. rw (sym (some-injective _ _ h)) (refl, refl, refl) in
      frame (
        subst
          (λ upgrade.
            (if upgrade
              then some (record c { released = true })
              else answer beast protocol doc_root open_file req c)
            ≡ some c')
          last e)

  -- Neither does the end of a handshake that has failed.
  refused-IsQuiet :
      {c c' : Connection} (ec : ErrorCode)
      → IsConnection c
      → Step beast protocol doc_root c (handshaken (some ec)) c'
      → IsQuiet c'
  unfolding dispatch on_handshake
  refused-IsQuiet {c} {c'} ec i s =
      let (n, under_way, between) = complete-handshaken (some ec) c s.between s.completes in
      let handled = some-injective _ _ s.handles in
      let none_read = i.one_read in
      one_fewer-IsQuiet c c' i (rw (sym handled, sym between) refl)
        (rw (sym handled, sym between) (omega arith))

  pub read_last-IsQuiet :
      {c c' : Connection} (open_file : Text → Opened) (result : ReadResult)
      → IsConnection c
      → Step beast protocol doc_root c (received open_file result) c'
      → is_last protocol c.queue.writing (received open_file result) ≡ true
      → IsQuiet c'
  unfolding dispatch
  read_last-IsQuiet {c} {c'} open_file result i s last =
      let (n, under_way, between) = complete-received open_file result c s.between s.completes in
      let (e, h, r) =
        on_read-last open_file result (record c { reads = n }) c' last
          (subst (λ b. on_read beast protocol doc_root open_file result b ≡ some c') (sym between)
            s.handles) in
      one_fewer-IsQuiet c c' i e (omega arith)

  Ended-both : {kind : Kind} {c : Connection} → Ended kind c → IsConnection c × IsQuiet c
  Ended-both (Ended.refused ec r s) =
      let i = Run-IsConnection beast protocol doc_root r in
      ((step-Outcome beast protocol doc_root _ s i).keeps, refused-IsQuiet ec i s)
  Ended-both (Ended.read_last open_file result r s last) =
      let i = Run-IsConnection beast protocol doc_root r in
      (
        (step-Outcome beast protocol doc_root _ s i).keeps,
        read_last-IsQuiet open_file result i s last,
      )
  Ended-both (Ended.later e ended s) =
      let (i, quiet) = Ended-both ended in
      let o = step-Outcome beast protocol doc_root e s i in (o.keeps, o.stays_quiet quiet)

  -- From when a handshake fails, or a read brings the end of the stream, an error or an upgrade, no
  -- read and no handshake of the connection is ever under way again, whatever operations complete.
  pub Ended-no_read :
      {kind : Kind} {c : Connection} → Ended kind c → (c.handshakes ≡ 0) × (c.reads ≡ 0)
  Ended-no_read ended = let none_read = (Ended-both ended).1.no_read in (omega arith, omega arith)
