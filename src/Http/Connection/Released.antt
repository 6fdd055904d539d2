-- ===== src/Http/Connection/Released.antt =====
-- When the stream of a connection is given away (http_session::on_read in lib/src/geoff.cpp).
use geoff.Prelude.{
  ◌≡◌, refl, Bool, true, false, Option, none, some, arith, sym, ◌∙◌, ap, subst, >>=-eq-some, not,
  Bool-cases, inl, inr, if◌then◌else◌,
}
use mathlib.Core.Option.{some-injective}
use geoff.Http.Text.{Text}
use geoff.Http.Handle.{Opened, Request, Beast, handle_request}
use geoff.Http.Failure.{ErrorCode}
use geoff.Http.Queue
use geoff.Http.Queue.{is_full, push}
use geoff.Http.Connection.{
  Connection, Protocol, ReadResult, end_of_stream, read_error, request, do_eof, do_read, write_next,
  on_write, on_handshake, on_shutdown, answer, on_read,
}
use geoff.Http.Connection.Steps.{
  Event, handshaken, received, written, shut_down, closes, asks_upgrade, dispatch, Step,
}
use geoff.Http.Connection.Completes.{
  complete-handshaken, complete-received, complete-written, complete-shut_down,
}
use geoff.Http.Connection.Invariant.{IsConnection, IsQuiet}
use geoff.Http.Connection.Quiet.{read_last-IsQuiet}
use geoff.Http.Connection.Refines.{step-Outcome}

do_eof_released : (c : Connection) → (do_eof c).released ≡ c.released
unfolding do_eof
do_eof_released c = ground arith

-- A read begins or not.
read_if_released : (b : Bool) (c : Connection) → (if b then do_read c else c).released ≡ c.released
unfolding do_read
read_if_released true c = refl
read_if_released false c = refl

on_write_released :
    (close : Bool) (ec : Option ErrorCode) (c c' : Connection)
    → on_write close ec c ≡ some c'
    → c'.released ≡ c.released
unfolding on_write write_next
on_write_released close (some ec) c c' e = ap (λ x. x.released) (sym (some-injective _ _ e))
on_write_released true none c c' e =
    ap (λ x. x.released) (sym (some-injective _ _ e)) ∙ do_eof_released c
on_write_released false none c c' e =
    let ((was_full, queue), _, e1) = >>=-eq-some (Queue.on_write c.queue) _ e in
    ap (λ x. x.released) (sym (some-injective _ _ e1))
    ∙ read_if_released was_full (record c { queue = queue })

on_handshake_released :
    (ec : Option ErrorCode) (c : Connection) → (on_handshake ec c).released ≡ c.released
unfolding on_handshake do_read
on_handshake_released (some ec) c = refl
on_handshake_released none c = refl

on_shutdown_released :
    (ec : Option ErrorCode) (c : Connection) → (on_shutdown ec c).released ≡ c.released
unfolding on_shutdown
on_shutdown_released (some ec) c = refl
on_shutdown_released none c = refl

-- What `released` is after an event.
abbrev pub released_by : Bool → Connection → Bool
released_by upgrade c = if upgrade then true else c.released

module _ (beast : Beast) (protocol : Protocol) (doc_root : Text) where
  answer_released :
      (open_file : Text → Opened) (req : Request) (c c' : Connection)
      → answer beast protocol doc_root open_file req c ≡ some c'
      → c'.released ≡ c.released
  unfolding answer
  answer_released open_file req c c' e =
      let (queue, _, e1) =
        >>=-eq-some (push (handle_request beast doc_root open_file req) c.queue) _ e in
      ap (λ x. x.released) (sym (some-injective _ _ e1))
      ∙ read_if_released (not (is_full queue)) (record c { queue = queue })

  on_read_released :
      (open_file : Text → Opened) (result : ReadResult) (c c' : Connection)
      → on_read beast protocol doc_root open_file result c ≡ some c'
      → c'.released ≡ released_by (asks_upgrade protocol (received open_file result)) c
  unfolding on_read
  on_read_released open_file end_of_stream c c' e =
      ap (λ x. x.released) (sym (some-injective _ _ e)) ∙ do_eof_released c
  on_read_released open_file (read_error ec) c c' e =
      ap (λ x. x.released) (sym (some-injective _ _ e))
  on_read_released open_file (request req) c c' e = go (protocol.is_upgrade req) e
    where
      go :
          (upgrade : Bool)
          → (if upgrade
              then some (record c { released = true })
              else answer beast protocol doc_root open_file req c)
            ≡ some c'
          → c'.released ≡ released_by upgrade c
      go true h = ap (λ x. x.released) (sym (some-injective _ _ h))
      go false h = answer_released open_file req c c' h

  pub step_released :
      {c c' : Connection} (e : Event)
      → Step beast protocol doc_root c e c'
      → c'.released ≡ released_by (asks_upgrade protocol e) c
  unfolding dispatch
  step_released {c} {c'} (handshaken ec) s =
      let (n, _, b) = complete-handshaken ec c s.between s.completes in
      ap (λ x. x.released) (sym (some-injective _ _ s.handles))
      ∙ on_handshake_released ec s.between
      ∙ ap (λ x. x.released) (sym b)
  step_released {c} {c'} (received open_file result) s =
      let (n, _, b) = complete-received open_file result c s.between s.completes in
      on_read_released open_file result s.between c' s.handles
      ∙ ap (released_by (asks_upgrade protocol (received open_file result))) (sym b)
  step_released {c} {c'} (written ec) s =
      let (msg, msgs, _, b) = complete-written ec c s.between s.completes in
      on_write_released (closes protocol c.queue.writing) ec s.between c' s.handles
      ∙ ap (λ x. x.released) (sym b)
  step_released {c} {c'} (shut_down ec) s =
      let (n, _, b) = complete-shut_down ec c s.between s.completes in
      ap (λ x. x.released) (sym (some-injective _ _ s.handles))
      ∙ on_shutdown_released ec s.between
      ∙ ap (λ x. x.released) (sym b)

  -- A connection whose stream is given away reads no more.
  abbrev pub IsGiven : Connection → Type 0
  IsGiven c = c.released ≡ true → IsQuiet c

  not_asked-IsGiven :
      {c c' : Connection} (e : Event)
      → Step beast protocol doc_root c e c'
      → IsConnection c
      → IsGiven c
      → asks_upgrade protocol e ≡ false
      → IsGiven c'
  not_asked-IsGiven {c} {c'} e s i g asked h =
      let same : c'.released ≡ c.released =
        subst (λ b. c'.released ≡ released_by b c) asked (step_released e s) in
      (step-Outcome beast protocol doc_root e s i).stays_quiet (g (sym same ∙ h))

  -- It is given away once: a request for a web socket finds it there, and after that it is not.
  pub step-IsGiven :
      {c c' : Connection} (e : Event)
      → Step beast protocol doc_root c e c'
      → IsConnection c
      → IsGiven c
      → IsGiven c' × (asks_upgrade protocol e ≡ true → c.released ≡ false)
  step-IsGiven {c} {c'} (received open_file (request req)) s i g =
      elim (Bool-cases (protocol.is_upgrade req)) [
        | inl upgrade ↦ (
          λ h. read_last-IsQuiet beast protocol doc_root open_file (request req) i s upgrade,
          λ h. elim (Bool-cases c.released) [
            | inl given ↦
                let (n, reads, _) =
                  complete-received open_file (request req) c s.between s.completes in
                let quiet = (g given).no_read in absurd (omega arith)
            | inr there ↦ there
          ],
        )
        | inr plain_request ↦
            (not_asked-IsGiven (received open_file (request req)) s i g plain_request, λ h. cc)
      ]
  step-IsGiven {c} {c'} (received open_file end_of_stream) s i g =
      (not_asked-IsGiven _ s i g refl, λ h. cc)
  step-IsGiven {c} {c'} (received open_file (read_error ec)) s i g =
      (not_asked-IsGiven _ s i g refl, λ h. cc)
  step-IsGiven {c} {c'} (handshaken ec) s i g = (not_asked-IsGiven _ s i g refl, λ h. cc)
  step-IsGiven {c} {c'} (written ec) s i g = (not_asked-IsGiven _ s i g refl, λ h. cc)
  step-IsGiven {c} {c'} (shut_down ec) s i g = (not_asked-IsGiven _ s i g refl, λ h. cc)
