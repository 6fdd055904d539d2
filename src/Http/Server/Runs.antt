-- ===== src/Http/Server/Runs.antt =====
-- Every run of the server (listener and detect_session in lib/src/geoff.cpp).
use geoff.Prelude.{
  ℕ, zero, suc, ◌+◌, ◌≡◌, refl, true, false, List, [], ◌∷◌, none, some, arith, length, All,
  All-append, All-middle, subst,
}
use geoff.Http.Text.{Text, codes}
use geoff.Http.Handle.{Beast}
use geoff.Http.Failure.{ErrorCode, length-fail}
use geoff.Http.Pipeline.{Action}
use geoff.Http.Connection.{Connection, Kind, plain, ssl, Protocol}
use geoff.Http.Connection.Steps
use geoff.Http.Server.{
  Acceptor, Server, Step, accepted, detected, served, listen_on, do_accept, on_accept, on_detect,
}

module _ (beast : Beast) (protocol : Protocol) (doc_root : Text) where
  pub data Reach (a : Acceptor) (log : List Text) : Server → Type 0 where
    start : Reach a log (listen_on a log)
    later : {s s' : Server} → Reach a log s → Step beast protocol doc_root s s' → Reach a log s'

  -- A connection is one that a run from its beginning reaches.
  abbrev pub IsRun : Connection → Type 0
  IsRun c = (kind : Kind) × (acts : List Action) × Steps.Run beast protocol doc_root kind acts c

  step-IsRun :
      {s s' : Server}
      → Step beast protocol doc_root s s'
      → All IsRun s.connections
      → All IsRun s'.connections
  unfolding on_accept on_detect do_accept
  step-IsRun (accepted n (some ec) e) h = h
  step-IsRun (accepted n none e) h = h
  step-IsRun (detected n (some ec) result e) h = h
  step-IsRun {s} (detected n none true e) h =
      All-append IsRun s.connections _ h ((ssl, [], Steps.Run.start), tt)
  step-IsRun {s} (detected n none false e) h =
      All-append IsRun s.connections _ h ((plain, [], Steps.Run.start), tt)
  step-IsRun {s} (served before after c c' e eq step) h =
      let (hb, (kind, acts, r), ha) = All-middle IsRun before after c (subst (All IsRun) eq h) in
      All-append IsRun before (c' ∷ after) hb ((kind, _, Steps.Run.later e r step), ha)

  -- Whatever happens to the server, every connection that it has is one that a run of a connection
  -- reaches, so that what is shown of such runs holds of each of them.
  pub Reach-IsRun :
      {a : Acceptor} {log : List Text} {s : Server} → Reach a log s → All IsRun s.connections
  unfolding listen_on do_accept
  Reach-IsRun Reach.start = tt
  Reach-IsRun (Reach.later r step) = step-IsRun step (Reach-IsRun r)

  step-accepting :
      {s s' : Server} → Step beast protocol doc_root s s' → s.accepting ≡ 1 → s'.accepting ≡ 1
  unfolding on_accept on_detect do_accept
  step-accepting (accepted n (some ec) e) h = omega arith
  step-accepting (accepted n none e) h = omega arith
  step-accepting (detected n (some ec) result e) h = h
  step-accepting (detected n none true e) h = h
  step-accepting (detected n none false e) h = h
  step-accepting (served before after c c' e eq step) h = h

  -- The server always waits for one more connection, and for one only: after an error of accept as
  -- well, and even when the listener could not be opened, bound or set to listen.
  pub Reach-accepting :
      {a : Acceptor} {log : List Text} {s : Server} → Reach a log s → s.accepting ≡ 1
  unfolding listen_on do_accept
  Reach-accepting Reach.start = refl
  Reach-accepting (Reach.later r step) = step-accepting step (Reach-accepting r)

-- As many accepts in a row that fail.
unfoldable pub failing_accepts : ℕ → ErrorCode → Server → Server
failing_accepts zero ec s = s
failing_accepts (suc n) ec s =
    failing_accepts n ec (on_accept (some ec) (record s { accepting = 0 }))

-- An error of accept that stays is reported again and again: after any number of them the server is
-- the same, but for one more line of the log for each.
pub failing_accepts_lem :
    (n : ℕ) (ec : ErrorCode) (s : Server)
    → ec.stream_truncated ≡ false
    → s.accepting ≡ 1
    → let s' = failing_accepts n ec s in
      (s'.accepting ≡ 1)
      × (s'.connections ≡ s.connections)
      × (s'.detecting ≡ s.detecting)
      × (length s'.log ≡ length s.log + n)
unfolding failing_accepts on_accept do_accept
failing_accepts_lem zero ec s h one = (one, refl, refl, omega arith)
failing_accepts_lem (suc n) ec s h one =
    let next = on_accept (some ec) (record s { accepting = 0 }) in
    let (a, c, d, l) = failing_accepts_lem n ec next h refl in
    let longer = length-fail ec (codes "accept") s.log h in (a, c, d, omega (arith, l, longer))
