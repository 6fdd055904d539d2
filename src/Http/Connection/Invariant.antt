-- ===== src/Http/Connection/Invariant.antt =====
-- What holds of a connection, and what an event does to it (http_session in lib/src/geoff.cpp).
use geoff.Prelude.{
  ◌+◌, ◌≤◌, ◌≡◌, refl, suc, ◌⊎◌, inl, inr, Bool, false, List, [], ◌∷◌, ◌++◌, arith, length, take,
  ◌∙◌,
}
use geoff.Http.Handle.{Response}
use geoff.Http.Queue.{limit}
use geoff.Http.Queue.Laws.{InOrder, Pushed}
use geoff.Http.Pipeline
use geoff.Http.Pipeline.{Action, accept, finish, idle}
use geoff.Http.Connection.{Connection, do_eof}

-- At most one read or handshake is under way, and a read only when there is room for its response.
pub record IsConnection (c : Connection) : Type 0 where
  pub in_order : InOrder c.queue
  pub one_read : c.handshakes + c.reads ≤ 1
  pub room : c.handshakes + c.reads + length c.queue.items ≤ limit

-- The connection reads a request, or its queue is full; and the first response is being written.
abbrev pub IsServing : Connection → Type 0
IsServing c =
    (c.queue.writing ≡ take 1 c.queue.items)
    × ((c.handshakes + c.reads ≡ 1) ⊎ (length c.queue.items ≡ limit))

-- What waits, as the specification has it: the items, or those after the first, when that one has
-- been written and closes the connection.
abbrev pub Waits : Connection → List Response → Type 0
Waits c q =
    (c.queue.items ≡ q) ⊎ ((msg : Response) × (c.queue.items ≡ msg ∷ q) × (c.queue.writing ≡ []))

-- No read or handshake is under way, and the end of a write begins none: it does so when the queue
-- was full.
pub record IsQuiet (c : Connection) : Type 0 where
  pub no_read : c.handshakes + c.reads ≡ 0
  pub not_full : suc (length c.queue.items) ≤ limit

-- What an event does that is seen as an action: the invariant is kept, the specification can take
-- the action, the connection goes on serving unless the event is the last, and a quiet one is quiet.
pub record Outcome (a : Action) (last : Bool) (c c' : Connection) : Type 0 where
  pub keeps : IsConnection c'
  pub simulates :
      (q : List Response) → Waits c q → (q' : List Response) × Pipeline.Step q a q' × Waits c' q'
  pub serves : last ≡ false → IsServing c → IsServing c'
  pub stays_quiet : IsQuiet c → IsQuiet c'

-- An event that leaves the queue as it was.
pub same_queue :
    (last : Bool) (c c' : Connection)
    → c'.queue ≡ c.queue
    → c'.handshakes + c'.reads ≤ c.handshakes + c.reads
    → (last ≡ false → c'.handshakes + c'.reads ≡ c.handshakes + c.reads)
    → IsConnection c
    → Outcome idle last c c'
same_queue last c c' e fewer same i = record {
  keeps = record {
    in_order = rw e i.in_order;
    one_read = let h = i.one_read in omega arith;
    room = let h = i.room in rw e (omega arith);
  };
  simulates = λ q h. (q, Pipeline.Step.idled, rw e h);
  serves = λ l s. rw e (s.0, rw (same l) s.1);
  stays_quiet = λ s.
      let none_read = s.no_read in
      let room = s.not_full in record { no_read = omega arith; not_full = rw e room };
}

pub do_eof_frame :
    (c : Connection)
    → ((do_eof c).queue ≡ c.queue)
      × ((do_eof c).handshakes ≡ c.handshakes)
      × ((do_eof c).reads ≡ c.reads)
unfolding do_eof
do_eof_frame c = ground arith

pub Waits-length :
    (c : Connection) (q : List Response) → Waits c q → length q ≤ length c.queue.items
Waits-length c q (inl e) = rw e (omega arith)
Waits-length c q (inr (msg, e, h)) = rw e (omega arith)

-- A response that is queued waits behind the others.
pub Waits-Pushed :
    (c c' : Connection) (msg : Response) (q : List Response)
    → Pushed msg c.queue c'.queue
    → Waits c q
    → Waits c' (q ++ (msg ∷ []))
Waits-Pushed c c' msg q p (inl e) = inl (p.items ∙ rw e refl)
Waits-Pushed c c' msg q p (inr (first, e, h)) =
    inr (first, p.items ∙ rw e refl, p.waits (rw e (omega arith)) ∙ h)
