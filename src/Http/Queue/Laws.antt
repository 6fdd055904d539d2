-- ===== src/Http/Queue/Laws.antt =====
-- What the operations of a queue do to it (http_session::queue in lib/src/geoff.cpp).
use geoff.Prelude.{
  ◌<◌, ◌≡◌, ◌⊎◌, inl, inr, refl, List, [], ◌∷◌, ◌++◌, some, arith, length, length-append, take,
}
use geoff.Http.Handle.{Response}
use geoff.Http.Queue.{Queue, push, start_front, on_write, erase_front, start_next, is_full}

-- A response that comes to an empty queue is written at once.
pub push_first :
    (msg : Response) (writing : List Response)
    → push msg (record { items = []; writing = writing })
      ≡ some (record { items = msg ∷ []; writing = writing ++ (msg ∷ []) })
unfolding push start_front
push_first msg writing = refl

-- One that comes to a queue with responses waits.
pub push_later :
    (msg first : Response) (items writing : List Response)
    → push msg (record { items = first ∷ items; writing = writing })
      ≡ some (record { items = first ∷ items ++ (msg ∷ []); writing = writing })
unfolding push
push_later msg first items writing = ground (arith, length-append items (msg ∷ []))

pub on_write_next :
    (msg : Response) (items : List Response)
    → on_write (record { items = msg ∷ items; writing = [] })
      ≡ some (
        is_full (record { items = msg ∷ items; writing = [] }),
        record { items = items; writing = take 1 items },
      )
unfolding on_write erase_front start_next start_front
on_write_next msg [] = refl
on_write_next msg (next ∷ items) = refl

-- The response that is being written is the first of the queue; or nothing is written any more,
-- after an error or a response that closes the connection, although responses wait.
abbrev pub InOrder : Queue → Type 0
InOrder q = (q.writing ≡ take 1 q.items) ⊎ ((q.writing ≡ []) × (0 < length q.items))

-- A queue after a response was queued.
pub record Pushed (msg : Response) (q q' : Queue) : Type 0 where
  pub items : q'.items ≡ q.items ++ (msg ∷ [])
  pub in_order : InOrder q'
  pub writes : q.writing ≡ take 1 q.items → q'.writing ≡ take 1 q'.items
  pub waits : 0 < length q.items → q'.writing ≡ q.writing

pub push-InOrder :
    (msg : Response) (q : Queue)
    → InOrder q
    → (q' : Queue) × (push msg q ≡ some q') × Pushed msg q q'
push-InOrder msg q order = go q.items q.writing order
  where
    go :
        (items writing : List Response)
        → InOrder (record { items = items; writing = writing })
        → (q' : Queue) × (push msg (record { items = items; writing = writing }) ≡ some q')
          × Pushed msg (record { items = items; writing = writing }) q'
    go [] writing order =
        let none_writing : writing ≡ [] = elim order [ inl e ↦ e | inr (e, more) ↦ e ] in
        (
          record { items = msg ∷ []; writing = writing ++ (msg ∷ []) },
          push_first msg writing,
          record {
            items = refl;
            in_order = inl (rw none_writing refl);
            writes = λ e. rw none_writing refl;
            waits = λ more. absurd (omega (arith, more));
          },
        )
    go (first ∷ items) writing order =
        let longer = length-append items (msg ∷ []) in
        (
          record { items = first ∷ items ++ (msg ∷ []); writing = writing },
          push_later msg first items writing,
          record {
            items = refl;
            in_order = elim order [ inl e ↦ inl e | inr (e, more) ↦ inr (e, omega arith) ];
            writes = λ e. e;
            waits = λ more. refl;
          },
        )

-- What is being written is the first response.
pub writing_first :
    (q : Queue) (msg : Response) (msgs : List Response)
    → InOrder q
    → q.writing ≡ msg ∷ msgs
    → (rest : List Response) × (q.items ≡ msg ∷ rest) × (msgs ≡ [])
writing_first q msg msgs order e = go q.items order
  where
    go :
        (items : List Response)
        → (q.writing ≡ take 1 items) ⊎ ((q.writing ≡ []) × (0 < length items))
        → (rest : List Response) × (items ≡ msg ∷ rest) × (msgs ≡ [])
    go [] (inl e') = absurd (cc)
    go (first ∷ items) (inl e') = (items, cc, cc)
    go items (inr (e', more)) = absurd (cc)
