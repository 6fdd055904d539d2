-- ===== src/Http/Pipeline.antt =====
-- What the queue of a connection promises (http_session in lib/src/geoff.cpp): a first-in-first-out
-- pipeline of a bounded number of responses.
use geoff.Prelude.{
  ◌≤◌, ◌<◌, ◌≡◌, refl, List, [], ◌∷◌, ◌++◌, arith, length, length-append, append-nil, append_assoc,
  ◌∙◌, ap, sym,
}
use geoff.Http.Handle.{Response}
use geoff.Http.Queue.{limit}

-- A response is accepted, or it has been written, or neither.
pub data Action : Type 0 where
  accept finish : Response → Action
  idle : Action

pub data Step (q : List Response) : Action → List Response → Type 0 where
  accepted : (msg : Response) → length q < limit → Step q (accept msg) (q ++ (msg ∷ []))
  finished : (msg : Response) (rest : List Response) → q ≡ msg ∷ rest → Step q (finish msg) rest
  idled : Step q idle q

pub data Run : List Action → List Response → Type 0 where
  start : Run [] []
  later :
      {acts : List Action} {a : Action} {q q' : List Response}
      → Run acts q
      → Step q a q'
      → Run (acts ++ (a ∷ [])) q'

abbrev pub all_accepted : List Action → List Response
all_accepted [] = []
all_accepted (accept msg ∷ acts) = msg ∷ all_accepted acts
all_accepted (finish msg ∷ acts) = all_accepted acts
all_accepted (idle ∷ acts) = all_accepted acts

abbrev pub all_finished : List Action → List Response
all_finished [] = []
all_finished (accept msg ∷ acts) = all_finished acts
all_finished (finish msg ∷ acts) = msg ∷ all_finished acts
all_finished (idle ∷ acts) = all_finished acts

all_accepted-append :
    (acts bs : List Action) → all_accepted (acts ++ bs) ≡ all_accepted acts ++ all_accepted bs
all_accepted-append [] bs = refl
all_accepted-append (accept msg ∷ acts) bs = ap (◌∷◌ msg) (all_accepted-append acts bs)
all_accepted-append (finish msg ∷ acts) bs = all_accepted-append acts bs
all_accepted-append (idle ∷ acts) bs = all_accepted-append acts bs

all_finished-append :
    (acts bs : List Action) → all_finished (acts ++ bs) ≡ all_finished acts ++ all_finished bs
all_finished-append [] bs = refl
all_finished-append (accept msg ∷ acts) bs = all_finished-append acts bs
all_finished-append (finish msg ∷ acts) bs = ap (◌∷◌ msg) (all_finished-append acts bs)
all_finished-append (idle ∷ acts) bs = all_finished-append acts bs

step-order :
    (acts : List Action) (a : Action) {q q' : List Response}
    → Step q a q'
    → all_accepted acts ≡ all_finished acts ++ q
    → all_accepted (acts ++ (a ∷ [])) ≡ all_finished (acts ++ (a ∷ [])) ++ q'
step-order acts a {q} (accepted msg room) h =
    rw
      (
        all_accepted-append acts (a ∷ []),
        all_finished-append acts (a ∷ []),
        append-nil (all_finished acts),
        h,
      )
      (append_assoc (all_finished acts) q (msg ∷ []))
step-order acts a {q} {q'} (finished msg rest e) h =
    rw
      (
        all_accepted-append acts (a ∷ []),
        all_finished-append acts (a ∷ []),
        append-nil (all_accepted acts),
      )
      (h ∙ rw e (sym (append_assoc (all_finished acts) (msg ∷ []) rest)))
step-order acts a idled h =
    rw
      (
        all_accepted-append acts (a ∷ []),
        all_finished-append acts (a ∷ []),
        append-nil (all_accepted acts),
        append-nil (all_finished acts),
      )
      h

-- What has been written is what was accepted first, in that order, and the rest waits.
pub Run-order :
    {acts : List Action} {q : List Response}
    → Run acts q
    → all_accepted acts ≡ all_finished acts ++ q
Run-order start = refl
Run-order (later {acts} {a} r s) = step-order acts a s (Run-order r)

step-bound :
    {a : Action} {q q' : List Response} → Step q a q' → length q ≤ limit → length q' ≤ limit
step-bound {a} {q} (accepted msg room) h = omega (arith, length-append q (msg ∷ []))
step-bound (finished msg rest e) h = let n = ap length e in omega arith
step-bound idled h = h

pub Run-bound : {acts : List Action} {q : List Response} → Run acts q → length q ≤ limit
Run-bound start = omega arith
Run-bound (later r s) = step-bound s (Run-bound r)
