-- ===== src/Websock/Queue.antt =====
-- The order in which a session's buffers are sent (lib/src/WebsockSession.cpp).
use geoff.Prelude.{
  ℕ, zero, suc, ◌+◌, ◌≡◌, refl, List, [], ◌∷◌, ◌++◌, Option, none, some, length, arith, append-nil,
  append_assoc, ◌∙◌, ap, map,
}
use geoff.AppBuffer.{AppBuffer}
use geoff.Websock.{WebsockSession, commit_tx_buffer, get_next_tx_buffer}

-- Buffers committed one after the other.
unfoldable pub commit_all : List AppBuffer → WebsockSession → WebsockSession
commit_all [] s = s
commit_all (tx ∷ txs) s = commit_all txs (commit_tx_buffer tx s)

-- The buffers of as many calls of GetNextTxBuffer.
unfoldable pub drain : ℕ → WebsockSession → List (Option AppBuffer)
unfolding get_next_tx_buffer
drain zero s = []
drain (suc n) s = let (tx, s') = get_next_tx_buffer s in tx ∷ drain n s'

commit_all-que :
    (txs : List AppBuffer) (s : WebsockSession)
    → commit_all txs s ≡ record s { tx_que = s.tx_que ++ txs }
unfolding commit_all commit_tx_buffer
commit_all-que [] s = rw (append-nil s.tx_que)
commit_all-que (tx ∷ txs) s =
    commit_all-que txs (commit_tx_buffer tx s) ∙ rw (append_assoc s.tx_que (tx ∷ []) txs)

next_none : (s : WebsockSession) → s.tx_que ≡ [] → (get_next_tx_buffer s).0 ≡ none
unfolding get_next_tx_buffer
next_none s e = rw e

next_some :
    (tx : AppBuffer) (txs : List AppBuffer) (s : WebsockSession)
    → s.tx_que ≡ tx ∷ txs
    → ((get_next_tx_buffer s).0 ≡ some tx) × ((get_next_tx_buffer s).1.tx_que ≡ txs)
unfolding get_next_tx_buffer
next_some tx txs s e = rw e (refl, refl)

drain-que :
    (txs : List AppBuffer) (s : WebsockSession)
    → s.tx_que ≡ txs
    → drain (length txs + 1) s ≡ map some txs ++ (none ∷ [])
unfolding drain
drain-que [] s e = rw (next_none s e)
drain-que (tx ∷ txs) s e =
    let (first, rest) = next_some tx txs s e in
    let more : suc (length txs) + 1 ≡ suc (length txs + 1) = omega arith in
    rw (more, drain, first) (rw (drain-que txs (get_next_tx_buffer s).1 rest))

-- What is committed to an empty queue is sent in that order, each buffer once, and then there is
-- nothing more to send.
pub drain-commit_all :
    (txs : List AppBuffer) (s : WebsockSession)
    → s.tx_que ≡ []
    → drain (length txs + 1) (commit_all txs s) ≡ map some txs ++ (none ∷ [])
drain-commit_all txs s e =
    drain-que txs (commit_all txs s) (ap (λ s'. s'.tx_que) (commit_all-que txs s) ∙ rw e)

-- What was popped.
abbrev pub popped : Option AppBuffer → List AppBuffer
popped none = []
popped (some tx) = tx ∷ []

popped-que :
    (q : List AppBuffer) (s : WebsockSession)
    → s.tx_que ≡ q
    → q ≡ popped (get_next_tx_buffer s).0 ++ (get_next_tx_buffer s).1.tx_que
unfolding get_next_tx_buffer
popped-que [] s e = rw e
popped-que (tx ∷ txs) s e = rw e

-- The queue is what is popped, and then what is left.
pub get_next_tx_buffer-que :
    (s : WebsockSession)
    → s.tx_que ≡ popped (get_next_tx_buffer s).0 ++ (get_next_tx_buffer s).1.tx_que
get_next_tx_buffer-que s = popped-que s.tx_que s refl
