-- ===== src/Websock/Pump/Fate.antt =====
-- What becomes of the buffers that are committed (lib/inc/websocket_session.h).
use geoff.Prelude.{
  ℕ, true, false, List, [], ◌∷◌, ◌++◌, Option, none, some, ◌≡◌, inl, inr, refl, sym, ◌∙◌, ap,
  append-nil, append_assoc, Bool-cases,
}
use geoff.AppBuffer.{AppBuffer}
use geoff.Websock.{WebsockSession, create, commit_tx_buffer, get_next_tx_buffer}
use geoff.Websock.Queue.{popped, get_next_tx_buffer-que}
use geoff.Websock.Pump.{
  Pump, commit_to, commit, commit_all, do_write, write_popped, send_from, send_next, close, Step,
  committed_tx, posted, on_read, on_closed, on_error, on_write, Reach, start, later,
}

-- The third list is made of the first two, each in its order.
pub data Shuffle : List AppBuffer → List AppBuffer → List AppBuffer → Type 0 where
  nothing : Shuffle [] [] []
  left :
      {xs ys zs : List AppBuffer} (x : AppBuffer)
      → Shuffle xs ys zs
      → Shuffle (xs ++ (x ∷ [])) ys (zs ++ (x ∷ []))
  right :
      {xs ys zs : List AppBuffer} (y : AppBuffer)
      → Shuffle xs ys zs
      → Shuffle xs (ys ++ (y ∷ [])) (zs ++ (y ∷ []))

-- The buffers that are in the queue while there is a session, and afterwards those that were
-- destroyed with it.
abbrev pub left_over : Option WebsockSession → List AppBuffer → List AppBuffer
left_over none discarded = discarded
left_over (some session) discarded = session.tx_que

-- Nothing is destroyed while there is a session.
abbrev pub Undisturbed : Option WebsockSession → List AppBuffer → Type 0
Undisturbed none discarded = Unit
Undisturbed (some session) discarded = discarded ≡ []

-- What has left the queue was handed to async_write or dropped, and the rest is left over.
abbrev pub Accounted : Pump → Type 0
Accounted p =
    Undisturbed p.session p.discarded
    × ((gone : List AppBuffer) × Shuffle p.handed p.dropped gone
        × (p.committed ≡ gone ++ left_over p.session p.discarded))

commit_to-Accounted :
    (tx : AppBuffer) (o : Option WebsockSession) (p : Pump)
    → p.session ≡ o
    → Accounted (record p { session = o })
    → Accounted (commit_to tx o (record p { session = o }))
unfolding commit_to commit_tx_buffer
commit_to-Accounted tx none p here a = a
commit_to-Accounted tx (some session) p here (u, (gone, s, e)) =
    (u, (gone, s, rw e (append_assoc gone session.tx_que (tx ∷ []))))

commit-Accounted : (tx : AppBuffer) (p : Pump) → Accounted p → Accounted (commit tx p)
unfolding commit
commit-Accounted tx p a = commit_to-Accounted tx p.session p refl a

commit_all-Accounted :
    (txs : List AppBuffer) (p : Pump) → Accounted p → Accounted (commit_all txs p)
unfolding commit_all
commit_all-Accounted [] p a = a
commit_all-Accounted (tx ∷ txs) p a =
    commit_all-Accounted txs (commit tx p) (commit-Accounted tx p a)

write_popped-Accounted :
    (o : Option AppBuffer) (rest : WebsockSession) (p : Pump) (gone : List AppBuffer)
    → p.discarded ≡ []
    → Shuffle p.handed p.dropped gone
    → p.committed ≡ gone ++ (popped o ++ rest.tx_que)
    → Accounted (write_popped o (record p { session = some rest }))
unfolding write_popped do_write
write_popped-Accounted none rest p gone u s e = (u, (gone, s, e))
write_popped-Accounted (some tx) rest p gone u s e =
    let e' = e ∙ sym (append_assoc gone (tx ∷ []) rest.tx_que) in
    elim (Bool-cases p.write_active) [
      | inl active ↦ rw (active, do_write) (u, (gone ++ (tx ∷ []), right tx s, e'))
      | inr idle ↦ rw (idle, do_write) (u, (gone ++ (tx ∷ []), left tx s, e'))
    ]

send_from-Accounted :
    (o : Option WebsockSession) (p : Pump)
    → Accounted (record p { session = o })
    → Accounted (send_from o (record p { session = o }))
unfolding send_from
send_from-Accounted none p a = a
send_from-Accounted (some session) p (u, (gone, s, e)) =
    let (o, rest) = get_next_tx_buffer session in
    write_popped-Accounted o rest p gone u s (e ∙ ap (◌++◌ gone) (get_next_tx_buffer-que session))

send_next-Accounted : (p : Pump) → Accounted p → Accounted (send_next p)
unfolding send_next
send_next-Accounted p a = send_from-Accounted p.session p a

close_from-Accounted :
    (o : Option WebsockSession) (p : Pump)
    → Accounted (record p { session = o })
    → Accounted (close (record p { session = o }))
unfolding close
close_from-Accounted none p (u, (gone, s, e)) = (u, (gone, s, rw (append-nil p.discarded) e))
close_from-Accounted (some session) p (u, (gone, s, e)) = (tt, (gone, s, rw u e))

step-Accounted : {p q : Pump} → Step p q → Accounted p → Accounted q
step-Accounted {p} (committed_tx tx) a = commit-Accounted tx p a
step-Accounted {p} (posted session here) a = send_next-Accounted p a
step-Accounted {p} (on_read answers) a =
    send_next-Accounted (commit_all answers p) (commit_all-Accounted answers p a)
step-Accounted {p} on_closed a = close_from-Accounted p.session p a
step-Accounted {p} on_error a = a
step-Accounted {p} (on_write active) a = send_next-Accounted (record p { write_active = false }) a

-- Whatever happens to a connection, every buffer that was committed was handed to async_write or
-- dropped, once, and those handed on are in the order of their commits; or it was committed after
-- these, and is in the queue, in that order, or, if the session is gone, was destroyed with it. While
-- there is a session none is destroyed.
pub Reach-Accounted : {id : ℕ} {p : Pump} → Reach id p → Accounted p
unfolding create
Reach-Accounted start = (refl, ([], nothing, refl))
Reach-Accounted (later r step) = step-Accounted step (Reach-Accounted r)

-- Ticks that each commit a message and have it sent.
pub burst : List AppBuffer → Pump → Pump
burst [] p = p
burst (tx ∷ txs) p = burst txs (send_next (commit tx p))

-- A session with an empty queue, while a write is active.
abbrev pub busy_with : WebsockSession → Pump → Pump
busy_with session p = record p {
  session = some (record session { tx_que = [] });
  write_active = true;
}
