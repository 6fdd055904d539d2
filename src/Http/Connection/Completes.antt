-- ===== src/Http/Connection/Completes.antt =====
-- What the completion of an operation says of a connection (http_session in lib/src/geoff.cpp).
use geoff.Prelude.{ℕ, zero, suc, ◌≡◌, refl, List, [], ◌∷◌, Option, some}
use mathlib.Core.Option.{some-injective}
use geoff.Http.Text.{Text}
use geoff.Http.Handle.{Response, Opened}
use geoff.Http.Failure.{ErrorCode}
use geoff.Http.Connection.{Connection, ReadResult}
use geoff.Http.Connection.Steps.{
  handshaken, received, written, shut_down, complete, one_less, first_less,
}

one_less-inv :
    {A : Type 0} (leave : ℕ → A) (k : ℕ) {a : A}
    → one_less leave k ≡ some a
    → (n : ℕ) × (k ≡ suc n) × (leave n ≡ a)
one_less-inv leave zero e = cc
one_less-inv leave (suc n) e = (n, refl, some-injective _ _ e)

first_less-inv :
    {A : Type 0} (leave : List Response → A) (ms : List Response) {a : A}
    → first_less leave ms ≡ some a
    → (msg : Response) × (msgs : List Response) × (ms ≡ msg ∷ msgs) × (leave msgs ≡ a)
first_less-inv leave [] e = cc
first_less-inv leave (msg ∷ msgs) e = (msg, msgs, refl, some-injective _ _ e)

-- The operation that an event completes was under way.
pub complete-handshaken :
    (ec : Option ErrorCode) (c between : Connection)
    → complete (handshaken ec) c ≡ some between
    → (n : ℕ) × (c.handshakes ≡ suc n) × (record c { handshakes = n } ≡ between)
unfolding complete
complete-handshaken ec c between = one_less-inv (λ n. record c { handshakes = n }) c.handshakes

pub complete-received :
    (open_file : Text → Opened) (result : ReadResult) (c between : Connection)
    → complete (received open_file result) c ≡ some between
    → (n : ℕ) × (c.reads ≡ suc n) × (record c { reads = n } ≡ between)
unfolding complete
complete-received open_file result c between = one_less-inv (λ n. record c { reads = n }) c.reads

pub complete-written :
    (ec : Option ErrorCode) (c between : Connection)
    → complete (written ec) c ≡ some between
    → (msg : Response) × (msgs : List Response) × (c.queue.writing ≡ msg ∷ msgs)
      × (record c { queue = record c.queue { writing = msgs } } ≡ between)
unfolding complete
complete-written ec c between =
    first_less-inv (λ msgs. record c { queue = record c.queue { writing = msgs } }) c.queue.writing

pub complete-shut_down :
    (ec : Option ErrorCode) (c between : Connection)
    → complete (shut_down ec) c ≡ some between
    → (n : ℕ) × (c.shutdowns ≡ suc n) × (record c { shutdowns = n } ≡ between)
unfolding complete
complete-shut_down ec c between = one_less-inv (λ n. record c { shutdowns = n }) c.shutdowns
