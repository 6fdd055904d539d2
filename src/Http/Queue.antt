-- ===== src/Http/Queue.antt =====
-- The queue of the responses of one connection (http_session::queue in lib/src/geoff.cpp).
-- `none` is undefined behaviour, or a BOOST_ASSERT that fails.
pub mod Laws
use geoff.Prelude.{
  ℕ, Bool, List, [], ◌∷◌, ◌++◌, Option, none, some, leb, ◌==◌, if◌then◌else◌, length, ◌>>=◌,
}
use geoff.Http.Handle.{Response}

abbrev pub limit : ℕ
limit = 8

-- `writing` is not a member of the class: it is the messages whose async_write has begun and has
-- not completed, which the stream must never have two of.
pub record Queue : Type 0 where
  pub items : List Response
  pub writing : List Response

abbrev pub empty_queue : Queue
empty_queue = record { items = []; writing = [] }

unfoldable pub is_full : Queue → Bool
is_full q = leb limit (length q.items)

-- (*items_.front())(), which begins to write the message.
unfoldable pub start_front : List Response → Queue → Option Queue
start_front [] q = none
start_front (msg ∷ items) q = some (record q { writing = q.writing ++ (msg ∷ []) })

-- if (!items_.empty()) (*items_.front())();
unfoldable pub start_next : List Response → Queue → Option Queue
unfolding start_front
start_next [] q = some q
start_next (msg ∷ items) q = start_front (msg ∷ items) q

-- items_.erase(items_.begin()) on the items, which the assertion asks not to be empty.
unfoldable pub erase_front : List Response → Option (List Response)
erase_front [] = none
erase_front (msg ∷ items) = some items

-- The result says whether the caller has to begin a read.
unfoldable pub on_write : Queue → Option (Bool × Queue)
unfolding is_full
on_write q = do
  items ← erase_front q.items
  q' ← start_next items (record q { items = items })
  some (is_full q, q')

-- operator(): a response is queued.
unfoldable pub push : Response → Queue → Option Queue
push msg q =
    let q' : Queue = record q { items = q.items ++ (msg ∷ []) } in
    if length q'.items == 1 then start_front q'.items q' else some q'
