-- ===== src/EventQueue.antt =====
-- src/core/agent/EventQueue.{hpp,cpp}: the bounded queue of events and the sockets that wait for
-- the next one. `drain_to_waiters` returns the calls of `sendFn` in order.
pub mod Newest
pub mod Delivery
use bb_auth.Prelude.{
  ℕ, Bool, true, false, Option, none, some, List, [], ◌∷◌, ◌++◌, not, length, is_nil, leb,
  if◌then◌else◌, ◌==◌, nat_eq,
}
use bb_auth.Json.{Object, end}

pub record EventQueue : Type 0 where
  pub max_size : ℕ
  pub event_queue : List Object
  pub next_waiters : List ℕ

pub create : ℕ → EventQueue
create max_size = record { max_size = max_size; event_queue = []; next_waiters = [] }

unfoldable pub is_empty : EventQueue → Bool
is_empty q = is_nil q.event_queue

unfoldable pub has_events : EventQueue → Bool
has_events q = not (is_nil q.event_queue)

take_first : List Object → Object × List Object
take_first [] = (end, [])
take_first (e ∷ es) = (e, es)

unfoldable pub take_next : EventQueue → Object × EventQueue
unfolding take_first
take_next q = let (e, rest) = take_first q.event_queue in (e, record q { event_queue = rest })

abbrev dequeue : List Object → List Object
dequeue [] = []
dequeue (e ∷ es) = es

unfoldable pub enqueue : EventQueue → Object → EventQueue
enqueue q event = record q {
  event_queue =
      (if leb q.max_size (length q.event_queue) then dequeue q.event_queue else q.event_queue)
      ++ event ∷ [];
}

unfoldable pub subscribe_next : EventQueue → ℕ → EventQueue
subscribe_next q socket = record q { next_waiters = q.next_waiters ++ socket ∷ [] }

-- `QList::removeAll`
unfoldable pub remove_all : ℕ → List ℕ → List ℕ
remove_all s [] = []
remove_all s (x ∷ xs) = let rest = remove_all s xs in if x == s then rest else x ∷ rest

unfoldable pub remove_waiter : EventQueue → ℕ → EventQueue
unfolding remove_all
remove_waiter q socket = record q { next_waiters = remove_all socket q.next_waiters }

-- The sends, the waiters left and the events left.
unfoldable pub drain : List ℕ → List Object → List (ℕ × Object) × List ℕ × List Object
drain [] es = ([], [], es)
drain (w ∷ ws) [] = ([], w ∷ ws, [])
drain (w ∷ ws) (e ∷ es) =
    let (sends, waiters, events) = drain ws es in ((w, e) ∷ sends, waiters, events)

unfoldable pub drain_to_waiters : EventQueue → List (ℕ × Object) × EventQueue
unfolding drain
drain_to_waiters q =
    let (sends, waiters, events) = drain q.next_waiters q.event_queue in
    (sends, record q { next_waiters = waiters; event_queue = events })
