-- ===== src/EventQueue/Delivery.antt =====
-- Who gets which event.
use bb_auth.Prelude.{ℕ, ◌≡◌, refl, ap, ◌⊎◌, inl, inr, List, [], ◌∷◌, ◌++◌, map}
use bb_auth.Json.{Object}
use bb_auth.EventQueue.{EventQueue, drain, drain_to_waiters}

-- Waiters and events are paired first come, first served, until one of the two lists is used up.
pub record IsDelivery (ws : List ℕ) (es : List Object) (sends : List (ℕ × Object))
    (waiters : List ℕ) (events : List Object) : Type 0 where
  pub served : map (λ s. s.0) sends ++ waiters ≡ ws
  pub sent : map (λ s. s.1) sends ++ events ≡ es
  pub finished : (waiters ≡ []) ⊎ (events ≡ [])

drain-IsDelivery :
    (ws : List ℕ) (es : List Object)
    → IsDelivery ws es (drain ws es).0 (drain ws es).1 (drain ws es).2
unfolding drain
drain-IsDelivery [] es = record { served = refl; sent = refl; finished = inl refl }
drain-IsDelivery (w ∷ ws) [] = record { served = refl; sent = refl; finished = inr refl }
drain-IsDelivery (w ∷ ws) (e ∷ es) =
    let rest = drain-IsDelivery ws es in
    record {
      served = ap (◌∷◌ w) rest.served;
      sent = ap (◌∷◌ e) rest.sent;
      finished = rest.finished;
    }

-- `drain_to_waiters` loses and repeats nothing: the sends, in order, go to the longest waiting
-- sockets and carry the oldest events, and afterwards no socket waits or no event is left.
pub drain_to_waiters-IsDelivery :
    (q : EventQueue)
    → IsDelivery q.next_waiters q.event_queue
        (drain_to_waiters q).0
        (drain_to_waiters q).1.next_waiters
        (drain_to_waiters q).1.event_queue
unfolding drain_to_waiters
drain_to_waiters-IsDelivery q = drain-IsDelivery q.next_waiters q.event_queue
