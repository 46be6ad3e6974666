-- ===== src/EventRouter/Privacy.antt =====
-- Who gets to see an event.
use mathlib.Core.List.{Memᴰ}
use bb_auth.Prelude.{ℕ, ◌≡◌, ◌⊎◌, Bool, true, false, some, List}
use bb_auth.Json.{Object}
use bb_auth.EventQueue.{EventQueue}
use bb_auth.Registry.{Registry, has_active_provider}
use bb_auth.EventRouter.{is_session_event_for_provider_routing}

ToWaiter : List ℕ → ℕ × Object → Type 0
ToWaiter ws s = Memᴰ s.0 ws

-- The sockets that an event is meant for: the active provider if it is an event of a session, and
-- the subscribers if it is another event or no provider is active.
abbrev pub IsMeantFor : Registry → Object → List ℕ → ℕ → Type 0
IsMeantFor r e subscribers s =
    ((is_session_event_for_provider_routing e ≡ true)
      × (has_active_provider r ≡ true)
      × (r.active_provider ≡ some s))
    ⊎ (((is_session_event_for_provider_routing e ≡ false) ⊎ (has_active_provider r ≡ false))
        × Memᴰ s subscribers)

-- The sockets of a list that are valid.
abbrev IsValidIn : (ℕ → Bool) → List ℕ → ℕ → Type 0
IsValidIn valid ss s = (valid s ≡ true) × Memᴰ s ss

module _ (r : Registry) (q : EventQueue) (e : Object) (subscribers : List ℕ)
    (valid : ℕ → Bool) where
  -- A send of the event to a valid socket that it is meant for, or of any event to a waiter.
  abbrev pub IsAllowed : ℕ × Object → Type 0
  IsAllowed x =
      ((x.1 ≡ e) × (valid x.0 ≡ true) × IsMeantFor r e subscribers x.0) ⊎ Memᴰ x.0 q.next_waiters
