-- ===== src/EventRouter.antt =====
-- src/core/agent/EventRouter.{hpp,cpp}: who gets an event. `valid` tells which sockets are valid; the
-- calls of `sendFn` are returned in order.
pub mod Privacy
use text.Mathlib.Text.{starts_with}
use bb_auth.Prelude.{ℕ, Bool, Option, none, some, List, [], ◌∷◌, ◌++◌, ◌&&◌, map, if◌then◌else◌}
use bb_auth.Json.{Object, value, to_string}
use bb_auth.EventQueue.{EventQueue, enqueue, drain_to_waiters}
use bb_auth.Registry.{Registry, has_active_provider}

unfoldable pub is_session_event_for_provider_routing : Object → Bool
is_session_event_for_provider_routing event =
    starts_with (to_string (value "type" event)) "session."

unfoldable pub valid_of : (ℕ → Bool) → List ℕ → List ℕ
valid_of valid [] = []
valid_of valid (s ∷ ss) = let rest = valid_of valid ss in if valid s then s ∷ rest else rest

abbrev pub active_of : (ℕ → Bool) → Option ℕ → List ℕ
active_of valid none = []
active_of valid (some s) = if valid s then s ∷ [] else []

-- The sockets that the event is sent to before it is queued.
unfoldable pub targets : Registry → Object → List ℕ → (ℕ → Bool) → List ℕ
unfolding valid_of is_session_event_for_provider_routing
targets r event subscribers valid =
    if is_session_event_for_provider_routing event && has_active_provider r
    then active_of valid r.active_provider
    else valid_of valid subscribers

unfoldable pub route :
    Registry → EventQueue → Object → List ℕ → (ℕ → Bool) → List (ℕ × Object) × EventQueue
unfolding targets
route r q event subscribers valid =
    let (drained, q') = drain_to_waiters (enqueue q event) in
    (map (λ s. (s, event)) (targets r event subscribers valid) ++ drained, q')
