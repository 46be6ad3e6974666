-- ===== src/Agent/Handlers.antt =====
-- CAgent's handlers of messages, of disconnections and of the maintenance timer, and the table of
-- MessageRouter. A socket that is in the registry is a registered provider.
use bb_auth.Prelude.{
  ℕ, Bool, some, List, [], ◌∷◌, ◌++◌, ◌&&◌, ◌||◌, not, if◌then◌else◌, ◌==◌, string_eq, nat_eq,
}
use bb_auth.Prelude.Int.{pos}
use bb_auth.Json.{Object, str, bool, int, end, field, put}
use bb_auth.EventQueue
use bb_auth.EventQueue.{subscribe_next, take_next, remove_waiter}
use bb_auth.Registry.{
  register_provider, heartbeat, unregister_provider, remove_socket, same_socket, is_registered,
  recompute_active_provider,
}
use bb_auth.Session.{to_created_event, to_updated_event}
use bb_auth.SessionStore
use bb_auth.SessionStore.{Sessions, get_session}
use bb_auth.Agent.State.{Agent, World, send, send_all}
use bb_auth.Agent.Sessions.{
  has_active, among, emit_provider_status, recompute_and_report, ensure_fallback_ui_running,
}
use bb_auth.Agent.Keyring
use bb_auth.Agent.Keyring.{error_reply}
use bb_auth.Agent.Pinentry
use bb_auth.Agent.Pinentry.{ok_reply}

abbrev pub is_active : Agent → ℕ → Bool
is_active a socket = same_socket (some socket) a.registry.active_provider

-- `QList::removeOne`
unfoldable pub remove_one : ℕ → List ℕ → List ℕ
remove_one s [] = []
remove_one s (x ∷ xs) = let rest = remove_one s xs in if x == s then xs else x ∷ rest

unfoldable pub replay : Sessions → List Object
replay [] = []
replay ((id, s) ∷ rest) = to_created_event s ∷ to_updated_event s ∷ replay rest

unfoldable pub to_socket : ℕ → List Object → List (ℕ × Object)
to_socket socket [] = []
to_socket socket (o ∷ os) = (socket, o) ∷ to_socket socket os

module _ (w : World) where
  unfoldable pub on_client_disconnected : Agent → ℕ → Agent
  unfolding remove_one
  on_client_disconnected a socket =
      let b = record a { subscribers = remove_one socket a.subscribers } in
      let (known, registry) = remove_socket b.registry socket in
      let c = if known then recompute_and_report w (record b { registry = registry }) else b in
      let d = record c { queue = remove_waiter c.queue socket } in
      let e = Pinentry.cleanup_for_socket w (Keyring.cleanup_for_socket w d socket) socket in
      if not (has_active e) && not (SessionStore.is_empty e.sessions)
      then ensure_fallback_ui_running w e "provider-disconnected"
      else e

  unfoldable pub handle_next : Agent → ℕ → Agent
  handle_next a socket =
      let (event, queue) = take_next a.queue in
      if EventQueue.is_empty a.queue
      then record a { queue = subscribe_next a.queue socket }
      else send w (record a { queue = queue }) socket event

  unfoldable pub handle_subscribe : Agent → ℕ → Agent
  unfolding replay to_socket
  handle_subscribe a socket =
      let b =
        if among socket a.subscribers
        then a
        else record a { subscribers = a.subscribers ++ socket ∷ [] } in
      let registered = is_registered b.registry socket in
      let active = registered && is_active b socket in
      let interactive = not registered || active in
      let count = if interactive then SessionStore.size b.sessions else 0 in
      let reply = field "type" (str "subscribed") (field "sessionCount" (int (pos count)) end) in
      let c = if interactive then send_all w b (to_socket socket (replay b.sessions)) else b in
      send w c socket (if registered then put "active" (bool active) reply else reply)

  unfoldable pub handle_keyring_request : Agent → ℕ → Object → Agent
  handle_keyring_request a socket msg = Keyring.handle_request w a msg socket (w.peer_pid socket)

  unfoldable pub handle_pinentry_request : Agent → ℕ → Object → Agent
  handle_pinentry_request a socket msg = Pinentry.handle_request w a msg socket (w.peer_pid socket)

  unfoldable pub handle_pinentry_result : Agent → ℕ → Object → Agent
  handle_pinentry_result a socket msg =
      let (result, b) = Pinentry.handle_result w a msg (w.peer_pid socket) in send w b socket result

  unfoldable pub handle_ui_register : Agent → ℕ → Object → Agent
  handle_ui_register a socket msg =
      let (p, registry) = register_provider a.registry socket msg w.host.now w.uuid in
      let (changed, registry') = recompute_active_provider registry w.host.now w.connected in
      let b = record a { registry = registry' } in
      let now_active = is_active b socket in
      let c = send w b socket (
        field "type" (str "ui.registered") (
          field "id" (str p.id)
            (field "active" (bool now_active) (field "priority" (int p.priority) end)))) in
      if changed || now_active then emit_provider_status w c else c

  unfoldable pub handle_ui_heartbeat : Agent → ℕ → Agent
  handle_ui_heartbeat a socket =
      let (known, registry) = heartbeat a.registry socket w.host.now in
      let b = recompute_and_report w (record a { registry = registry }) in
      if not known
      then send w a socket (error_reply "Provider not registered")
      else send w b socket
          (field "type" (str "ok") (field "active" (bool (is_active b socket)) end))

  unfoldable pub handle_ui_unregister : Agent → ℕ → Agent
  handle_ui_unregister a socket =
      let (known, registry) = unregister_provider a.registry socket in
      let b = recompute_and_report w (record a { registry = registry }) in
      let c = send w b socket ok_reply in
      if not known
      then send w a socket (error_reply "Provider not registered")
      else if not (has_active c) && not (SessionStore.is_empty c.sessions)
      then ensure_fallback_ui_running w c "provider-unregistered"
      else c
