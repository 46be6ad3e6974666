-- ===== src/Agent/Sound/Handlers.antt =====
-- The handlers of messages, of disconnections and of the timer keep the agent sound.
use bb_auth.Prelude.{
  ℕ, ◌≡◌, Bool-cases, Bool, true, String, [], ◌∷◌, ◌++◌, ◌||◌, ◌&&◌, not, arith, refl, string_eq,
  nat_eq, if◌then◌else◌, inl, inr,
}
use bb_auth.Json.{field, str, bool, int, end, Object}
use bb_auth.EventQueue.{take_next, subscribe_next, remove_waiter, remove_all}
use bb_auth.EventQueue
use bb_auth.Registry.{
  is_registered, remove_socket, register_provider, heartbeat, unregister_provider, prune_stale,
  recompute_active_provider,
}
use bb_auth.Registry.Recompute.{recompute-IsElected}
use bb_auth.SessionStore
use bb_auth.SessionStore.{get_session}
use bb_auth.Agent.State.{Agent, World, send, send_all}
use bb_auth.Agent.Keyring
use bb_auth.Agent.Keyring.{error_reply}
use bb_auth.Agent.Pinentry
use bb_auth.Agent.Pinentry.{ok_reply}
use bb_auth.Agent.Sessions.{
  has_active, among, recompute_and_report, ensure_fallback_ui_running, emit_provider_status,
}
use bb_auth.Agent.Handlers
use bb_auth.Agent.Messages
use bb_auth.Agent.Sound.{
  IsSound, IsPrompt, if-IsSound, send-IsSound, send_all-IsSound, resettled,
  ensure_fallback_ui_running-IsSound, emit_provider_status-IsSound,
}
use bb_auth.Agent.Sound.Managers

subscribe_next-IsPrompt :
    (q : EventQueue.EventQueue) (s : ℕ)
    → EventQueue.is_empty q ≡ true
    → IsPrompt (subscribe_next q s)
unfolding EventQueue.is_empty subscribe_next
subscribe_next-IsPrompt q s h = ground arith

take_next-IsPrompt : (q : EventQueue.EventQueue) → IsPrompt q → IsPrompt (take_next q).1
unfolding take_next
take_next-IsPrompt q h = ground arith

remove_waiter-IsPrompt :
    (q : EventQueue.EventQueue) (s : ℕ) → IsPrompt q → IsPrompt (remove_waiter q s)
unfolding remove_waiter remove_all
remove_waiter-IsPrompt q s (inl h) = inl (rw h refl)
remove_waiter-IsPrompt q s (inr h) = inr h

module _ (w : World) where
  pub handle_next-IsSound :
      (a : Agent) (socket : ℕ) → IsSound a → IsSound (Handlers.handle_next w a socket)
  unfolding Handlers.handle_next
  handle_next-IsSound a socket h = elim (Bool-cases (EventQueue.is_empty a.queue)) [
    | inl e ↦ rw e (record {
      settled = h.settled;
      prompt = subscribe_next-IsPrompt a.queue socket e;
      open_sessions = h.open_sessions;
    })
    | inr e ↦
        let b = record a { queue = (take_next a.queue).1 } in
        rw e (
          send-IsSound w b socket (take_next a.queue).0 (record {
            settled = h.settled;
            prompt = take_next-IsPrompt a.queue h.prompt;
            open_sessions = h.open_sessions;
          }))
  ]

  pub handle_subscribe-IsSound :
      (a : Agent) (socket : ℕ) → IsSound a → IsSound (Handlers.handle_subscribe w a socket)
  unfolding Handlers.handle_subscribe
  handle_subscribe-IsSound a socket h =
      let b =
        if among socket a.subscribers
        then a
        else record a { subscribers = a.subscribers ++ socket ∷ [] } in
      let hb =
        if-IsSound (among socket a.subscribers) a
          (record a { subscribers = a.subscribers ++ socket ∷ [] }) h h in
      let registered = is_registered b.registry socket in
      let interactive = not registered || (registered && Handlers.is_active b socket) in
      let events = send_all w b (Handlers.to_socket socket (Handlers.replay b.sessions)) in
      let he = send_all-IsSound w b (Handlers.to_socket socket (Handlers.replay b.sessions)) hb in
      send-IsSound w (if interactive then events else b) socket _
        (if-IsSound interactive events b he hb)

  pub handle_pinentry_result-IsSound :
      (a : Agent) (socket : ℕ) (msg : Object)
      → IsSound a
      → IsSound (Handlers.handle_pinentry_result w a socket msg)
  unfolding Handlers.handle_pinentry_result
  handle_pinentry_result-IsSound a socket msg h =
      let (reply, b) = Pinentry.handle_result w a msg (w.peer_pid socket) in
      send-IsSound w b socket reply (Managers.handle_result-IsSound w a msg (w.peer_pid socket) h)

  pub handle_ui_register-IsSound :
      (a : Agent) (socket : ℕ) (msg : Object)
      → IsSound a
      → IsSound (Handlers.handle_ui_register w a socket msg)
  unfolding Handlers.handle_ui_register
  handle_ui_register-IsSound a socket msg h =
      let (p, registry) = register_provider a.registry socket msg w.host.now w.uuid in
      let (changed, registry') = recompute_active_provider registry w.host.now w.connected in
      let b = record a { registry = registry' } in
      let hb : IsSound b = record {
        settled = (recompute-IsElected w.host.now w.connected registry).1;
        prompt = h.prompt;
        open_sessions = h.open_sessions;
      } in
      let reply = field "type" (str "ui.registered") (
        field "id" (str p.id) (
          field "active" (bool (Handlers.is_active b socket))
            (field "priority" (int p.priority) end))) in
      let hc = send-IsSound w b socket reply hb in
      if-IsSound (changed || Handlers.is_active b socket) _ _
        (emit_provider_status-IsSound w (send w b socket reply) hc) hc

  -- Whatever became of the registry: recompute, then start the fallback UI if it is needed.
  relaunch-IsSound :
      (a : Agent) (b : Bool) (reason : String)
      → IsSound a
      → IsSound (if b then ensure_fallback_ui_running w a reason else a)
  relaunch-IsSound a b reason h =
      if-IsSound b _ _ (ensure_fallback_ui_running-IsSound w a reason h) h

  pub handle_ui_heartbeat-IsSound :
      (a : Agent) (socket : ℕ) → IsSound a → IsSound (Handlers.handle_ui_heartbeat w a socket)
  unfolding Handlers.handle_ui_heartbeat
  handle_ui_heartbeat-IsSound a socket h =
      let (known, registry) = heartbeat a.registry socket w.host.now in
      let b = recompute_and_report w (record a { registry = registry }) in
      let k = resettled w (record a { registry = registry }) h.prompt h.open_sessions in
      if-IsSound (not known) _ _ (send-IsSound w a socket _ h) (send-IsSound w b socket _ k)

  pub handle_ui_unregister-IsSound :
      (a : Agent) (socket : ℕ) → IsSound a → IsSound (Handlers.handle_ui_unregister w a socket)
  unfolding Handlers.handle_ui_unregister
  handle_ui_unregister-IsSound a socket h =
      let (known, registry) = unregister_provider a.registry socket in
      let b = recompute_and_report w (record a { registry = registry }) in
      let k = resettled w (record a { registry = registry }) h.prompt h.open_sessions in
      if-IsSound (not known) _ _ (send-IsSound w a socket _ h)
        (relaunch-IsSound (send w b socket ok_reply) _ _ (send-IsSound w b socket ok_reply k))

  pub on_client_disconnected-IsSound :
      (a : Agent) (socket : ℕ) → IsSound a → IsSound (Handlers.on_client_disconnected w a socket)
  unfolding Handlers.on_client_disconnected
  on_client_disconnected-IsSound a socket h =
      let b = record a { subscribers = Handlers.remove_one socket a.subscribers } in
      let (known, registry) = remove_socket b.registry socket in
      let r = record b { registry = registry } in
      let c = if known then recompute_and_report w r else b in
      let hc =
        if-IsSound known (recompute_and_report w r) b (resettled w r h.prompt h.open_sessions) h in
      let d = record c { queue = remove_waiter c.queue socket } in
      let hd : IsSound d = record {
        settled = hc.settled;
        prompt = remove_waiter-IsPrompt c.queue socket hc.prompt;
        open_sessions = hc.open_sessions;
      } in
      let f = Keyring.cleanup_for_socket w d socket in
      let hf = Managers.keyring-cleanup-IsSound w d socket hd in
      let e = Pinentry.cleanup_for_socket w f socket in
      let he = Managers.pinentry-cleanup-IsSound w f socket hf in
      relaunch-IsSound e (not (has_active e) && not (SessionStore.is_empty e.sessions)) _ he

  pub prune_stale_providers-IsSound :
      (boot : Object) (a : Agent) → IsSound a → IsSound (Messages.prune_stale_providers w boot a)
  unfolding Messages.prune_stale_providers prune_stale
  prune_stale_providers-IsSound boot a h =
      let (changed, registry) = prune_stale a.registry w.host.now w.connected in
      let b = record a { registry = registry } in
      let hb : IsSound b = record {
        settled = (recompute-IsElected w.host.now w.connected a.registry).1;
        prompt = h.prompt;
        open_sessions = h.open_sessions;
      } in
      let c = if changed then emit_provider_status w b else b in
      let hc =
        if-IsSound changed (emit_provider_status w b) b (emit_provider_status-IsSound w b hb) hb in
      relaunch-IsSound c (not (has_active c) && not (SessionStore.is_empty c.sessions)) _ hc

  pub handle_ping-IsSound :
      (boot : Object) (a : Agent) (socket : ℕ)
      → IsSound a
      → IsSound (Messages.handle_ping w boot a socket)
  unfolding Messages.handle_ping
  handle_ping-IsSound boot a socket h = send-IsSound w a socket _ h
