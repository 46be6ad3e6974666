-- ===== src/Agent/Loop/Invariant.antt =====
-- What holds in every state that the daemon can reach.
use bb_auth.Prelude.{ℕ, ◌≡◌, ◌↔◌, ◌⊎◌, refl, inl, true, [], some, String, string_eq}
use bb_auth.Json.{Object}
use bb_auth.Prelude.Hash.{insert, find}
use bb_auth.MessageRouter.{dispatch, register_handler}
use bb_auth.MessageRouter.Dispatch.{AllKeep, dispatch-keeps}
use bb_auth.Registry.{is_authorized}
use bb_auth.Registry.Access.{settled-authorized}
use bb_auth.Agent.State.{Agent, World, send}
use bb_auth.Agent.Keyring.{error_reply}
use bb_auth.Agent.Handlers
use bb_auth.Agent.Messages.{handlers, handle_message}
use bb_auth.Agent.Sound.{IsSound, if-IsSound, send-IsSound}
use bb_auth.Agent.Sound.Managers
use bb_auth.Agent.Sound.Polkit
use bb_auth.Agent.Sound.Respond
use bb_auth.Agent.Sound.Handlers as Sound
use bb_auth.Agent.Loop.{
  LoopEvent, message, disconnected, maintenance, timed_out, polkit_initiates, polkit_cancels,
  session_requests, session_completes, session_fails, session_informs, handle, IsReachable, starts,
  handles,
}

module _ (w : World) (boot : Object) where
  handlers-AllKeep : AllKeep IsSound (handlers w boot)
  unfolding handlers register_handler insert Handlers.handle_keyring_request
      Handlers.handle_pinentry_request
  handlers-AllKeep = (
    (λ a s msg h. Sound.handle_ping-IsSound w boot a s h),
    (
      (λ a s msg h. Sound.handle_subscribe-IsSound w a s h),
      (
        (λ a s msg h. Sound.handle_next-IsSound w a s h),
        (
          (λ a s msg h. Managers.keyring-handle_request-IsSound w a msg s (w.peer_pid s) h),
          (
            (λ a s msg h. Managers.pinentry-handle_request-IsSound w a msg s (w.peer_pid s) h),
            (
              Sound.handle_pinentry_result-IsSound w,
              (
                Sound.handle_ui_register-IsSound w,
                (
                  (λ a s msg h. Sound.handle_ui_heartbeat-IsSound w a s h),
                  (
                    (λ a s msg h. Sound.handle_ui_unregister-IsSound w a s h),
                    (Respond.handle_respond-IsSound w, (Respond.handle_cancel-IsSound w, tt)),
                  ),
                ),
              ),
            ),
          ),
        ),
      ),
    ),
  )

  pub handle_message-IsSound :
      (a : Agent) (socket : ℕ) (type : String) (msg : Object)
      → IsSound a
      → IsSound (handle_message w boot a socket type msg)
  unfolding handle_message
  handle_message-IsSound a socket type msg h =
      let (known, b) = dispatch (handlers w boot) a socket type msg in
      let k = dispatch-keeps IsSound (handlers w boot) a socket type msg handlers-AllKeep h in
      if-IsSound known b (send w b socket (error_reply "Unknown type")) k
        (send-IsSound w b socket (error_reply "Unknown type") k)

  pub handle-IsSound : (e : LoopEvent) (a : Agent) → IsSound a → IsSound (handle w boot e a)
  unfolding handle
  handle-IsSound (message socket type msg) a h = handle_message-IsSound a socket type msg h
  handle-IsSound (disconnected socket) a h = Sound.on_client_disconnected-IsSound w a socket h
  handle-IsSound maintenance a h = Sound.prune_stale_providers-IsSound w boot a h
  handle-IsSound (timed_out cookie) a h = Managers.on_timeout-IsSound w a cookie h
  handle-IsSound (polkit_initiates q) a h = Polkit.initiate_authentication-IsSound w a q h
  handle-IsSound polkit_cancels a h = Polkit.cancel_authentication-IsSound w a h
  handle-IsSound (session_requests n request echo) a h =
      Polkit.on_request-IsSound w a n request echo h
  handle-IsSound (session_completes n gained) a h = Polkit.on_completed-IsSound w a n gained h
  handle-IsSound (session_fails n text) a h = Polkit.on_error-IsSound w a n text h
  handle-IsSound (session_informs n text) a h = Polkit.on_info-IsSound w a n text h

-- In every state that the daemon reaches, by whatever events in whatever order: the active provider
-- is a registered one, no registered provider is above it, and there is one unless none is
-- registered; no socket waits for an event while there is one; and every stored session is open and
-- stored under its own id.
pub reachable-IsSound : (a : Agent) → IsReachable a → IsSound a
unfolding find
reachable-IsSound _ starts = record { settled = refl; prompt = inl refl; open_sessions = λ j. tt }
reachable-IsSound _ (handles w boot e {a} r) = handle-IsSound w boot e a (reachable-IsSound a r)

-- In every state that the daemon reaches, a socket may answer prompts exactly if no provider is
-- registered or if it is the socket of the active one, so that of the providers at most one may.
pub reachable-authorized_iff :
    (a : Agent) (s : ℕ)
    → IsReachable a
    → (is_authorized a.registry s ≡ true)
      ↔ ((a.registry.ui_providers ≡ []) ⊎ (a.registry.active_provider ≡ some s))
reachable-authorized_iff a s r =
    settled-authorized a.registry.ui_providers a.registry.active_provider s
      (reachable-IsSound a r).settled
