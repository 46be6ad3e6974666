-- ===== src/Agent/Messages.antt =====
-- The table of message handlers that CAgent's constructor fills, handleMessage, the answer to a ping,
-- and the maintenance timer.
use bb_auth.Prelude.{ℕ, Option, none, some, String, [], not, if◌then◌else◌, ◌&&◌, string_eq}
use bb_auth.Prelude.Hash.{Hash}
use bb_auth.Json.{Object, Items, str, int, obj, arr, nil, cons, end, field, put, is_empty_object}
use bb_auth.MessageRouter.{register_handler, dispatch}
use bb_auth.Registry.{UiProvider, active_provider_info, prune_stale}
use bb_auth.SessionStore
use bb_auth.Agent.State.{Agent, World, send}
use bb_auth.Agent.Sessions.{has_active, emit_provider_status, ensure_fallback_ui_running}
use bb_auth.Agent.Keyring.{error_reply}
use bb_auth.Agent.Handlers.{
  handle_subscribe, handle_next, handle_keyring_request, handle_pinentry_request,
  handle_pinentry_result, handle_ui_register, handle_ui_heartbeat, handle_ui_unregister,
}
use bb_auth.Agent.Respond.{handle_respond, handle_cancel}

abbrev capabilities : Items
capabilities = cons (str "polkit") (
    cons (str "keyring")
      (cons (str "pinentry") (cons (str "fingerprint") (cons (str "fido2") nil))))

abbrev with_provider : Option UiProvider → Object → Object
with_provider none pong = pong
with_provider (some p) pong =
    put "provider"
      (obj (
        field "id" (str p.id) (
          field "name" (str p.name)
            (field "kind" (str p.kind) (field "priority" (int p.priority) end)))))
      pong

-- `bootstrap` is what readBootstrapState reads from its file and the environment.
module _ (w : World) (bootstrap : Object) where
  unfoldable pub handle_ping : Agent → ℕ → Agent
  handle_ping a socket =
      let pong =
        field "type" (str "pong")
          (field "version" (str "2.0") (field "capabilities" (arr capabilities) end)) in
      let booted =
        if is_empty_object bootstrap then pong else put "bootstrap" (obj bootstrap) pong in
      send w a socket
        (if has_active a then with_provider (active_provider_info a.registry) booted else booted)

  unfoldable pub handlers : Hash String (Agent → ℕ → Object → Agent)
  handlers =
      let t = register_handler [] "ping" (λ a s msg. handle_ping a s) in
      let t = register_handler t "subscribe" (λ a s msg. handle_subscribe w a s) in
      let t = register_handler t "next" (λ a s msg. handle_next w a s) in
      let t = register_handler t "keyring_request" (handle_keyring_request w) in
      let t = register_handler t "pinentry_request" (handle_pinentry_request w) in
      let t = register_handler t "pinentry_result" (handle_pinentry_result w) in
      let t = register_handler t "ui.register" (handle_ui_register w) in
      let t = register_handler t "ui.heartbeat" (λ a s msg. handle_ui_heartbeat w a s) in
      let t = register_handler t "ui.unregister" (λ a s msg. handle_ui_unregister w a s) in
      let t = register_handler t "session.respond" (handle_respond w) in
      register_handler t "session.cancel" (handle_cancel w)

  unfoldable pub handle_message : Agent → ℕ → String → Object → Agent
  unfolding handlers
  handle_message a socket type msg =
      let (known, b) = dispatch handlers a socket type msg in
      if known then b else send w b socket (error_reply "Unknown type")

  unfoldable pub prune_stale_providers : Agent → Agent
  prune_stale_providers a =
      let (changed, registry) = prune_stale a.registry w.host.now w.connected in
      let b = record a { registry = registry } in
      let c = if changed then emit_provider_status w b else b in
      if not (has_active c) && not (SessionStore.is_empty c.sessions)
      then ensure_fallback_ui_running w c "provider-prune"
      else c
