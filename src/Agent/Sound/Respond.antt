-- ===== src/Agent/Sound/Respond.antt =====
-- The answers of the UI keep the agent sound.
use bb_auth.Prelude.{ℕ, Option, none, some, String, arith, string_eq, nat_eq}
use bb_auth.Json.{Object, value, to_string}
use bb_auth.Session.{Session}
use bb_auth.SessionStore.{get_session}
use bb_auth.Agent.State.{Agent, World, send}
use bb_auth.Agent.Keyring
use bb_auth.Agent.Keyring.{error_reply}
use bb_auth.Agent.Pinentry
use bb_auth.Agent.Pinentry.{ok_reply}
use bb_auth.Agent.Polkit
use bb_auth.Agent.Respond
use bb_auth.Agent.Respond.{send_if, is_error}
use bb_auth.Agent.Sound.{IsSound, if-IsSound, send-IsSound}
use bb_auth.Agent.Sound.Managers
use bb_auth.Agent.Sound.Polkit as PolkitSound

module _ (w : World) where
  send_if-IsSound :
      (a : Agent) (o : Option ℕ) (reply : Object) → IsSound a → IsSound (send_if w a o reply)
  send_if-IsSound a none reply h = h
  send_if-IsSound a (some s) reply h = send-IsSound w a s reply h

  keyring_respond-IsSound :
      (a : Agent) (socket : ℕ) (cookie response : String)
      → IsSound a
      → IsSound (Respond.keyring_respond w a socket cookie response)
  unfolding Respond.keyring_respond
  keyring_respond-IsSound a socket cookie response h =
      let orig = Keyring.get_socket_for_request a cookie in
      let (reply, b) = Keyring.handle_response w a cookie response in
      send-IsSound w (send_if w b orig reply) socket ok_reply (
        send_if-IsSound b orig reply
          (Managers.keyring-handle_response-IsSound w a cookie response h))

  forward-IsSound :
      (a : Agent) (socket : ℕ) (o : Option ℕ) (reply : Object)
      → IsSound a
      → IsSound (Respond.forward w a socket o reply)
  unfolding Respond.forward
  forward-IsSound a socket none reply h = send-IsSound w a socket _ h
  forward-IsSound a socket (some orig) reply h =
      if-IsSound (is_error reply) _ _ (send-IsSound w a socket _ h)
        (send-IsSound w (send w a orig reply) socket ok_reply (send-IsSound w a orig reply h))

  pinentry_respond-IsSound :
      (a : Agent) (socket : ℕ) (cookie response : String)
      → IsSound a
      → IsSound (Respond.pinentry_respond w a socket cookie response)
  unfolding Respond.pinentry_respond
  pinentry_respond-IsSound a socket cookie response h =
      let (reply, b) = Pinentry.handle_response w a cookie response in
      forward-IsSound b socket (Pinentry.get_socket_for_pending_input a cookie) reply
        (Managers.pinentry-handle_response-IsSound w a cookie response h)

  direct_respond-IsSound :
      (a : Agent) (socket : ℕ) (cookie response : String) (o : Option Session)
      → IsSound a
      → IsSound (Respond.direct_respond w a socket cookie response o)
  unfolding Respond.direct_respond
  direct_respond-IsSound a socket cookie response none h = send-IsSound w a socket _ h
  direct_respond-IsSound a socket cookie response (some s) h =
      if-IsSound _ _ _ (send-IsSound w a socket _ h) (
        send-IsSound w (Polkit.submit_password a cookie response) socket ok_reply
          (PolkitSound.submit_password-IsSound w a cookie response h))

  respond-IsSound :
      (a : Agent) (socket : ℕ) (cookie response : String)
      → IsSound a
      → IsSound (Respond.respond w a socket cookie response)
  unfolding Respond.respond
  respond-IsSound a socket cookie response h =
      let s = get_session a.sessions cookie in
      ground (
        arith,
        send-IsSound w a socket (error_reply "Not active UI provider") h,
        keyring_respond-IsSound a socket cookie response h,
        pinentry_respond-IsSound a socket cookie response h,
        send-IsSound w a socket (error_reply "Session is not accepting input") h,
        direct_respond-IsSound a socket cookie response s h,
      )

  pub handle_respond-IsSound :
      (a : Agent) (socket : ℕ) (msg : Object)
      → IsSound a
      → IsSound (Respond.handle_respond w a socket msg)
  unfolding Respond.handle_respond
  handle_respond-IsSound a socket msg h =
      respond-IsSound a socket (to_string (value "id" msg)) (to_string (value "response" msg)) h

  keyring_cancel-IsSound :
      (a : Agent) (socket : ℕ) (cookie : String)
      → IsSound a
      → IsSound (Respond.keyring_cancel w a socket cookie)
  unfolding Respond.keyring_cancel
  keyring_cancel-IsSound a socket cookie h =
      let orig = Keyring.get_socket_for_request a cookie in
      let (reply, b) = Keyring.handle_cancel w a cookie in
      send-IsSound w (send_if w b orig reply) socket ok_reply
        (send_if-IsSound b orig reply (Managers.keyring-handle_cancel-IsSound w a cookie h))

  pinentry_cancel-IsSound :
      (a : Agent) (socket : ℕ) (cookie : String)
      → IsSound a
      → IsSound (Respond.pinentry_cancel w a socket cookie)
  unfolding Respond.pinentry_cancel
  pinentry_cancel-IsSound a socket cookie h =
      let orig = Pinentry.get_socket_for_pending_input a cookie in
      let (reply, b) = Pinentry.handle_cancel w a cookie in
      let k = Managers.pinentry-handle_cancel-IsSound w a cookie h in
      if-IsSound (is_error reply) (send w b socket reply)
        (send w (send_if w b orig reply) socket ok_reply) (send-IsSound w b socket reply k)
        (send-IsSound w (send_if w b orig reply) socket ok_reply (send_if-IsSound b orig reply k))

  direct_cancel-IsSound :
      (a : Agent) (socket : ℕ) (cookie : String) (o : Option Session)
      → IsSound a
      → IsSound (Respond.direct_cancel w a socket cookie o)
  unfolding Respond.direct_cancel
  direct_cancel-IsSound a socket cookie none h = send-IsSound w a socket _ h
  direct_cancel-IsSound a socket cookie (some s) h =
      if-IsSound _ _ _ (send-IsSound w a socket _ h) (
        send-IsSound w (Polkit.cancel_pending w a cookie) socket ok_reply
          (PolkitSound.cancel_pending-IsSound w a cookie h))

  pub handle_cancel-IsSound :
      (a : Agent) (socket : ℕ) (msg : Object)
      → IsSound a
      → IsSound (Respond.handle_cancel w a socket msg)
  unfolding Respond.handle_cancel
  handle_cancel-IsSound a socket msg h =
      let cookie = to_string (value "id" msg) in
      let s = get_session a.sessions cookie in
      ground (
        arith,
        send-IsSound w a socket (error_reply "Not active UI provider") h,
        keyring_cancel-IsSound a socket cookie h,
        pinentry_cancel-IsSound a socket cookie h,
        direct_cancel-IsSound a socket cookie s h,
      )
