-- ===== src/Agent/Respond.antt =====
-- CAgent::handleRespond and CAgent::handleCancel: what the UI answers to a prompt.
pub mod Authority
use bb_auth.Prelude.{ℕ, Bool, Option, none, some, String, not, if◌then◌else◌, ◌==◌, string_eq}
use bb_auth.Json.{Object, value, to_string}
use bb_auth.Registry.{is_authorized}
use bb_auth.Session.{Session, is_polkit}
use bb_auth.SessionStore.{get_session}
use bb_auth.Agent.State.{Agent, World, send, text_or}
use bb_auth.Agent.Keyring
use bb_auth.Agent.Keyring.{error_reply}
use bb_auth.Agent.Pinentry
use bb_auth.Agent.Pinentry.{ok_reply}
use bb_auth.Agent.Polkit.{submit_password, cancel_pending}

abbrev pub is_error : Object → Bool
is_error reply = to_string (value "type" reply) == "error"

module _ (w : World) where
  -- `if (origSocket) sendJson(origSocket, reply);`
  abbrev pub send_if : Agent → Option ℕ → Object → Agent
  send_if a none reply = a
  send_if a (some socket) reply = send w a socket reply

  unfoldable pub keyring_respond : Agent → ℕ → String → String → Agent
  keyring_respond a socket cookie response =
      let orig = Keyring.get_socket_for_request a cookie in
      let (reply, b) = Keyring.handle_response w a cookie response in
      send w (send_if b orig reply) socket ok_reply

  unfoldable pub forward : Agent → ℕ → Option ℕ → Object → Agent
  forward a socket none reply =
      send w a socket
        (error_reply (text_or (to_string (value "message" reply)) "Invalid pinentry session state"))
  forward a socket (some orig) reply =
      if is_error reply
      then send w a socket (
          error_reply
            (text_or (to_string (value "message" reply)) "Invalid pinentry session state"))
      else send w (send w a orig reply) socket ok_reply

  unfoldable pub pinentry_respond : Agent → ℕ → String → String → Agent
  unfolding forward
  pinentry_respond a socket cookie response =
      let orig = Pinentry.get_socket_for_pending_input a cookie in
      let (reply, b) = Pinentry.handle_response w a cookie response in forward b socket orig reply

  unfoldable pub direct_respond : Agent → ℕ → String → String → Option Session → Agent
  direct_respond a socket cookie response none = send w a socket (error_reply "Unknown session")
  direct_respond a socket cookie response (some s) =
      if not (is_polkit s.source)
      then send w a socket (error_reply "Session is not awaiting direct response")
      else send w (submit_password a cookie response) socket ok_reply

  unfoldable pub respond : Agent → ℕ → String → String → Agent
  unfolding keyring_respond pinentry_respond direct_respond
  respond a socket cookie response =
      if not (is_authorized a.registry socket)
      then send w a socket (error_reply "Not active UI provider")
      else if Keyring.has_pending_request a cookie
      then keyring_respond a socket cookie response
      else if Pinentry.has_pending_input a cookie
      then pinentry_respond a socket cookie response
      else if Pinentry.has_request a cookie
      then send w a socket (error_reply "Session is not accepting input")
      else direct_respond a socket cookie response (get_session a.sessions cookie)

  unfoldable pub handle_respond : Agent → ℕ → Object → Agent
  unfolding respond
  handle_respond a socket msg =
      respond a socket (to_string (value "id" msg)) (to_string (value "response" msg))

  unfoldable pub keyring_cancel : Agent → ℕ → String → Agent
  keyring_cancel a socket cookie =
      let orig = Keyring.get_socket_for_request a cookie in
      let (reply, b) = Keyring.handle_cancel w a cookie in
      send w (send_if b orig reply) socket ok_reply

  unfoldable pub pinentry_cancel : Agent → ℕ → String → Agent
  pinentry_cancel a socket cookie =
      let orig = Pinentry.get_socket_for_pending_input a cookie in
      let (reply, b) = Pinentry.handle_cancel w a cookie in
      if is_error reply
      then send w b socket reply
      else send w (send_if b orig reply) socket ok_reply

  unfoldable pub direct_cancel : Agent → ℕ → String → Option Session → Agent
  direct_cancel a socket cookie none = send w a socket (error_reply "Unknown session")
  direct_cancel a socket cookie (some s) =
      if not (is_polkit s.source)
      then send w a socket (error_reply "Session is not cancellable from this path")
      else send w (cancel_pending w a cookie) socket ok_reply

  unfoldable pub handle_cancel : Agent → ℕ → Object → Agent
  unfolding keyring_cancel pinentry_cancel direct_cancel
  handle_cancel a socket msg =
      let cookie = to_string (value "id" msg) in
      if not (is_authorized a.registry socket)
      then send w a socket (error_reply "Not active UI provider")
      else if Keyring.has_pending_request a cookie
      then keyring_cancel a socket cookie
      else if Pinentry.has_request a cookie
      then pinentry_cancel a socket cookie
      else direct_cancel a socket cookie (get_session a.sessions cookie)
