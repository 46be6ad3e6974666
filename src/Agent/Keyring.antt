-- ===== src/Agent/Keyring.antt =====
-- src/core/managers/KeyringManager.{hpp,cpp}: the keyring prompts that wait for an answer, by cookie.
pub mod RoundTrip
use bb_auth.Prelude.{
  ℕ, Bool, true, false, Option, none, some, String, [], ◌∷◌, ◌++◌, not, if◌then◌else◌, ◌==◌,
  string_eq, nat_eq,
}
use bb_auth.Prelude.Int.{ℤ}
use bb_auth.Prelude.Hash.{Hash, find, insert, remove, contains}
use bb_auth.Json.{Object, str, end, field, value, has_key, to_string, to_int}
use bb_auth.Session.{Requestor, Context, new_context, keyring, success, cancelled}
use bb_auth.Agent.State.{Agent, World, KeyringRequest, text_or}
use bb_auth.Agent.Sessions.{create_session, update_session_prompt, close_session}

abbrev pub error_reply : String → Object
error_reply message = field "type" (str "error") (field "message" (str message) end)

-- A write past sendJson, to an open socket.
abbrev pub write_open : World → Agent → ℕ → Object → Agent
write_open w a socket json =
    if w.is_open socket then record a { sent = a.sent ++ (socket, json) ∷ [] } else a

unfoldable pub read_request : World → Object → ℕ → ℤ → KeyringRequest
read_request w msg socket peer_pid = record {
  cookie = text_or (to_string (value "cookie" msg)) w.uuid;
  socket = socket;
  peer_pid = peer_pid;
  title =
      if has_key "title" msg then to_string (value "title" msg) else to_string (value "prompt" msg);
  message = to_string (value "message" msg);
  choice = to_string (value "choice" msg);
  flags = to_int (value "flags" msg);
}

unfoldable pub context_of : KeyringRequest → Requestor → Context
context_of r actor = record new_context {
  message = r.title;
  keyring_name = r.message;
  requestor = record actor { pid = r.peer_pid };
}

module _ (w : World) where
  unfoldable pub finish_request : KeyringRequest → Bool × Agent → Agent
  finish_request r (true, a) = update_session_prompt w a r.cookie r.message false true
  finish_request r (false, a) =
      write_open w (record a { keyring = remove r.cookie a.keyring }) r.socket
        (error_reply "Session ID collision")

  unfoldable pub handle_request : Agent → Object → ℕ → ℤ → Agent
  unfolding finish_request read_request context_of
  handle_request a msg socket peer_pid =
      let r = read_request w msg socket peer_pid in
      let b = record a { keyring = insert r.cookie r a.keyring } in
      finish_request r
        (create_session w b r.cookie keyring (context_of r (w.resolve_actor peer_pid)))

  unfoldable pub handle_response : Agent → String → String → Object × Agent
  handle_response a cookie response =
      if not (contains cookie a.keyring) then (error_reply "Unknown cookie", a) else (
        field "type" (str "keyring_response") (
            field "id" (str cookie)
              (field "result" (str "ok") (field "password" (str response) end))),
        close_session w (record a { keyring = remove cookie a.keyring }) cookie success,
      )

  unfoldable pub handle_cancel : Agent → String → Object × Agent
  handle_cancel a cookie =
      if not (contains cookie a.keyring) then (error_reply "Unknown cookie", a) else (
        field "type" (str "keyring_response")
            (field "result" (str "cancelled") (field "id" (str cookie) end)),
        close_session w (record a { keyring = remove cookie a.keyring }) cookie cancelled,
      )

  -- The loop over the requests, as they stand when it starts.
  unfoldable pub cleanup_requests : Agent → ℕ → Hash String KeyringRequest → Agent
  cleanup_requests a socket [] = a
  cleanup_requests a socket ((key, r) ∷ rest) =
      let b =
        if r.socket == socket
        then close_session w (record a { keyring = remove key a.keyring }) r.cookie cancelled
        else a in
      cleanup_requests b socket rest

  unfoldable pub cleanup_for_socket : Agent → ℕ → Agent
  unfolding cleanup_requests
  cleanup_for_socket a socket = cleanup_requests a socket a.keyring

unfoldable pub has_pending_request : Agent → String → Bool
has_pending_request a cookie = contains cookie a.keyring

abbrev socket_of : Option KeyringRequest → Option ℕ
socket_of none = none
socket_of (some r) = some r.socket

unfoldable pub get_socket_for_request : Agent → String → Option ℕ
get_socket_for_request a cookie = socket_of (find cookie a.keyring)
