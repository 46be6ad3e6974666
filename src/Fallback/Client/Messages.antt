-- ===== src/Fallback/Client/Messages.antt =====
-- The daemon's messages to the client, and the events of the client.
use bb_auth.Prelude.{
  ℕ, true, false, Option, none, some, String, List, [], ◌∷◌, ◌++◌, ◌&&◌, ◌||◌, not, length, is_nil,
  if◌then◌else◌, ◌==◌, string_eq,
}
use bb_auth.Json.{Object, value, has_key, to_string, to_bool}
use bb_auth.Ipc.Framing.{complete_lines}
use bb_auth.Fallback.Client.{
  FallbackClient, SocketState, Act, status_message, session_created, session_updated,
  session_closed, Step, ◌then_do◌, send_response, send_cancel, start, set_provider_active,
  clear_pending, on_connected, on_disconnected, on_error, on_reconnect_timeout,
  on_subscribe_watchdog, on_heartbeat,
}

pub data ClientEvent : Type 0 where
  started connected disconnected error_occurred : ClientEvent
  reconnect_timeout subscribe_watchdog heartbeat : ClientEvent
  ready_read : List ℕ → ClientEvent
  respond : String → String → ClientEvent
  cancel : String → ClientEvent

abbrev pub cleared : Step → Step
cleared (acts, c) = (acts, clear_pending c)

abbrev pub session_event : String → Object → List Act
session_event type msg =
    if type == "session.created"
    then session_created msg ∷ []
    else if type == "session.updated"
    then session_updated msg ∷ []
    else if type == "session.closed"
    then session_closed msg ∷ []
    else []

module _ (socket : SocketState) where
  unfoldable pub apply_pending_provider_state : FallbackClient → Step
  unfolding set_provider_active
  apply_pending_provider_state c =
      if not c.pending_provider_active_known || (not c.registered || c.provider_id == "")
      then ([], c)
      else cleared (
          set_provider_active socket
            (if c.pending_provider_active then c.pending_provider_id == c.provider_id else true) c)

  abbrev pub on_subscribed : Object → FallbackClient → Step
  on_subscribed msg c =
      let d = record c { subscribed = true } in
      if has_key "active" msg
      then set_provider_active socket (to_bool (value "active" msg)) d
      else ([], d)

  abbrev pub on_registered : Object → FallbackClient → Step
  on_registered msg c =
      let d = record c { registered = true; provider_id = to_string (value "id" msg) } in
      if has_key "active" msg
      then cleared (set_provider_active socket (to_bool (value "active" msg)) d)
      else apply_pending_provider_state d

  abbrev pub on_active : Object → FallbackClient → Step
  on_active msg c =
      let active = to_bool (value "active" msg) in
      let active_id = to_string (value "id" msg) in
      if active && (not c.registered || c.provider_id == "")
      then (
        [],
        record c {
          pending_provider_active_known = true;
          pending_provider_active = true;
          pending_provider_id = active_id;
        },
      )
      else if not active
      then (if not c.registered
          then (
            [],
            record c {
              pending_provider_active_known = true;
              pending_provider_active = false;
              pending_provider_id = "";
            },
          )
          else cleared (set_provider_active socket true c))
      else set_provider_active socket (active_id == c.provider_id) c

  abbrev pub on_error_message : Object → FallbackClient → Step
  on_error_message msg c =
      let text = to_string (value "message" msg) in
      let (acts, d) =
        if text == "Not active UI provider" then set_provider_active socket false c else ([], c) in
      (acts ++ (status_message text ∷ []), d)

  unfoldable pub handle_message : Object → FallbackClient → Step
  unfolding set_provider_active apply_pending_provider_state
  handle_message msg c =
      let type = to_string (value "type" msg) in
      if type == "subscribed"
      then on_subscribed msg c
      else if type == "ui.registered"
      then on_registered msg c
      else if type == "ui.active"
      then on_active msg c
      else if type == "pong"
      then ([], c)
      else if type == "ok"
      then ([], c)
      else if type == "error"
      then on_error_message msg c
      else if not c.provider_active && c.registered
      then ([], c)
      else (session_event type msg, c)

  -- `trimmed` is QByteArray::trimmed, `from_json` gives the object if a line is one.
  module _ (trimmed : List ℕ → List ℕ) (from_json : List ℕ → Option Object) where
    abbrev pub handle_json : Option Object → FallbackClient → Step
    handle_json none c = (status_message "Invalid daemon payload" ∷ [], c)
    handle_json (some msg) c = handle_message msg c

    abbrev pub handle_line : List ℕ → FallbackClient → Step
    handle_line raw c =
        let line = trimmed raw in if is_nil line then ([], c) else handle_json (from_json line) c

    unfoldable pub handle_lines : List (List ℕ) → FallbackClient → Step
    unfolding handle_message
    handle_lines [] c = ([], c)
    handle_lines (line ∷ lines) c = handle_line line c then_do handle_lines lines

    -- The rest of the buffer is taken out first: the handlers do not look at it.
    unfoldable pub on_ready_read : List ℕ → FallbackClient → Step
    unfolding handle_lines
    on_ready_read bytes c =
        let (lines, left) = complete_lines (length (c.buffer ++ bytes)) (c.buffer ++ bytes) in
        handle_lines lines (record c { buffer = left })

    -- What happens to the client, and the calls of the window.
    unfoldable pub handle : ClientEvent → FallbackClient → Step
    unfolding on_ready_read on_connected on_disconnected on_error on_reconnect_timeout
        on_subscribe_watchdog on_heartbeat
    handle started c = (start socket, c)
    handle connected c = on_connected socket c
    handle disconnected c = on_disconnected socket c
    handle (ready_read bytes) c = on_ready_read bytes c
    handle error_occurred c = on_error socket c
    handle reconnect_timeout c = on_reconnect_timeout socket c
    handle subscribe_watchdog c = on_subscribe_watchdog socket c
    handle heartbeat c = on_heartbeat socket c
    handle (respond id text) c = (send_response socket id text, c)
    handle (cancel id) c = (send_cancel socket id, c)
