-- ===== src/Ipc/Server.antt =====
-- src/core/ipc/IpcServer.cpp: the clients' buffers, and what becomes of their lines. The handlers that
-- CAgent connects to the server act on the agent.
pub mod Invariant
use bb_auth.Prelude.{
  ℕ, Bool, true, false, Option, none, some, String, List, [], ◌∷◌, ◌++◌, is_nil, if◌then◌else◌,
  ◌==◌, string_eq, nat_eq,
}
use bb_auth.Prelude.Hash.{Hash, find, insert, remove}
use bb_auth.Json.{Object, value, to_string}
use bb_auth.Agent.State.{Agent, World, send}
use bb_auth.Agent.Keyring.{error_reply}
use bb_auth.Agent.Handlers.{on_client_disconnected}
use bb_auth.Agent.Messages.{handle_message}
use bb_auth.Agent.Loop.{LoopEvent, handle, new_agent}
use bb_auth.Ipc.Framing.{on_ready_read}

-- The buffers, the sockets on which disconnectFromServer has been called, and the agent.
pub record Server : Type 0 where
  pub buffers : Hash ℕ (List ℕ)
  pub disconnects : List ℕ
  pub agent : Agent

abbrev pub new_server : Server
new_server = record { buffers = []; disconnects = []; agent = new_agent }

abbrev pub or_empty : Option (List ℕ) → List ℕ
or_empty none = []
or_empty (some b) = b

unfoldable pub on_new_connection : Server → ℕ → Server
on_new_connection s socket = record s { buffers = insert socket [] s.buffers }

unfoldable pub on_disconnected : World → Server → ℕ → Server
on_disconnected w s socket = record s {
  buffers = remove socket s.buffers;
  agent = on_client_disconnected w s.agent socket;
}

-- `boot` is what readBootstrapState reads, should a message be a ping.
module _ (w : World) (boot : Object) where
  unfoldable pub handle_object : Agent → ℕ → Option Object → Agent
  unfolding handle_message
  handle_object a socket none = send w a socket (error_reply "Invalid JSON")
  handle_object a socket (some msg) =
      let type = to_string (value "type" msg) in
      if type == ""
      then send w a socket (error_reply "Missing type field")
      else handle_message w boot a socket type msg

  -- `trimmed` is QByteArray::trimmed, `from_json` gives the object if a line is one.
  module _ (trimmed : List ℕ → List ℕ) (from_json : List ℕ → Option Object) where
    unfoldable pub handle_line : Agent → ℕ → List ℕ → Agent
    unfolding handle_object
    handle_line a socket line = handle_object a socket (from_json line)

    abbrev pub handle_nonempty : Agent → ℕ → List ℕ → Agent
    handle_nonempty a socket line = if is_nil line then a else handle_line a socket line

    unfoldable pub handle_lines : Agent → ℕ → List (List ℕ) → Agent
    unfolding handle_line
    handle_lines a socket [] = a
    handle_lines a socket (raw ∷ lines) =
        handle_lines (handle_nonempty a socket (trimmed raw)) socket lines

    -- The buffer is set before the lines are handled: the handlers do not look at it.
    unfoldable pub receive : Server → ℕ → List ℕ → Server
    unfolding handle_lines
    receive s socket bytes =
        let (too_long, lines, left) = on_ready_read (or_empty (find socket s.buffers)) bytes in
        let t = record s { buffers = insert socket left s.buffers } in
        if too_long
        then record t { disconnects = s.disconnects ++ (socket ∷ []) }
        else record t { agent = handle_lines s.agent socket lines }

pub data ServerEvent : Type 0 where
  connects leaves : ℕ → ServerEvent
  sends : ℕ → List ℕ → ServerEvent
  other : LoopEvent → ServerEvent

-- What happens to the server, and to the agent beside it.
unfoldable pub serve :
    (List ℕ → List ℕ) → (List ℕ → Option Object) → World → Object → ServerEvent → Server → Server
unfolding receive on_new_connection on_disconnected
serve trimmed from_json w boot (connects socket) s = on_new_connection s socket
serve trimmed from_json w boot (leaves socket) s = on_disconnected w s socket
serve trimmed from_json w boot (sends socket bytes) s =
    receive w boot trimmed from_json s socket bytes
serve trimmed from_json w boot (other e) s = record s { agent = handle w boot e s.agent }
