-- ===== src/Fallback/Client.antt =====
-- src/fallback/FallbackClient.{hpp,cpp}: the connection of the fallback window to the daemon. It
-- registers as a provider, follows which provider is active, and connects again when it is cut off.
pub mod Messages
pub mod Bounds
pub mod Reachable
pub mod Backoff
pub mod Agreement
use bb_auth.Prelude.{
  ℕ, ◌*◌, Bool, true, false, Option, none, some, String, List, [], ◌∷◌, ◌++◌, ◌&&◌, ◌||◌, not, ltb,
  if◌then◌else◌, ◌==◌, string_eq,
}
use bb_auth.Prelude.Int.{pos}
use bb_auth.Json.{Object, str, int, end, field}

pub record FallbackClient : Type 0 where
  pub buffer : List ℕ
  pub reconnect_timer_active : Bool
  pub reconnect_delay_ms : ℕ
  pub subscribed : Bool
  pub registered : Bool
  pub provider_active : Bool
  pub provider_id : String
  pub pending_provider_active_known : Bool
  pub pending_provider_active : Bool
  pub pending_provider_id : String

abbrev pub new_client : FallbackClient
new_client = record {
  buffer = [];
  reconnect_timer_active = false;
  reconnect_delay_ms = 200;
  subscribed = false;
  registered = false;
  provider_active = false;
  provider_id = "";
  pending_provider_active_known = false;
  pending_provider_active = false;
  pending_provider_id = "";
}

-- QLocalSocket::state(), as far as it is asked for.
pub data SocketState : Type 0 where
  connected_state connecting_state other_state : SocketState

abbrev pub is_connected : SocketState → Bool
is_connected connected_state = true
is_connected _ = false

abbrev pub is_connecting : SocketState → Bool
is_connecting connecting_state = true
is_connecting _ = false

-- The signals, what is written to the socket, and the calls on the timer and the socket.
pub data Act : Type 0 where
  connection_state_changed provider_state_changed : Bool → Act
  status_message : String → Act
  session_created session_updated session_closed write : Object → Act
  start_reconnect_timer : ℕ → Act
  connect_to_server start_timers : Act

abbrev pub Step : Type 0
Step = List Act × FallbackClient

-- One call after the other.
infixl 20 ◌then_do◌
abbrev pub ◌then_do◌ : Step → (FallbackClient → Step) → Step
(acts, c) then_do f = let (more, d) = f c in (acts ++ more, d)

abbrev pub registration : Object
registration = field "type" (str "ui.register") (
    field "name" (str "bb-auth-fallback")
      (field "kind" (str "fallback") (field "priority" (int (pos 10)) end)))

abbrev pub clear_pending : FallbackClient → FallbackClient
clear_pending c = record c {
  pending_provider_active_known = false;
  pending_provider_active = false;
  pending_provider_id = "";
}

abbrev pub next_delay : ℕ → ℕ
next_delay ms = if ltb (ms * 2) 4000 then ms * 2 else 4000

unfoldable pub reconnect_later : FallbackClient → Step
reconnect_later c =
    if not c.reconnect_timer_active
    then (
      start_reconnect_timer c.reconnect_delay_ms ∷ [],
      record c {
        reconnect_timer_active = true;
        reconnect_delay_ms = next_delay c.reconnect_delay_ms;
      },
    )
    else ([], c)

module _ (socket : SocketState) where
  abbrev pub send_json : Object → List Act
  send_json o = if not (is_connected socket) then [] else write o ∷ []

  unfoldable pub send_response : String → String → List Act
  send_response id response = send_json (
      field "type" (str "session.respond")
        (field "id" (str id) (field "response" (str response) end)))

  unfoldable pub send_cancel : String → List Act
  send_cancel id = send_json (field "type" (str "session.cancel") (field "id" (str id) end))

  unfoldable pub ensure_connected : List Act
  ensure_connected =
      if is_connected socket || is_connecting socket then [] else connect_to_server ∷ []

  unfoldable pub start : List Act
  unfolding ensure_connected
  start = start_timers ∷ ensure_connected

  abbrev pub register_provider : List Act
  register_provider = send_json registration

  abbrev pub subscribe : List Act
  subscribe = send_json (field "type" (str "subscribe") end)

  unfoldable pub set_provider_active : Bool → FallbackClient → Step
  set_provider_active active c =
      if (if active then c.provider_active else not c.provider_active) then ([], c) else (
        provider_state_changed active
            ∷ (if active && (is_connected socket && c.registered) then subscribe else []),
        record c { provider_active = active },
      )

  -- What the handlers of `connected` and `disconnected` begin with.
  abbrev pub forget : FallbackClient → Step
  forget c =
      set_provider_active false
        (clear_pending (record c { subscribed = false; registered = false; provider_id = "" }))

  unfoldable pub on_connected : FallbackClient → Step
  unfolding set_provider_active
  on_connected c =
      let (acts, d) = forget (record c { reconnect_delay_ms = 200 }) in
      (
        acts
            ++ (connection_state_changed true
                ∷ status_message "Connected to auth daemon"
                ∷ (register_provider ++ subscribe)),
        d,
      )

  unfoldable pub on_disconnected : FallbackClient → Step
  unfolding set_provider_active reconnect_later
  on_disconnected c =
      let (acts, d) = forget c in
      let (later, e) = reconnect_later d in
      (
        acts
            ++ (connection_state_changed false
                ∷ status_message "Disconnected from auth daemon, reconnecting..."
                ∷ later),
        e,
      )

  unfoldable pub on_error : FallbackClient → Step
  unfolding reconnect_later
  on_error c = if not (is_connected socket) then reconnect_later c else ([], c)

  -- The timers: the one to reconnect (a single shot), and the two that repeat.
  unfoldable pub on_reconnect_timeout : FallbackClient → Step
  unfolding ensure_connected
  on_reconnect_timeout c = (ensure_connected, record c { reconnect_timer_active = false })

  unfoldable pub on_subscribe_watchdog : FallbackClient → Step
  on_subscribe_watchdog c = if not (is_connected socket) then ([], c) else (
    (if not c.registered then register_provider else [])
        ++ (if not c.subscribed then subscribe else []),
    c,
  )

  unfoldable pub on_heartbeat : FallbackClient → Step
  on_heartbeat c =
      if not (is_connected socket) || not c.registered
      then ([], c)
      else (send_json (field "type" (str "ui.heartbeat") (field "id" (str c.provider_id) end)), c)
