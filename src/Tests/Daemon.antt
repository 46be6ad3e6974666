-- ===== src/Tests/Daemon.antt =====
-- The daemon as a whole: its reachable states, routing, and the pinentry flows.
use bb_auth.Prelude.{false, ◌≡◌, ◌↔◌, ◌⊎◌, refl, true, [], ◌∷◌, some, string_eq}
use bb_auth.Prelude.Int.{pos}
use bb_auth.Prelude.Hash.{find}
use bb_auth.Json.{end, value}
use bb_auth.EventQueue.{EventQueue}
use bb_auth.Registry.{is_authorized}
use bb_auth.Session.{cancelled}
use bb_auth.Agent.State.{SessionState, Agent, send}
use bb_auth.SessionStore.{get_session}
use bb_auth.Agent.Keyring
use bb_auth.Agent.Keyring.{error_reply}
use bb_auth.Agent.Keyring.RoundTrip.{
  IsAnswered, handle_request-IsAnswered, handle_request-collision,
}
use bb_auth.Agent.Messages.{handle_message}
use bb_auth.Agent.Polkit.{finish_auth}
use bb_auth.Agent.Polkit.Attempts.{Outcome, finish_auth-Outcome}
use bb_auth.Agent.Pinentry.{
  read_request, validate_result_owner, handle_request, handle_result, close_flow,
}
use bb_auth.Agent.Pinentry.Closing.{IsOver, close_flow-IsOver}
use bb_auth.Agent.Pinentry.RoundTrip.{IsServed, handle_request-IsServed}
use bb_auth.Agent.Pinentry.Ownership.{handle_request-owned}
use bb_auth.Agent.Respond.Authority.{handle_message-unauthorized}
use bb_auth.Agent.Sound.{IsSound}
use bb_auth.Agent.Loop.{message, handle, new_agent, IsReachable, starts, handles}
use bb_auth.Agent.Loop.Invariant.{reachable-IsSound, reachable-authorized_iff}
use bb_auth.Tests.Fixtures.{
  registry, world, register_json, request_json, result_json, keyring_json, polkit_session,
}

-- A provider registers on socket 1, then a flow is opened from socket 2.
abbrev registered : Agent
registered = handle (world 20000) end (message 1 "ui.register" register_json) new_agent

abbrev asked : Agent
asked = handle (world 21000) end (message 2 "pinentry_request" request_json) registered

asked-IsReachable : IsReachable asked
asked-IsReachable =
    handles (world 21000) end (message 2 "pinentry_request" request_json)
      (handles (world 20000) end (message 1 "ui.register" register_json) starts)

reachable-IsSound_example : IsSound asked
reachable-IsSound_example = reachable-IsSound asked asked-IsReachable

reachable-authorized_iff_example :
    (is_authorized asked.registry 1 ≡ true)
    ↔ ((asked.registry.ui_providers ≡ []) ⊎ (asked.registry.active_provider ≡ some 1))
reachable-authorized_iff_example = reachable-authorized_iff asked 1 asked-IsReachable

abbrev queue : EventQueue
queue = record { max_size = 4; event_queue = []; next_waiters = 7 ∷ [] }

abbrev elsewhere : Agent
elsewhere = record new_agent { registry = registry }

handle_message-unauthorized_example :
    let refused = send (world 20000) elsewhere 4 (error_reply "Not active UI provider") in
    (handle_message (world 20000) end elsewhere 4 "session.respond" result_json ≡ refused)
    × (handle_message (world 20000) end elsewhere 4 "session.cancel" result_json ≡ refused)
unfolding is_authorized find
handle_message-unauthorized_example =
    handle_message-unauthorized (world 20000) end elsewhere 4 result_json refl

close_flow-IsOver_example :
    IsOver (world 22000) asked (close_flow (world 22000) asked "c" cancelled "") "c"
close_flow-IsOver_example = close_flow-IsOver (world 22000) asked "c" cancelled ""

handle_request-owned_example :
    let b = handle_request (world 20000) new_agent request_json 2 (pos 20) in
    (find "c" b.pinentry.flow_owners ≡ some (pos 20))
    × (handle_request (world 21000) b request_json 1 (pos 10) ≡ b)
    × ((handle_result (world 21000) b result_json (pos 10)).1 ≡ b)
unfolding validate_result_owner read_request value find
handle_request-owned_example =
    handle_request-owned (world 20000) (world 21000) new_agent request_json request_json result_json
      2 1 (pos 20) (pos 10) "c" refl refl refl refl refl

handle_request-IsAnswered_example :
    IsAnswered
      (world 21000)
      (Keyring.handle_request (world 20000) new_agent keyring_json 1 (pos 10))
      1
      "c"
      "secret"
unfolding Keyring.read_request value get_session find
handle_request-IsAnswered_example =
    handle_request-IsAnswered (world 20000) (world 21000) new_agent keyring_json 1 (pos 10) "c"
      "secret" refl refl

-- A session with the cookie "c", whose keyring request may be pending.
abbrev waiting : Agent
waiting = record new_agent { sessions = ("c", polkit_session) ∷ [] }

handle_request-collision_example :
    (Keyring.has_pending_request
        (Keyring.handle_request (world 20000) waiting keyring_json 1 (pos 10))
        "c"
      ≡ false)
    × ((Keyring.handle_request (world 20000) waiting keyring_json 1 (pos 10)).sessions
        ≡ waiting.sessions)
unfolding Keyring.read_request value get_session find
handle_request-collision_example =
    handle_request-collision (world 20000) waiting keyring_json 1 (pos 10) "c" refl refl

handle_request-IsServed_example :
    IsServed
      (world 21000)
      (handle_request (world 20000) waiting request_json 2 (pos 20))
      (read_request (world 20000) request_json 2 (pos 20))
      "1234"
unfolding validate_result_owner read_request value find
handle_request-IsServed_example =
    handle_request-IsServed (world 20000) (world 21000) waiting request_json 2 (pos 20) "1234" refl

abbrev failed_twice : SessionState
failed_twice = record {
  in_progress = true;
  was_cancelled = false;
  gained_auth = false;
  cookie = "c";
  prompt = "";
  error_text = "";
  echo_on = false;
  request_sent = true;
  async_result = 5;
  selected_user = "me";
  session = some 0;
  retry_count = 2;
}

finish_auth-Outcome_example :
    Outcome true waiting failed_twice (finish_auth (world 20000) waiting failed_twice)
finish_auth-Outcome_example = finish_auth-Outcome (world 20000) waiting failed_twice refl
