-- ===== src/Agent/Loop.antt =====
-- The event loop of the daemon: the events that CAgent's constructor and `start` connect to handlers
-- (Agent.cpp:84-156), those of the polkit listener, and the timers of PinentryManager. Every event has
-- a world of its own: time passes and sockets come and go between events.
pub mod Invariant
use bb_auth.Prelude.{ℕ, Bool, String, [], none}
use bb_auth.Json.{Object}
use bb_auth.EventQueue
use bb_auth.Agent.State.{Agent, World}
use bb_auth.Agent.Pinentry.{on_timeout}
use bb_auth.Agent.Polkit.{
  PolkitRequest, initiate_authentication, on_request, on_completed, on_error, on_info,
  cancel_authentication,
}
use bb_auth.Agent.Handlers.{on_client_disconnected}
use bb_auth.Agent.Messages.{handle_message, prune_stale_providers}

pub data LoopEvent : Type 0 where
  message : ℕ → String → Object → LoopEvent
  disconnected : ℕ → LoopEvent
  maintenance : LoopEvent
  timed_out : String → LoopEvent
  polkit_initiates : PolkitRequest → LoopEvent
  polkit_cancels : LoopEvent
  session_requests : ℕ → String → Bool → LoopEvent
  session_completes : ℕ → Bool → LoopEvent
  session_fails session_informs : ℕ → String → LoopEvent

-- `boot` is what readBootstrapState reads, should the message be a ping.
unfoldable pub handle : World → Object → LoopEvent → Agent → Agent
handle w boot (message socket type msg) a = handle_message w boot a socket type msg
handle w boot (disconnected socket) a = on_client_disconnected w a socket
handle w boot maintenance a = prune_stale_providers w boot a
handle w boot (timed_out cookie) a = on_timeout w a cookie
handle w boot (polkit_initiates q) a = initiate_authentication w a q
handle w boot polkit_cancels a = cancel_authentication w a
handle w boot (session_requests n request echo) a = on_request w a n request echo
handle w boot (session_completes n gained) a = on_completed w a n gained
handle w boot (session_fails n text) a = on_error w a n text
handle w boot (session_informs n text) a = on_info w a n text

-- The agent that starts.
abbrev pub new_agent : Agent
new_agent = record {
  registry = record { ui_providers = []; active_provider = none };
  queue = record { max_size = 256; event_queue = []; next_waiters = [] };
  sessions = [];
  subscribers = [];
  keyring = [];
  pinentry = record {
    pending_requests = [];
    awaiting_outcome = [];
    retry_info = [];
    flow_owners = [];
    flow_keyinfos = [];
    retry_reported = [];
  };
  listener = record { cookie_to_state = []; session_to_state = []; next_session = 0; calls = [] };
  retries = [];
  last_fallback_launch_ms = 0;
  sent = [];
}

-- The agents that some sequence of events leads to, in any order and any number.
pub data IsReachable : Agent → Type 0 where
  starts : IsReachable new_agent
  handles :
      (w : World) (boot : Object) (e : LoopEvent) {a : Agent}
      → IsReachable a
      → IsReachable (handle w boot e a)
