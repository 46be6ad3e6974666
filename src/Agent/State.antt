-- ===== src/Agent/State.antt =====
-- The state of `CAgent` and of its parts, and what a handler asks of the outside. A handler runs to
-- its end in the event loop, so one `World` describes the sockets and the clock for a whole call.
use bb_auth.Prelude.{ℕ, Bool, String, List, [], ◌∷◌, ◌++◌, Option, if◌then◌else◌, ◌==◌, string_eq}
use bb_auth.Prelude.Int.{ℤ}
use bb_auth.Prelude.Hash.{Hash}
use bb_auth.Json.{Object}
use bb_auth.EventQueue.{EventQueue}
use bb_auth.Registry.{Registry}
use bb_auth.Session.{Requestor}
use bb_auth.SessionStore.{Sessions}
use bb_auth.Providers.Host.{Host}
use bb_auth.Providers.Launcher.{Retries}

-- src/core/managers/RequestTypes.hpp
pub record KeyringRequest : Type 0 where
  pub cookie : String
  pub socket : ℕ
  pub peer_pid : ℤ
  pub title : String
  pub message : String
  pub choice : String
  pub flags : ℤ

pub record PinentryRequest : Type 0 where
  pub cookie : String
  pub socket : ℕ
  pub peer_pid : ℤ
  pub prompt : String
  pub description : String
  pub error : String
  pub keyinfo : String
  pub repeat : Bool
  pub confirm_only : Bool

pub record PinentryRetryInfo : Type 0 where
  pub keyinfo : String
  pub cur_retry : ℤ
  pub max_retries : ℤ

-- The members of PinentryManager. A flow that awaits its outcome has a timer that is running.
pub record Pinentry : Type 0 where
  pub pending_requests : Hash String PinentryRequest
  pub awaiting_outcome : Hash String PinentryRequest
  pub retry_info : Hash String PinentryRetryInfo
  pub flow_owners : Hash String ℤ
  pub flow_keyinfos : Hash String String
  pub retry_reported : Hash String (Unit {0})

-- PolkitListener.hpp's SessionState. PolkitQt1's sessions and results are numbers; of the details,
-- the identity and the texts only what is read again is kept.
pub record SessionState : Type 0 where
  pub in_progress : Bool
  pub was_cancelled : Bool
  pub gained_auth : Bool
  pub cookie : String
  pub prompt : String
  pub error_text : String
  pub echo_on : Bool
  pub request_sent : Bool
  pub async_result : ℕ
  pub selected_user : String
  pub session : Option ℕ
  pub retry_count : ℕ

-- The calls that the listener makes on PolkitQt1's objects.
pub data PolkitCall : Type 0 where
  initiates cancels : ℕ → PolkitCall
  responds : ℕ → String → PolkitCall
  fails : ℕ → String → PolkitCall
  completes : ℕ → PolkitCall

pub record Listener : Type 0 where
  pub cookie_to_state : Hash String SessionState
  -- the state that a session belongs to, by its cookie
  pub session_to_state : Hash ℕ String
  pub next_session : ℕ
  pub calls : List PolkitCall

pub record Agent : Type 0 where
  pub registry : Registry
  pub queue : EventQueue
  pub sessions : Sessions
  pub subscribers : List ℕ
  pub keyring : Hash String KeyringRequest
  pub pinentry : Pinentry
  pub listener : Listener
  pub retries : Retries
  pub last_fallback_launch_ms : ℕ
  -- what was written to the sockets, oldest first
  pub sent : List (ℕ × Object)

pub record World : Type 0 where
  -- QLocalSocket: state() is ConnectedState, isValid(), isOpen(); IpcServer::getPeerPid
  pub connected : ℕ → Bool
  pub valid : ℕ → Bool
  pub is_open : ℕ → Bool
  pub peer_pid : ℕ → ℤ
  -- what QUuid::createUuid returns
  pub uuid : String
  -- RequestContextHelper's actor of a process, empty texts if the process cannot be read
  pub resolve_actor : ℤ → Requestor
  -- the first two captures of PinentryManager's retry pattern in a description
  pub match_retries : String → Option (ℤ × ℤ)
  -- QString::toLower
  pub to_lower : String → String
  -- the lock of the fallback UI can be taken
  pub lock_free : Bool
  pub search_dirs : List String
  pub socket_path : String
  pub legacy_override : String
  pub legacy_default_path : String
  -- the clock, the file system and the processes
  pub host : Host

abbrev pub text_or : String → String → String
text_or text other = if text == "" then other else text

-- IpcServer::sendJson
abbrev pub send : World → Agent → ℕ → Object → Agent
send w a socket json =
    if w.connected socket then record a { sent = a.sent ++ (socket, json) ∷ [] } else a

unfoldable pub send_all : World → Agent → List (ℕ × Object) → Agent
send_all w a [] = a
send_all w a ((socket, json) ∷ sends) = send_all w (send w a socket json) sends
