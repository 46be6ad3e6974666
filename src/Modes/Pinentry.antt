-- ===== src/Modes/Pinentry.antt =====
-- src/modes/pinentry.cpp: the pinentry program that gpg-agent starts. It reads a command a line, asks
-- the daemon for the passphrase, and tells the daemon in the end how the flow came out.
pub mod Daemon
pub mod Commands
pub mod Protocol
pub mod Replies
pub mod Delivery
use bb_auth.Prelude.{
  ℕ, Bool, true, false, Option, none, some, String, List, [], ◌∷◌, if◌then◌else◌, ◌==◌, string_eq,
}
use bb_auth.Json.{Object}

pub record PinentryState : Type 0 where
  pub description : String
  pub prompt : String
  pub title : String
  pub error : String
  pub ok_text : String
  pub cancel_text : String
  pub not_ok_text : String
  pub keyinfo : String
  pub repeat : String
  pub confirm_mode : Bool

abbrev pub new_state : PinentryState
new_state = record {
  description = "";
  prompt = "";
  title = "";
  error = "";
  ok_text = "";
  cancel_text = "";
  not_ok_text = "";
  keyinfo = "";
  repeat = "";
  confirm_mode = false;
}

pub record PinentrySession : Type 0 where
  pub state : PinentryState
  pub flow_cookie : String
  pub awaiting_terminal_result : Bool

abbrev pub new_session : PinentrySession
new_session = record { state = new_state; flow_cookie = ""; awaiting_terminal_result = false }

-- What a command does outside: the lines of the Assuan protocol on stdout (`OK text`, `ERR code text`,
-- `D data`), a request to the daemon with its response, and a line on stderr.
pub data Effect : Type 0 where
  ok_line : String → Effect
  err_line : ℕ → String → Effect
  data_line : List ℕ → Effect
  exchange : Object → Option Object → Effect
  log_line : String → Effect

-- What a command finds: the UUID that it would draw, and the daemon's responses.
pub record Call : Type 0 where
  pub uuid : String
  pub send_request : Object → Option Object

unfoldable pub ensure_flow_cookie : Call → PinentrySession → PinentrySession
ensure_flow_cookie c s = if s.flow_cookie == "" then record s { flow_cookie = c.uuid } else s

abbrev pub clear_submit_state : PinentrySession → PinentrySession
clear_submit_state s = record s { awaiting_terminal_result = false }

abbrev pub reset_flow : PinentrySession → PinentrySession
reset_flow s = record s { awaiting_terminal_result = false; flow_cookie = "" }
