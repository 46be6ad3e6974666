-- ===== src/Fallback/Window.antt =====
-- src/fallback/FallbackWindow.cpp: the session that the window shows, and what the user may do with
-- it. Sizes, colours and the folding of the details are left out.
pub mod Events
pub mod Safety
use bb_auth.Prelude.{
  ℕ, Bool, true, false, Option, String, List, [], ◌∷◌, ◌&&◌, ◌||◌, not, if◌then◌else◌, ◌==◌,
  string_eq,
}
use bb_auth.Json.{Object, end, is_empty_object}
use bb_auth.Fallback.Client.Messages.{ClientEvent}

pub data PendingAction : Type 0 where
  nothing submit_action cancel_action : PendingAction

abbrev pub is_cancel : PendingAction → Bool
is_cancel cancel_action = true
is_cancel _ = false

abbrev pub is_nothing : PendingAction → Bool
is_nothing nothing = true
is_nothing _ = false

-- The members, the texts of the widgets and whether they are enabled, and the two timers.
pub record Window : Type 0 where
  pub current_session_id : String
  pub current_source : String
  pub current_context : Object
  pub confirm_only : Bool
  pub allow_empty_response : Bool
  pub busy : Bool
  pub pending_action : PendingAction
  pub title : String
  pub summary : String
  pub requestor : String
  pub details : String
  pub prompt : String
  pub placeholder : String
  pub submit_text : String
  pub error_text : String
  pub status_text : String
  pub input : String
  pub show_password : Bool
  pub submit_enabled : Bool
  pub cancel_enabled : Bool
  pub input_enabled : Bool
  pub visible : Bool
  pub idle_exit_timer : Bool
  pub action_timeout_timer : Bool

-- The calls of the client, and what is done later: 300 ms after a success, and 1.2 s after a failure
-- of the session with the id.
pub data WindowAct : Type 0 where
  call : ClientEvent → WindowAct
  after_success : WindowAct
  after_failure : String → WindowAct

abbrev pub Change : Type 0
Change = List WindowAct × Window

abbrev pub set_busy : Bool → Window → Window
set_busy busy w = record w {
  busy = busy;
  submit_enabled = not busy;
  cancel_enabled = not (w.current_session_id == "") && not (busy && is_cancel w.pending_action);
  input_enabled = not busy;
}

abbrev pub start_pending_action : PendingAction → Window → Window
start_pending_action action w = record w { pending_action = action; action_timeout_timer = true }

abbrev pub clear_pending_action : Window → Window
clear_pending_action w = record w { pending_action = nothing; action_timeout_timer = false }

unfoldable pub clear_session : Window → Window
clear_session w = set_busy false (record w {
  pending_action = nothing;
  action_timeout_timer = false;
  current_session_id = "";
  current_source = "";
  current_context = end;
  confirm_only = false;
  allow_empty_response = false;
  title = "Authentication Required";
  summary = "";
  requestor = "";
  details = "";
  error_text = "";
  status_text = "";
  input = "";
})

abbrev pub start_idle_exit_timer : Window → Window
start_idle_exit_timer w =
    if w.current_session_id == "" && not w.visible then record w { idle_exit_timer = true } else w

-- `hide(); startIdleExitTimer();`
abbrev pub hide : Window → Window
hide w = start_idle_exit_timer (record w { visible = false })

unfoldable pub handle_cancel_request : Bool → Window → Change
unfolding clear_session
handle_cancel_request connected w =
    if w.current_session_id == ""
    then ([], hide w)
    else if w.busy && is_cancel w.pending_action
    then ([], w)
    else if w.busy && not connected
    then ([], hide (clear_session w))
    else (
      call (ClientEvent.cancel w.current_session_id) ∷ [],
      set_busy true (
          start_pending_action cancel_action
            (record w { error_text = ""; status_text = "Cancelling..." })),
    )

-- An accepted close event hides the window.
unfoldable pub close_event : Window → Change
unfolding clear_session
close_event w =
    if not (w.current_session_id == "")
    then (
      call (ClientEvent.cancel w.current_session_id) ∷ [],
      record (clear_session w) { visible = false },
    )
    else ([], record w { visible = false })

abbrev pub response_of : Window → String
response_of w = if w.confirm_only then "confirm" else w.input

-- A click of the submit button; `passphrase` tells whether the prompt has the word.
unfoldable pub on_submit : Bool → Window → Change
on_submit passphrase w =
    if w.current_session_id == ""
    then ([], w)
    else if not w.confirm_only && (not w.allow_empty_response && w.input == "")
    then (
      [],
      record w {
        error_text =
            if passphrase then "Please enter your passphrase." else "Please enter your password.";
      },
    )
    else (
      call (ClientEvent.respond w.current_session_id (response_of w)) ∷ [],
      set_busy true (
          start_pending_action submit_action (record w {
            error_text = "";
            status_text = "Verifying...";
            input = if not w.confirm_only then "" else w.input;
          })),
    )

unfoldable pub on_action_timeout : Window → Window
on_action_timeout w =
    if w.current_session_id == "" || is_nothing w.pending_action
    then record w { action_timeout_timer = false }
    else record (set_busy false (clear_pending_action w)) {
      status_text = "";
      error_text =
          if is_cancel w.pending_action
          then "Cancel request timed out. Try again."
          else "Authentication request timed out. Review details and retry.";
      submit_text =
          if not (is_cancel w.pending_action) && not w.confirm_only then "Retry" else w.submit_text;
    }

unfoldable pub on_connection_state : Bool → Window → Window
on_connection_state connected w =
    if connected
    then (if not (w.current_session_id == "") then record w { status_text = "Connected" } else w)
    else set_busy true (record w { status_text = "Disconnected from daemon, reconnecting..." })

unfoldable pub on_status_message : String → Window → Window
on_status_message text w = record w { status_text = text }

unfoldable pub on_provider_state : Bool → Window → Window
unfolding clear_session
on_provider_state active w =
    if active
    then (if not (w.current_session_id == "")
        then set_busy false (record w { status_text = "" })
        else record w { status_text = "" })
    else hide (if not (w.current_session_id == "") then clear_session w else w)
