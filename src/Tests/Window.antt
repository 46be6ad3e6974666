-- ===== src/Tests/Window.antt =====
-- The window with a session, and two sessions in a row.
use bb_auth.Prelude.{◌≡◌, refl, true, false, [], ◌∷◌, All}
use bb_auth.Json.{Object, str, end, field, value, to_string}
use bb_auth.Fallback.Window.{Window, nothing, after_success}
use bb_auth.Fallback.Window.Events.{created, closed, submits, handle_event}
use bb_auth.Fallback.Window.Safety.{IsOwn, handle_event-IsOwn, late, late-dropped}
use bb_auth.Tests.Context.{texts}
use bb_auth.Tests.Prompt.{patterns}

abbrev window : Window
window = record {
  current_session_id = "c";
  current_source = "polkit";
  current_context = end;
  confirm_only = false;
  allow_empty_response = false;
  busy = false;
  pending_action = nothing;
  title = "";
  summary = "";
  requestor = "";
  details = "";
  prompt = "Password:";
  placeholder = "";
  submit_text = "";
  error_text = "";
  status_text = "";
  input = "1234";
  show_password = false;
  submit_enabled = true;
  cancel_enabled = true;
  input_enabled = true;
  visible = true;
  idle_exit_timer = false;
  action_timeout_timer = false;
}

handle_event-IsOwn_example :
    All (IsOwn window) (handle_event texts patterns (submits false) window).0
handle_event-IsOwn_example = handle_event-IsOwn texts patterns (submits false) window

abbrev success : Object
success = field "id" (str "c") (field "result" (str "success") end)

abbrev start : Object
start = field "id" (str "d") (field "source" (str "keyring") end)

late-dropped_example :
    ((handle_event texts patterns (closed success) window).0 ≡ after_success ∷ [])
    × ((handle_event texts patterns
          (created start)
          (handle_event texts patterns (closed success) window).1).1.current_session_id
        ≡ to_string (value "id" start))
    × ((late texts patterns success start window).current_session_id ≡ "")
    × ((late texts patterns success start window).visible ≡ false)
unfolding value
late-dropped_example = late-dropped texts patterns success start window refl refl refl refl
