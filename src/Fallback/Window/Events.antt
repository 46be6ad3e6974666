-- ===== src/Fallback/Window/Events.antt =====
-- The daemon's events of a session.
use bb_auth.Prelude.{
  Bool, true, false, String, [], ◌∷◌, ◌&&◌, ◌||◌, not, if◌then◌else◌, ◌==◌, string_eq,
}
use bb_auth.Prelude.Int.{pos, ltb_ℤ}
use bb_auth.Json.{
  Object, str, obj, end, field, value, has_key, to_string, to_bool, to_int, to_object,
  is_empty_object,
}
use bb_auth.Qt.{Texts, ◌<>◌}
use bb_auth.Session.{put_text}
use bb_auth.Fallback.Prompt.{Patterns}
use bb_auth.Fallback.Prompt.Text.{normalize_detail_text}
use bb_auth.Fallback.Prompt.Build.{PromptDisplayModel}
use bb_auth.Fallback.Prompt.Build.Model.{build}
use bb_auth.Fallback.Window.{
  Window, after_success, after_failure, Change, set_busy, clear_pending_action, clear_session, hide,
  handle_cancel_request, close_event, on_submit, on_action_timeout, on_connection_state,
  on_provider_state, on_status_message,
}

abbrev pub placeholder_of : PromptDisplayModel → String
placeholder_of m =
    if m.allow_empty_response
    then "Press Enter to continue (optional)"
    else if m.passphrase_prompt
    then "Enter passphrase"
    else "Enter password"

abbrev pub submit_text_of : PromptDisplayModel → String
submit_text_of m = if m.allow_empty_response then "Continue" else "Authenticate"

module _ (t : Texts) (r : Patterns) where
  -- The window with the model of a new session.
  abbrev pub shown : Object → PromptDisplayModel → Window → Window
  shown event m w =
      let context = to_object (value "context" event) in
      let confirm_only = to_bool (value "confirmOnly" context) in
      set_busy false (record (clear_pending_action w) {
        current_session_id = to_string (value "id" event);
        current_source = to_string (value "source" event);
        current_context = context;
        confirm_only = confirm_only;
        allow_empty_response = m.allow_empty_response;
        title = m.title;
        summary = m.summary;
        requestor = m.requestor;
        details = normalize_detail_text t m.details;
        prompt = m.prompt;
        placeholder = if confirm_only then "" else placeholder_of m;
        submit_text = if confirm_only then "Confirm" else submit_text_of m;
        error_text = "";
        status_text = "";
        input = "";
        show_password = false;
        visible = true;
        idle_exit_timer = false;
      })

  unfoldable pub on_session_created : Object → Window → Window
  unfolding build normalize_detail_text
  on_session_created event w =
      if to_string (value "id" event) == "" then w else shown event (build t r event) w

  abbrev pub is_other : Object → Window → Bool
  is_other event w =
      let id = to_string (value "id" event) in id == "" || not (id == w.current_session_id)

  abbrev pub merged : Object → Window → Object
  merged event w =
      let source =
        if w.current_source == "" then to_string (value "source" event) else w.current_source in
      let context =
        if is_empty_object w.current_context
        then to_object (value "context" event)
        else w.current_context in
      put_text "info" (t.trimmed (to_string (value "info" event))) (
        put_text "prompt" (to_string (value "prompt" event))
          (field "source" (str source) (field "context" (obj context) end)))

  abbrev pub retry_status : Object → Window → String
  retry_status event w =
      let cur = to_int (value "curRetry" event) in
      let max = to_int (value "maxRetries" event) in
      if w.current_source == "pinentry" && (ltb_ℤ (pos 0) cur && ltb_ℤ (pos 0) max)
      then "Attempt " <> (t.number cur <> (" of " <> t.number max))
      else ""

  -- The prompt of an update, unless the session only asks for a confirmation.
  abbrev pub reprompted : PromptDisplayModel → Window → Window
  reprompted m w =
      if not w.confirm_only
      then record w {
        allow_empty_response = m.allow_empty_response;
        prompt = m.prompt;
        placeholder = placeholder_of m;
        submit_text = submit_text_of m;
      }
      else w

  abbrev pub refreshed : Object → PromptDisplayModel → Window → Window
  refreshed event m w =
      let error = to_string (value "error" event) in
      let info = t.trimmed (to_string (value "info" event)) in
      let v = reprompted m (record (clear_pending_action w) { title = m.title }) in
      set_busy false (record v {
        show_password =
            if has_key "echo" event then to_bool (value "echo" event) else v.show_password;
        error_text = error;
        submit_text = if not (error == "") && not v.confirm_only then "Retry" else v.submit_text;
        status_text = if not (info == "") then info else retry_status event v;
      })

  unfoldable pub on_session_updated : Object → Window → Window
  unfolding build
  on_session_updated event w =
      if is_other event w then w else refreshed event (build t r (merged event w)) w

  unfoldable pub on_session_closed : Object → Window → Change
  unfolding clear_session
  on_session_closed event w =
      let result = to_string (value "result" event) in
      let error = to_string (value "error" event) in
      let v = clear_pending_action w in
      if is_other event w
      then ([], w)
      else if result == "success"
      then (
        after_success ∷ [],
        record v { error_text = ""; status_text = "Authentication successful." },
      )
      else if result == "cancelled" || result == "canceled"
      then ([], hide (clear_session v))
      else (
        after_failure (to_string (value "id" event)) ∷ [],
        set_busy false (record v {
          error_text = if not (error == "") then error else "Authentication failed.";
          status_text = "Request ended.";
        }),
      )

-- The single shots of 300 ms and of 1.2 s.
unfoldable pub on_success_delay : Window → Window
unfolding clear_session
on_success_delay w = hide (clear_session w)

unfoldable pub on_failure_delay : String → Window → Window
unfolding clear_session
on_failure_delay id w = if w.current_session_id == id then hide (clear_session w) else w

pub data WindowEvent : Type 0 where
  created updated closed : Object → WindowEvent
  connection_changed provider_changed : Bool → WindowEvent
  status_changed : String → WindowEvent
  submits cancels : Bool → WindowEvent
  closes times_out success_delay : WindowEvent
  failure_delay : String → WindowEvent

unfoldable pub handle_event : Texts → Patterns → WindowEvent → Window → Change
unfolding on_session_created on_session_updated on_session_closed on_success_delay on_failure_delay
handle_event t r (created event) w = ([], on_session_created t r event w)
handle_event t r (updated event) w = ([], on_session_updated t r event w)
handle_event t r (closed event) w = on_session_closed t r event w
handle_event t r (connection_changed b) w = ([], on_connection_state b w)
handle_event t r (provider_changed b) w = ([], on_provider_state b w)
handle_event t r (status_changed text) w = ([], on_status_message text w)
handle_event t r (submits passphrase) w = on_submit passphrase w
handle_event t r (cancels connected) w = handle_cancel_request connected w
handle_event t r closes w = close_event w
handle_event t r times_out w = ([], on_action_timeout w)
handle_event t r success_delay w = ([], on_success_delay w)
handle_event t r (failure_delay id) w = ([], on_failure_delay id w)
