-- ===== src/Modes/Pinentry/Daemon.antt =====
-- The requests to the daemon.
use bb_auth.Prelude.{
  Bool, true, false, Option, none, some, String, List, [], ◌∷◌, ◌&&◌, not, if◌then◌else◌, ◌==◌,
  string_eq,
}
use bb_auth.Json.{Object, str, bool, end, put, value, to_string}
use bb_auth.Qt.{◌<>◌}
use bb_auth.Session.{put_text}
use bb_auth.Modes.Pinentry.{
  PinentrySession, Effect, exchange, log_line, Call, ensure_flow_cookie, clear_submit_state,
  reset_flow,
}

unfoldable pub result_request : String → String → String → Object
result_request cookie result error =
    put_text "error" error
      (put "result" (str result) (put "id" (str cookie) (put "type" (str "pinentry_result") end)))

abbrev pub is_failure : Option Object → Bool
is_failure none = true
is_failure (some r) = to_string (value "type" r) == "error"

unfoldable pub report_terminal_result :
    Call → String → String → PinentrySession → List Effect × PinentrySession
report_terminal_result c result error s =
    let request = result_request s.flow_cookie result error in
    let response = c.send_request request in
    if s.flow_cookie == "" then ([], s) else (
      exchange request response
          ∷ (if is_failure response
              then log_line
                  ("pinentry: failed to report terminal result for cookie " <> s.flow_cookie)
                ∷ []
              else []),
      (if result == "retry" then clear_submit_state s else reset_flow s),
    )

-- The same lines stand under the command BYE.
unfoldable pub finalize_on_stream_close : Call → PinentrySession → List Effect × PinentrySession
unfolding report_terminal_result
finalize_on_stream_close c s =
    if s.awaiting_terminal_result
    then (if not (s.state.error == "")
        then report_terminal_result c "error" s.state.error s
        else report_terminal_result c "success" "" s)
    else if not (s.flow_cookie == "")
    then (if not (s.state.error == "")
        then report_terminal_result c "error" s.state.error s
        else report_terminal_result c "cancelled" "" s)
    else ([], s)

abbrev pub text_or : String → String → String
text_or text other = if text == "" then other else text

unfoldable pub password_request : PinentrySession → Object
password_request s =
    let request = put "repeat" (bool (not (s.state.repeat == ""))) (
      put "description" (str s.state.description) (
        put "prompt" (str (text_or s.state.prompt "Enter passphrase:")) (
          put "title" (str (text_or s.state.title "GPG Key"))
            (put "cookie" (str s.flow_cookie) (put "type" (str "pinentry_request") end))))) in
    put_text "keyinfo" s.state.keyinfo (put_text "error" s.state.error request)

-- The response to a request: a log line, the password if there is one, and the state.
abbrev pub password_response :
    PinentrySession → Option Object → List Effect × Option String × PinentrySession
password_response s none =
    (log_line "pinentry: failed to communicate with daemon" ∷ [], none, reset_flow s)
password_response s (some r) =
    if to_string (value "type" r) == "pinentry_response"
    then (if to_string (value "result" r) == "ok"
        then (
          [],
          some (to_string (value "password" r)),
          record s { awaiting_terminal_result = true },
        )
        else ([], none, reset_flow s))
    else if to_string (value "type" r) == "error"
    then (
      log_line ("pinentry: daemon error: " <> to_string (value "error" r)) ∷ [],
      none,
      reset_flow s,
    )
    else ([], none, reset_flow s)

unfoldable pub request_password_from_daemon :
    Call → PinentrySession → List Effect × Option String × PinentrySession
unfolding ensure_flow_cookie password_request
request_password_from_daemon c s0 =
    let s = ensure_flow_cookie c s0 in
    let response = c.send_request (password_request s) in
    let (logs, password, next) = password_response s response in
    (exchange (password_request s) response ∷ logs, password, next)

unfoldable pub confirm_request : PinentrySession → Object
confirm_request s = put "confirm_only" (bool true) (
    put "prompt" (str (text_or s.state.description "Please confirm")) (
      put "title" (str (text_or s.state.title "Confirm"))
        (put "cookie" (str s.flow_cookie) (put "type" (str "pinentry_request") end))))

abbrev pub is_confirmed : Option Object → Bool
is_confirmed none = false
is_confirmed (some r) =
    to_string (value "type" r) == "pinentry_response" && to_string (value "result" r) == "confirmed"

unfoldable pub request_confirm_from_daemon :
    Call → PinentrySession → List Effect × Bool × PinentrySession
unfolding ensure_flow_cookie confirm_request
request_confirm_from_daemon c s0 =
    let s = ensure_flow_cookie c s0 in
    let response = c.send_request (confirm_request s) in
    (
      exchange (confirm_request s) response ∷ [],
      is_confirmed response,
      (if is_confirmed response
          then record s { awaiting_terminal_result = true }
          else reset_flow s),
    )
