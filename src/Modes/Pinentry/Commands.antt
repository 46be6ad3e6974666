-- ===== src/Modes/Pinentry/Commands.antt =====
-- The commands, and the loop over the lines.
use bb_auth.Prelude.{
  ℕ, Bool, true, false, Option, none, some, String, List, [], ◌∷◌, ◌++◌, ◌||◌, not, if◌then◌else◌,
  ◌==◌, string_eq, nat_eq,
}
use bb_auth.Qt.{section_after, section_before, ends_with, chopped}
use bb_auth.Modes.Assuan.{assuan_encode, assuan_decode}
use bb_auth.Modes.Pinentry.{
  PinentryState, new_state, PinentrySession, new_session, Effect, ok_line, err_line, data_line,
  Call,
}
use bb_auth.Modes.Pinentry.Daemon.{
  report_terminal_result, finalize_on_stream_close, request_password_from_daemon,
  request_confirm_from_daemon, text_or,
}

-- The process id in digits, comparison with Qt::CaseInsensitive, and QString's code units.
pub record Codec : Type 0 where
  pub pid : String
  pub equal_ci : String → String → Bool
  pub to_utf16 : String → List ℕ
  pub from_utf16 : List ℕ → String
  pub to_int : ℕ → ℕ → Option ℕ

-- What a command does, whether the loop goes on, and the state.
abbrev pub Outcome : Type 0
Outcome = List Effect × Bool × PinentrySession

abbrev clear_error : PinentrySession → PinentrySession
clear_error s = record s { state = record s.state { error = "" } }

abbrev pub acknowledged : PinentrySession → Outcome
acknowledged s = (ok_line "" ∷ [], true, s)

abbrev pub operation_cancelled : List Effect
operation_cancelled = err_line 83886179 "Operation cancelled" ∷ []

unfoldable pub report_retry : Call → PinentrySession → List Effect × PinentrySession
unfolding report_terminal_result
report_retry c s =
    if s.awaiting_terminal_result
    then report_terminal_result c "retry" (text_or s.state.error "Authentication failed") s
    else ([], s)

unfoldable pub handle_confirm : Call → PinentrySession → Outcome
unfolding request_confirm_from_daemon
handle_confirm c s =
    let (asked, confirmed, next) = request_confirm_from_daemon c s in
    (asked ++ (if confirmed then ok_line "" ∷ [] else operation_cancelled), true, clear_error next)

abbrev pub handle_bye : Call → PinentrySession → Outcome
handle_bye c s =
    let (reported, next) = finalize_on_stream_close c s in
    (reported ++ (ok_line "closing connection" ∷ []), false, next)

-- The command word and its argument: what stands before and behind the first space, unless the
-- line begins with it.
abbrev pub is_bare : String → Bool
is_bare line = section_before b' ' line == "" || section_before b' ' line == line

unfoldable pub command_of : String → String
command_of line = if is_bare line then line else section_before b' ' line

abbrev pub set_or : Option PinentryState → PinentrySession → Outcome → Outcome
set_or none s other = other
set_or (some p) s other = acknowledged (record s { state = p })

abbrev pub without_return : String → String
without_return line = if ends_with "\r" line then chopped line else line

module _ (k : Codec) where
  abbrev pub send_data : String → Effect
  send_data text = data_line (assuan_encode (k.to_utf16 text))

  abbrev pub pin_reply : Option String → List Effect
  pin_reply none = operation_cancelled
  pin_reply (some password) =
      if not (password == "") then send_data password ∷ ok_line "" ∷ [] else operation_cancelled

  unfoldable pub handle_get_pin : Call → PinentrySession → Outcome
  unfolding report_retry request_password_from_daemon
  handle_get_pin c s =
      let (reported, retried) = report_retry c s in
      let (asked, password, next) = request_password_from_daemon c retried in
      (reported ++ (asked ++ pin_reply password), true, clear_error next)

  abbrev pub get_info : String → List Effect
  get_info arg =
      if arg == "pid"
      then send_data k.pid ∷ ok_line "" ∷ []
      else if arg == "version"
      then send_data "1.0.0" ∷ ok_line "" ∷ []
      else if arg == "flavor"
      then send_data "bb" ∷ ok_line "" ∷ []
      else if arg == "ttyinfo"
      then send_data "" ∷ ok_line "" ∷ []
      else ok_line "" ∷ []

  unfoldable pub argument_of : String → String
  argument_of line =
      if is_bare line
      then ""
      else k.from_utf16 (assuan_decode k.to_int (k.to_utf16 (section_after b' ' line)))

  -- A command that sets a text of the state.
  abbrev pub set_text : String → PinentryState → String → Option PinentryState
  set_text cmd p arg =
      if k.equal_ci cmd "SETDESC"
      then some (record p { description = arg })
      else if k.equal_ci cmd "SETPROMPT"
      then some (record p { prompt = arg })
      else if k.equal_ci cmd "SETTITLE"
      then some (record p { title = arg })
      else if k.equal_ci cmd "SETERROR"
      then some (record p { error = arg })
      else if k.equal_ci cmd "SETOK"
      then some (record p { ok_text = arg })
      else if k.equal_ci cmd "SETCANCEL"
      then some (record p { cancel_text = arg })
      else if k.equal_ci cmd "SETNOTOK"
      then some (record p { not_ok_text = arg })
      else if k.equal_ci cmd "SETKEYINFO"
      then some (record p { keyinfo = arg })
      else if k.equal_ci cmd "SETREPEAT"
      then some (record p { repeat = arg })
      else none

  abbrev pub other_command : Call → String → String → PinentrySession → Outcome
  other_command c cmd arg s =
      if k.equal_ci cmd "OPTION"
      then acknowledged s
      else if k.equal_ci cmd "GETINFO"
      then (get_info arg, true, s)
      else if k.equal_ci cmd "GETPIN"
      then handle_get_pin c s
      else if k.equal_ci cmd "CONFIRM"
      then handle_confirm c s
      else if k.equal_ci cmd "MESSAGE"
      then acknowledged s
      else if k.equal_ci cmd "RESET"
      then acknowledged (record s { state = new_state })
      else if k.equal_ci cmd "NOP"
      then acknowledged s
      else acknowledged s

  unfoldable pub handle_command : Call → String → PinentrySession → Outcome
  unfolding command_of argument_of handle_get_pin handle_confirm
  handle_command c line s =
      let cmd = command_of line in
      let arg = argument_of line in
      if k.equal_ci cmd "BYE"
      then handle_bye c s
      else set_or (set_text cmd s.state arg) s (other_command c cmd arg s)

  -- The lines, each with what its command finds.
  unfoldable pub run_lines : List (Call × String) → PinentrySession → List Effect × PinentrySession
  unfolding handle_command
  run_lines [] s = ([], s)
  run_lines ((c, line) ∷ lines) s = elim (line == "") [
    | true ↦ run_lines lines s
    | false ↦
        let (effects, goes_on, next) = handle_command c (without_return line) s in
        let (later, last) = run_lines lines next in
        if goes_on then (effects ++ later, last) else (effects, next)
  ]

  unfoldable pub run : List (Call × String) → Call → List Effect × PinentrySession
  unfolding run_lines finalize_on_stream_close
  run lines end_call =
      let (effects, s) = run_lines lines new_session in
      let (reported, last) = finalize_on_stream_close end_call s in
      (ok_line "BB Auth Pinentry" ∷ (effects ++ reported), last)
