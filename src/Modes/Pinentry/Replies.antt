-- ===== src/Modes/Pinentry/Replies.antt =====
-- What pinentry prints for the lines that it reads.
use bb_auth.Prelude.{
  ℕ, zero, suc, ◌≡◌, refl, sym, ap, ◌∙◌, Bool, true, false, Option, none, some, String, List, [],
  ◌∷◌, ◌++◌, not, arith, if◌then◌else◌, ◌==◌, string_eq, either, All, Bool-cases, inl, inr,
}
use mathlib.Core.List.{append-nil}
use bb_auth.Json.{Object}
use bb_auth.Modes.Assuan.Escapes.{IsInLine, encode-IsInLine}
use bb_auth.Modes.Pinentry.{
  PinentryState, PinentrySession, new_session, Effect, ok_line, err_line, data_line, exchange,
  log_line, Call, ensure_flow_cookie,
}
use bb_auth.Modes.Pinentry.Daemon.{
  report_terminal_result, password_response, request_password_from_daemon,
  request_confirm_from_daemon, finalize_on_stream_close,
}
use bb_auth.Modes.Pinentry.Commands.{
  Codec, Outcome, pin_reply, report_retry, handle_get_pin, handle_confirm, handle_bye, get_info,
  set_text, set_or, other_command, handle_command, command_of, argument_of, without_return,
  run_lines, run,
}

-- The lines on stdout.
unfoldable pub printed : List Effect → List Effect
printed [] = []
printed (ok_line t ∷ es) = ok_line t ∷ printed es
printed (err_line n t ∷ es) = err_line n t ∷ printed es
printed (data_line d ∷ es) = data_line d ∷ printed es
printed (exchange q r ∷ es) = printed es
printed (log_line t ∷ es) = printed es

-- A reply is one OK or ERR line, or a data line that stays within its line, and OK.
abbrev pub IsReply : List Effect → Type 0
IsReply (ok_line t ∷ []) = Unit
IsReply (err_line n t ∷ []) = Unit
IsReply (data_line d ∷ ok_line t ∷ []) = All IsInLine d
IsReply _ = ⊥

printed-append : (es fs : List Effect) → printed (es ++ fs) ≡ printed es ++ printed fs
unfolding printed
printed-append [] fs = refl
printed-append (ok_line t ∷ es) fs = ap (◌∷◌ (ok_line t)) (printed-append es fs)
printed-append (err_line n t ∷ es) fs = ap (◌∷◌ (err_line n t)) (printed-append es fs)
printed-append (data_line d ∷ es) fs = ap (◌∷◌ (data_line d)) (printed-append es fs)
printed-append (exchange q r ∷ es) fs = printed-append es fs
printed-append (log_line t ∷ es) fs = printed-append es fs

after_quiet :
    (es fs : List Effect) → printed es ≡ [] → IsReply (printed fs) → IsReply (printed (es ++ fs))
after_quiet es fs h r = rw (printed-append es fs, h) r

report-quiet :
    (c : Call) (result error : String) (s : PinentrySession)
    → printed (report_terminal_result c result error s).0 ≡ []
unfolding report_terminal_result printed
report-quiet c result error s = ground arith

report_retry-quiet : (c : Call) (s : PinentrySession) → printed (report_retry c s).0 ≡ []
unfolding report_retry printed
report_retry-quiet c s = ground arith

finalize-quiet : (c : Call) (s : PinentrySession) → printed (finalize_on_stream_close c s).0 ≡ []
unfolding finalize_on_stream_close printed
finalize-quiet c s = ground arith

response-quiet : (s : PinentrySession) (r : Option Object) → printed (password_response s r).0 ≡ []
unfolding printed
response-quiet s none = refl
response-quiet s (some r) = ground arith

module _ (k : Codec) (c : Call) where
  pin_reply-IsReply : (password : Option String) → IsReply (printed (pin_reply k password))
  unfolding printed
  pin_reply-IsReply none = tt
  pin_reply-IsReply (some p) =
      either (λ (es : List Effect). IsReply (printed es)) (not (p == "")) _ _
        (λ t. encode-IsInLine (k.to_utf16 p)) (λ n. tt)

  get_info-IsReply : (arg : String) → IsReply (printed (get_info k arg))
  unfolding printed
  get_info-IsReply arg =
      let is =
        λ (word : String). either (λ (es : List Effect). IsReply (printed es)) (arg == word) in
      is "pid" _ _ (λ t. encode-IsInLine (k.to_utf16 k.pid))
        (λ n.
          is "version" _ _ (λ t. encode-IsInLine (k.to_utf16 "1.0.0"))
            (λ n.
              is "flavor" _ _ (λ t. encode-IsInLine (k.to_utf16 "bb"))
                (λ n. is "ttyinfo" _ _ (λ t. encode-IsInLine (k.to_utf16 "")) (λ n. tt))))

  get_pin-IsReply : (s : PinentrySession) → IsReply (printed (handle_get_pin k c s).0)
  unfolding handle_get_pin request_password_from_daemon printed
  get_pin-IsReply s = after_quiet (report_retry c s).0 _ (report_retry-quiet c s) (
      after_quiet (request_password_from_daemon c (report_retry c s).1).0 _
        (response-quiet (ensure_flow_cookie c (report_retry c s).1) _)
        (pin_reply-IsReply (request_password_from_daemon c (report_retry c s).1).1))

  confirm-IsReply : (s : PinentrySession) → IsReply (printed (handle_confirm c s).0)
  unfolding handle_confirm request_confirm_from_daemon printed
  confirm-IsReply s =
      either (λ (es : List Effect). IsReply (printed es)) (request_confirm_from_daemon c s).1 _ _
        (λ t. tt) (λ n. tt)

  bye-IsReply : (s : PinentrySession) → IsReply (printed (handle_bye c s).0)
  unfolding printed
  bye-IsReply s =
      after_quiet (finalize_on_stream_close c s).0 (ok_line "closing connection" ∷ [])
        (finalize-quiet c s) tt

  -- A command replies, and the loop goes on exactly if it is not BYE.
  abbrev IsAnswer : Bool → Outcome → Type 0
  IsAnswer bye (es, goes_on, next) = IsReply (printed es) × (goes_on ≡ not bye)

  set_or-IsAnswer :
      (o : Option PinentryState) (s : PinentrySession) (other : Outcome)
      → IsAnswer false other
      → IsAnswer false (set_or o s other)
  unfolding printed
  set_or-IsAnswer none s other h = h
  set_or-IsAnswer (some p) s other h = (tt, refl)

  other_command-IsAnswer :
      (cmd arg : String) (s : PinentrySession) → IsAnswer false (other_command k c cmd arg s)
  unfolding printed handle_get_pin handle_confirm
  other_command-IsAnswer cmd arg s =
      let is = λ (word : String). either (IsAnswer false) (k.equal_ci cmd word) in
      is "OPTION" _ _ (λ t. (tt, refl))
        (λ n.
          is "GETINFO" _ _ (λ t. (get_info-IsReply arg, refl))
            (λ n.
              is "GETPIN" _ _ (λ t. (get_pin-IsReply s, refl))
                (λ n.
                  is "CONFIRM" _ _ (λ t. (confirm-IsReply s, refl))
                    (λ n.
                      is "MESSAGE" _ _ (λ t. (tt, refl))
                        (λ n.
                          is "RESET" _ _ (λ t. (tt, refl))
                            (λ n. is "NOP" _ _ (λ t. (tt, refl)) (λ n. (tt, refl))))))))

  handle_command-IsAnswer :
      (line : String) (s : PinentrySession)
      → IsAnswer (k.equal_ci (command_of line) "BYE") (handle_command k c line s)
  unfolding handle_command
  handle_command-IsAnswer line s = elim (Bool-cases (k.equal_ci (command_of line) "BYE")) [
    | inl e ↦ rw (e, handle_command) (bye-IsReply s, refl)
    | inr e ↦
        rw (e, handle_command)
          (set_or-IsAnswer (set_text k (command_of line) s.state (argument_of k line)) s _
            (other_command-IsAnswer (command_of line) (argument_of k line) s))
  ]

-- `n` replies, one after the other.
abbrev pub Answers : ℕ → List Effect → Type 0
Answers zero es = es ≡ []
Answers (suc n) es =
    (reply : List Effect) × (rest : List Effect) × IsReply reply
    × (es ≡ reply ++ rest)
    × Answers n rest

abbrev step_of :
    List Effect
    → List Effect
    → Bool
    → PinentrySession
    → PinentrySession
    → List Effect × PinentrySession
step_of es later goes_on next last = if goes_on then (es ++ later, last) else (es, next)

one_more :
    (es later : List Effect) (goes_on bye : Bool) (next last : PinentrySession) (n : ℕ)
    → IsReply (printed es)
    → goes_on ≡ not bye
    → Answers n (printed later)
    → Answers (if bye then 1 else suc n) (printed (step_of es later goes_on next last).0)
one_more es later false true next last n r g h =
    (printed es, [], r, sym (append-nil (printed es)), refl)
one_more es later true false next last n r g h =
    (printed es, printed later, r, printed-append es later, h)
one_more es later true true next last n r g h = cc
one_more es later false false next last n r g h = cc

module _ (k : Codec) where
  -- The lines that are answered: those that are not empty, up to the first BYE.
  unfoldable pub heard : List (Call × String) → ℕ
  heard [] = 0
  heard ((c, line) ∷ lines) =
      let rest = heard lines in
      if line == ""
      then rest
      else if k.equal_ci (command_of (without_return line)) "BYE"
      then 1
      else suc rest

  run_lines-Answers :
      (lines : List (Call × String)) (s : PinentrySession)
      → Answers (heard lines) (printed (run_lines k lines s).0)
  unfolding heard run_lines printed
  run_lines-Answers [] s = refl
  run_lines-Answers ((c, line) ∷ lines) s = elim (Bool-cases (line == "")) [
    | inl e ↦ rw (e, heard, run_lines) (run_lines-Answers lines s)
    | inr e ↦
        let (es, goes_on, next) = handle_command k c (without_return line) s in
        let (later, last) = run_lines k lines next in
        let (reply, goes) = handle_command-IsAnswer k c (without_return line) s in
        rw (e, heard, run_lines)
          (one_more es later goes_on (k.equal_ci (command_of (without_return line)) "BYE") next last
            (heard lines) reply goes (run_lines-Answers lines next))
  ]

  -- Pinentry prints the greeting, and for every line that is not empty, up to the first BYE, exactly
  -- one reply, whatever the daemon responds: one OK or ERR line, or a data line without line breaks
  -- in its text and an OK line.
  pub run-Answers :
      (lines : List (Call × String)) (end_call : Call)
      → Answers (suc (heard lines)) (printed (run k lines end_call).0)
  unfolding run printed
  run-Answers lines end_call =
      let (es, s) = run_lines k lines new_session in
      let reported = (finalize_on_stream_close end_call s).0 in
      (
        ok_line "BB Auth Pinentry" ∷ [],
        printed es,
        tt,
        ap (◌∷◌ (ok_line "BB Auth Pinentry"))
            (printed-append es reported ∙ rw (finalize-quiet end_call s) (append-nil (printed es))),
        run_lines-Answers lines new_session,
      )
