-- ===== src/Modes/Pinentry/Protocol/Run.antt =====
-- A run of pinentry follows the protocol, and leaves no flow open.
use bb_auth.Prelude.{
  ◌≡◌, refl, inl, inr, Bool, true, false, Option, none, some, String, List, [], ◌∷◌, ◌++◌, arith,
  eq_iff, eq_refl, if◌then◌else◌, ◌==◌, string_eq, Bool-cases, either, All, ◌∙◌,
}
use bb_auth.Modes.Pinentry.{
  PinentryState, PinentrySession, new_session, Effect, ok_line, Call, ensure_flow_cookie,
  clear_submit_state,
}
use bb_auth.Modes.Pinentry.Daemon.{
  request_password_from_daemon, request_confirm_from_daemon, finalize_on_stream_close, text_or,
}
use bb_auth.Modes.Pinentry.Commands.{
  Codec, Outcome, pin_reply, operation_cancelled, report_retry, handle_get_pin, handle_confirm,
  handle_bye, get_info, set_text, set_or, other_command, handle_command, command_of, argument_of,
  without_return, run_lines, run,
}
use bb_auth.Modes.Pinentry.Protocol.{
  Flow, closed, retried, may_ask, follow, follow-append, flow_of, IsSettled, Follows, Ends,
}
use bb_auth.Modes.Pinentry.Protocol.Messages.{
  retry-goes_on, retried_if, not_retried, asked_password-Follows, asked_confirm-Follows, ensured,
  finalize-Ends,
}

HasUuid : Call → Type 0
HasUuid c = (c.uuid == "") ≡ false

-- What is done after the first effects.
Follows-append :
    (f g : Flow) (es fs : List Effect) (s : PinentrySession)
    → follow f es ≡ some g
    → Follows g fs s
    → Follows f (es ++ fs) s
Follows-append f g es fs s h (k, settled) = (follow-append f g es fs h ∙ k, settled)

-- Effects that are no messages.
Follows-quiet :
    (f : Flow) (es fs : List Effect) (s : PinentrySession)
    → ((g : Flow) → follow g fs ≡ some g)
    → Follows f es s
    → Follows f (es ++ fs) s
Follows-quiet f es fs s quiet (h, settled) =
    (follow-append f (flow_of s) es fs h ∙ quiet (flow_of s), settled)

acknowledged-Follows :
    (s : PinentrySession) (p : PinentryState)
    → IsSettled s
    → Follows (flow_of s) (ok_line "" ∷ []) (record s { state = p })
unfolding follow
acknowledged-Follows s p h = (refl, h)

module _ (k : Codec) (c : Call) (uuid : (c.uuid == "") ≡ false) where
  pin_reply-quiet : (password : Option String) (g : Flow) → follow g (pin_reply k password) ≡ some g
  unfolding follow
  pin_reply-quiet none g = refl
  pin_reply-quiet (some p) g = ground arith

  get_info-quiet : (arg : String) (g : Flow) → follow g (get_info k arg) ≡ some g
  unfolding follow
  get_info-quiet arg g = ground arith

  confirm_reply-quiet :
      (b : Bool) (g : Flow) → follow g (if b then ok_line "" ∷ [] else operation_cancelled) ≡ some g
  unfolding follow
  confirm_reply-quiet true g = refl
  confirm_reply-quiet false g = refl

  request_password-Follows :
      (f : Flow) (s : PinentrySession)
      → may_ask f (ensure_flow_cookie c s).flow_cookie ≡ true
      → Follows f (request_password_from_daemon c s).0 (request_password_from_daemon c s).2
  unfolding request_password_from_daemon
  request_password-Follows f s h =
      asked_password-Follows f (ensure_flow_cookie c s) _ (ensured c s uuid) h

  request_confirm-Follows :
      (f : Flow) (s : PinentrySession)
      → may_ask f (ensure_flow_cookie c s).flow_cookie ≡ true
      → Follows f (request_confirm_from_daemon c s).0 (request_confirm_from_daemon c s).2
  unfolding request_confirm_from_daemon
  request_confirm-Follows f s h =
      asked_confirm-Follows f (ensure_flow_cookie c s) _ (ensured c s uuid) h

  settled-may_ask :
      (s : PinentrySession)
      → IsSettled s
      → may_ask (flow_of s) (ensure_flow_cookie c s).flow_cookie ≡ true
  unfolding ensure_flow_cookie
  settled-may_ask s h = ground (arith, uuid, eq_iff s.flow_cookie "", eq_refl s.flow_cookie)

  submitted-may_ask :
      (s : PinentrySession)
      → (s.flow_cookie == "") ≡ false
      → may_ask (retried s.flow_cookie) (ensure_flow_cookie c (clear_submit_state s)).flow_cookie
        ≡ true
  unfolding ensure_flow_cookie
  submitted-may_ask s h = ground (arith, h, eq_refl s.flow_cookie)

  -- The report before a second attempt leads to a flow that may be asked for again.
  report_retry-Leads :
      (s : PinentrySession)
      → IsSettled s
      → (f : Flow) × (follow (flow_of s) (report_retry c s).0 ≡ some f)
        × (may_ask f (ensure_flow_cookie c (report_retry c s).1).flow_cookie ≡ true)
  unfolding follow
  report_retry-Leads s (inl (a, e)) =
      let error = text_or s.state.error "Authentication failed" in
      let (h, same) = retry-goes_on c error s e in
      rw (retried_if c s a)
        (retried s.flow_cookie, ground (arith, a, h), rw same (submitted-may_ask s e))
  report_retry-Leads s (inr (a, e)) =
      rw (not_retried c s a) (flow_of s, refl, settled-may_ask s (inr (a, e)))

  handle_get_pin-Follows :
      (s : PinentrySession)
      → IsSettled s
      → Follows (flow_of s) (handle_get_pin k c s).0 (handle_get_pin k c s).2
  unfolding handle_get_pin
  handle_get_pin-Follows s h =
      let (f, led, may) = report_retry-Leads s h in
      let (asked, password, next) = request_password_from_daemon c (report_retry c s).1 in
      Follows-append (flow_of s) f _ _ next led (
        Follows-quiet f _ _ next (pin_reply-quiet password)
          (request_password-Follows f (report_retry c s).1 may))

  handle_confirm-Follows :
      (s : PinentrySession)
      → IsSettled s
      → Follows (flow_of s) (handle_confirm c s).0 (handle_confirm c s).2
  unfolding handle_confirm
  handle_confirm-Follows s h =
      Follows-quiet (flow_of s) _ _ (request_confirm_from_daemon c s).2 (confirm_reply-quiet _)
        (request_confirm-Follows (flow_of s) s (settled-may_ask s h))

  -- What a command does to the protocol.
  abbrev Behaves : PinentrySession → Outcome → Type 0
  Behaves s (es, goes_on, next) = Follows (flow_of s) es next

  handle_bye-Behaves : (s : PinentrySession) → IsSettled s → Behaves s (handle_bye c s)
  unfolding follow
  handle_bye-Behaves s h =
      let (led, a, e) = finalize-Ends c s h in
      let bye = ok_line "closing connection" ∷ [] in
      Follows-quiet (flow_of s) (finalize_on_stream_close c s).0 bye
        (finalize_on_stream_close c s).1 (λ g. refl) (ground (arith, led, a), inr (a, e))

  set_or-Behaves :
      (s : PinentrySession) (o : Option PinentryState) (other : Outcome)
      → IsSettled s
      → Behaves s other
      → Behaves s (set_or o s other)
  unfolding follow
  set_or-Behaves s none other h b = b
  set_or-Behaves s (some p) other h b = (refl, h)

  other_command-Behaves :
      (s : PinentrySession) (cmd arg : String)
      → IsSettled s
      → Behaves s (other_command k c cmd arg s)
  unfolding follow
  other_command-Behaves s cmd arg h =
      let is = λ (word : String). either (Behaves s) (k.equal_ci cmd word) in
      is "OPTION" _ _ (λ t. (refl, h))
        (λ n.
          is "GETINFO" _ _ (λ t. (get_info-quiet arg (flow_of s), h))
            (λ n.
              is "GETPIN" _ _ (λ t. handle_get_pin-Follows s h)
                (λ n.
                  is "CONFIRM" _ _ (λ t. handle_confirm-Follows s h)
                    (λ n.
                      is "MESSAGE" _ _ (λ t. (refl, h))
                        (λ n.
                          is "RESET" _ _ (λ t. (refl, h))
                            (λ n. is "NOP" _ _ (λ t. (refl, h)) (λ n. (refl, h))))))))

  pub handle_command-Behaves :
      (s : PinentrySession) (line : String) → IsSettled s → Behaves s (handle_command k c line s)
  unfolding handle_command
  handle_command-Behaves s line h =
      either (Behaves s) (k.equal_ci (command_of line) "BYE") _ _ (λ t. handle_bye-Behaves s h)
        (λ n.
          set_or-Behaves s (set_text k (command_of line) s.state (argument_of k line)) _ h
            (other_command-Behaves s (command_of line) (argument_of k line) h))

-- A run of lines, each with an UUID that is not empty.
module _ (k : Codec) where
  run_lines-Follows :
      (lines : List (Call × String)) (s : PinentrySession)
      → All (λ l. (l.0.uuid == "") ≡ false) lines
      → IsSettled s
      → Follows (flow_of s) (run_lines k lines s).0 (run_lines k lines s).1
  unfolding run_lines follow
  run_lines-Follows [] s u h = (refl, h)
  run_lines-Follows ((c, line) ∷ lines) s (u, us) h = elim (Bool-cases (line == "")) [
    | inl e ↦ rw (e, run_lines) (run_lines-Follows lines s us h)
    | inr e ↦
        let (es, goes_on, next) = handle_command k c (without_return line) s in
        let step = handle_command-Behaves k c u s (without_return line) h in
        let (later, last) = run_lines k lines next in
        rw (e, run_lines)
          (either (λ (p : List Effect × PinentrySession). Follows (flow_of s) p.0 p.1) goes_on
            (es ++ later, last) (es, next)
            (λ t.
              Follows-append (flow_of s) (flow_of next) es later last step.0
                (run_lines-Follows lines next us step.1))
            (λ n. step))
  ]

  -- Whatever lines pinentry reads, and whatever the daemon responds, its messages follow the
  -- protocol: a request for a passphrase or a confirmation opens a flow under a cookie that is not
  -- empty, or goes on with the one that is open; a result is reported only of the flow that the
  -- daemon has answered, under its cookie, and is "retry", "success" or "error"; and when the stream
  -- is closed no flow is open. (The UUIDs that are drawn are not empty.)
  pub run-IsProtocol :
      (lines : List (Call × String)) (end_call : Call)
      → All (λ l. (l.0.uuid == "") ≡ false) lines
      → Ends closed (run k lines end_call)
  unfolding run follow
  run-IsProtocol lines end_call u =
      let (es, s) = run_lines k lines new_session in
      let (h, settled) = run_lines-Follows lines new_session u (inr (refl, refl)) in
      let (led, a, e) = finalize-Ends end_call s settled in
      (follow-append closed (flow_of s) es _ h ∙ led, a, e)
