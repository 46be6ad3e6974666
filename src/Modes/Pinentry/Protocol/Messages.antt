-- ===== src/Modes/Pinentry/Protocol/Messages.antt =====
-- What each message to the daemon does in the protocol.
use bb_auth.Prelude.{
  ◌≡◌, refl, ◌⊎◌, inl, inr, Bool, true, false, Option, none, some, String, [], ◌∷◌, not, arith,
  eq_iff, eq_refl, if◌then◌else◌, ◌==◌, string_eq, either, ◌∙◌,
}
use bb_auth.Json.{Object, value, to_string, to_bool, put}
use bb_auth.Session.Lifecycle.{value-put_text}
use bb_auth.Modes.Pinentry.{
  PinentrySession, exchange, log_line, Call, ensure_flow_cookie, reset_flow, clear_submit_state,
}
use bb_auth.Modes.Pinentry.Daemon.{
  result_request, report_terminal_result, password_request, password_response, confirm_request,
  is_confirmed, finalize_on_stream_close, text_or,
}
use bb_auth.Modes.Pinentry.Commands.{report_retry}
use bb_auth.Modes.Pinentry.Protocol.{
  Flow, closed, answered, retried, is_accepted, may_ask, settle, advance, follow, flow_of,
  IsSettled, Follows, Ends,
}

-- What the daemon reads in the messages.
pub record ReadsRequest (q : Object) (cookie : String) (confirm : Bool) : Type 0 where
  pub typed : to_string (value "type" q) ≡ "pinentry_request"
  pub identified : to_string (value "cookie" q) ≡ cookie
  pub confirms : to_bool (value "confirm_only" q) ≡ confirm

password_request-Reads :
    (s : PinentrySession) → ReadsRequest (password_request s) s.flow_cookie false
unfolding password_request value put
password_request-Reads s = record {
  typed = simp value-put_text;
  identified = simp value-put_text;
  confirms = simp value-put_text;
}

confirm_request-Reads : (s : PinentrySession) → ReadsRequest (confirm_request s) s.flow_cookie true
unfolding confirm_request value put
confirm_request-Reads s = record { typed = refl; identified = refl; confirms = refl }

pub record ReadsResult (q : Object) (cookie result : String) : Type 0 where
  pub typed : to_string (value "type" q) ≡ "pinentry_result"
  pub identified : to_string (value "id" q) ≡ cookie
  pub told : to_string (value "result" q) ≡ result

result_request-Reads :
    (cookie result error : String) → ReadsResult (result_request cookie result error) cookie result
unfolding result_request value put
result_request-Reads cookie result error = record {
  typed = simp value-put_text;
  identified = simp value-put_text;
  told = simp value-put_text;
}

advance-request :
    (f : Flow) (q : Object) (r : Option Object) (cookie : String) (confirm : Bool)
    → ReadsRequest q cookie confirm
    → may_ask f cookie ≡ true
    → advance f (exchange q r) ≡ some (if is_accepted q r then answered cookie else closed)
unfolding advance
advance-request f q r cookie confirm h m = rw (h.typed, h.identified, m) refl

advance-result :
    (cookie : String) (q : Object) (r : Option Object) (result : String)
    → ReadsResult q cookie result
    → advance (answered cookie) (exchange q r) ≡ settle (answered cookie) cookie result
unfolding advance
advance-result cookie q r result h = rw (h.typed, h.identified, h.told) refl

follow-exchange :
    (f g : Flow) (q : Object) (r : Option Object) (b : Bool) (log : String)
    → advance f (exchange q r) ≡ some g
    → follow f (exchange q r ∷ (if b then log_line log ∷ [] else [])) ≡ some g
unfolding follow
follow-exchange f g q r b log h = ground (arith, h)

report-Ends :
    (c : Call) (result error : String) (s : PinentrySession)
    → (s.flow_cookie == "") ≡ false
    → (result ≡ "success") ⊎ (result ≡ "error")
    → Ends (answered s.flow_cookie) (report_terminal_result c result error s)
unfolding report_terminal_result
report-Ends c result error s h k =
    let q = result_request s.flow_cookie result error in
    let e =
      advance-result s.flow_cookie q (c.send_request q) result
        (result_request-Reads s.flow_cookie result error) in
    elim k [
      | inl x ↦
          rw (h, x)
            (
              follow-exchange (answered s.flow_cookie) closed _ _ _ _
                  (rw x at e ∙ rw (eq_refl s.flow_cookie) refl),
              refl,
              refl,
            )
      | inr x ↦
          rw (h, x)
            (
              follow-exchange (answered s.flow_cookie) closed _ _ _ _
                  (rw x at e ∙ rw (eq_refl s.flow_cookie) refl),
              refl,
              refl,
            )
    ]

pub retry-goes_on :
    (c : Call) (error : String) (s : PinentrySession)
    → (s.flow_cookie == "") ≡ false
    → (follow (answered s.flow_cookie) (report_terminal_result c "retry" error s).0
        ≡ some (retried s.flow_cookie))
      × ((report_terminal_result c "retry" error s).1 ≡ clear_submit_state s)
unfolding report_terminal_result
retry-goes_on c error s h =
    let q = result_request s.flow_cookie "retry" error in
    let e =
      advance-result s.flow_cookie q (c.send_request q) "retry"
        (result_request-Reads s.flow_cookie "retry" error) in
    rw h (
      follow-exchange (answered s.flow_cookie) (retried s.flow_cookie) _ _ _ _
          (e ∙ rw (eq_refl s.flow_cookie) refl),
      refl,
    )

pub asked_password-Follows :
    (f : Flow) (s : PinentrySession) (r : Option Object)
    → (s.flow_cookie == "") ≡ false
    → may_ask f s.flow_cookie ≡ true
    → Follows f
        (exchange (password_request s) r ∷ (password_response s r).0)
        (password_response s r).2
unfolding follow
asked_password-Follows f s none h m =
    let e =
      advance-request f (password_request s) none s.flow_cookie false (password_request-Reads s)
        m in
    ground (arith, e, h)
asked_password-Follows f s (some r) h m =
    let e =
      advance-request f (password_request s) (some r) s.flow_cookie false (password_request-Reads s)
        m in
    let k = (password_request-Reads s).confirms in ground (arith, e, h, k)

pub asked_confirm-Follows :
    (f : Flow) (s : PinentrySession) (r : Option Object)
    → (s.flow_cookie == "") ≡ false
    → may_ask f s.flow_cookie ≡ true
    → Follows f
        (exchange (confirm_request s) r ∷ [])
        (if is_confirmed r then record s { awaiting_terminal_result = true } else reset_flow s)
unfolding follow
asked_confirm-Follows f s none h m =
    let e =
      advance-request f (confirm_request s) none s.flow_cookie true (confirm_request-Reads s) m in
    ground (arith, e, h)
asked_confirm-Follows f s (some r) h m =
    let e =
      advance-request f (confirm_request s) (some r) s.flow_cookie true (confirm_request-Reads s)
        m in
    let k = (confirm_request-Reads s).confirms in ground (arith, e, h, k)

pub ensured :
    (c : Call) (s : PinentrySession)
    → (c.uuid == "") ≡ false
    → ((ensure_flow_cookie c s).flow_cookie == "") ≡ false
unfolding ensure_flow_cookie
ensured c s h = ground (arith, h)

pub finalize-Ends :
    (c : Call) (s : PinentrySession) → IsSettled s → Ends (flow_of s) (finalize_on_stream_close c s)
unfolding finalize_on_stream_close follow
finalize-Ends c s (inl (a, e)) =
    let told =
      either (Ends (answered s.flow_cookie)) (not (s.state.error == ""))
        (report_terminal_result c "error" s.state.error s) (report_terminal_result c "success" "" s)
        (λ x. report-Ends c "error" s.state.error s e (inr refl))
        (λ x. report-Ends c "success" "" s e (inl refl)) in
    ground (arith, a, told)
finalize-Ends c s (inr (a, e)) = ground (arith, a, e, eq_iff s.flow_cookie "")

pub retried_if :
    (c : Call) (s : PinentrySession)
    → s.awaiting_terminal_result ≡ true
    → report_retry c s
      ≡ report_terminal_result c "retry" (text_or s.state.error "Authentication failed") s
unfolding report_retry
retried_if c s h = ground (arith, h)

pub not_retried :
    (c : Call) (s : PinentrySession)
    → s.awaiting_terminal_result ≡ false
    → report_retry c s ≡ ([], s)
unfolding report_retry
not_retried c s h = ground (arith, h)
