-- ===== src/Modes/Pinentry/Protocol.antt =====
-- The protocol between pinentry and the daemon.
pub mod Messages
pub mod Run
use bb_auth.Prelude.{
  ◌≡◌, refl, ◌⊎◌, inl, inr, Bool, true, false, Option, none, some, String, List, [], ◌∷◌, ◌++◌,
  ◌&&◌, ◌||◌, not, arith, eq_iff, if◌then◌else◌, ◌==◌, string_eq, Option-cases,
}
use bb_auth.Json.{Object, str, bool, value, to_string, to_bool, put, value-put}
use bb_auth.Session.Lifecycle.{value-put_text}
use bb_auth.Modes.Pinentry.{
  PinentrySession, Effect, ok_line, err_line, data_line, exchange, log_line, Call,
  ensure_flow_cookie, reset_flow, clear_submit_state,
}
use bb_auth.Modes.Pinentry.Daemon.{
  result_request, report_terminal_result, is_failure, password_request, password_response,
  request_password_from_daemon, confirm_request, is_confirmed, request_confirm_from_daemon,
  finalize_on_stream_close,
}

-- A flow as the messages show it: none is open; the daemon has given an answer to the flow with the
-- cookie; the answer has been reported as wrong.
pub data Flow : Type 0 where
  closed : Flow
  answered retried : String → Flow

-- The positive response: "confirmed" to a request to confirm, "ok" to one for a passphrase.
abbrev pub is_accepted : Object → Option Object → Bool
is_accepted q none = false
is_accepted q (some r) =
    to_string (value "type" r) == "pinentry_response"
    && to_string (value "result" r)
      == (if to_bool (value "confirm_only" q) then "confirmed" else "ok")

-- A request opens a flow, or goes on with the one that is open.
abbrev pub may_ask : Flow → String → Bool
may_ask closed c = not (c == "")
may_ask (answered d) c = d == c
may_ask (retried d) c = d == c

abbrev pub ask : Flow → String → Bool → Option Flow
ask f c accepted = if may_ask f c then some (if accepted then answered c else closed) else none

-- A result is reported of the flow that has been answered: "retry", "success" or "error".
abbrev pub settle : Flow → String → String → Option Flow
settle (answered d) c result =
    if d == c
    then (if result == "retry"
        then some (retried d)
        else if result == "success" || result == "error"
        then some closed
        else none)
    else none
settle _ c result = none

unfoldable pub advance : Flow → Effect → Option Flow
advance f (exchange q r) =
    if to_string (value "type" q) == "pinentry_request"
    then ask f (to_string (value "cookie" q)) (is_accepted q r)
    else if to_string (value "type" q) == "pinentry_result"
    then settle f (to_string (value "id" q)) (to_string (value "result" q))
    else none
advance f (ok_line _) = some f
advance f (err_line _ _) = some f
advance f (data_line _) = some f
advance f (log_line _) = some f

-- The flow after the effects, or none if the protocol was broken.
unfoldable pub follow : Flow → List Effect → Option Flow
unfolding advance
follow f [] = some f
follow f (e ∷ es) = elim (advance f e) [ none ↦ none | some g ↦ follow g es ]

pub follow-append :
    (f g : Flow) (es fs : List Effect) → follow f es ≡ some g → follow f (es ++ fs) ≡ follow g fs
unfolding follow
follow-append f g [] fs h = ground (arith, h)
follow-append f g (e ∷ es) fs h = elim (Option-cases (advance f e)) [
  | inl n ↦ ground (arith, h, n)
  | inr (x, s) ↦
      let k : follow x es ≡ some g = ground (arith, h, s) in
      ground (arith, s, follow-append x g es fs k)
]

-- The flow that a session takes to be open, between two commands.
abbrev pub flow_of : PinentrySession → Flow
flow_of s = if s.awaiting_terminal_result then answered s.flow_cookie else closed

-- Between two commands a session has a cookie exactly while it awaits a result.
abbrev pub IsSettled : PinentrySession → Type 0
IsSettled s =
    ((s.awaiting_terminal_result ≡ true) × ((s.flow_cookie == "") ≡ false))
    ⊎ ((s.awaiting_terminal_result ≡ false) × (s.flow_cookie ≡ ""))

-- From the flow `f` the effects follow the protocol to the flow that the session takes to be open.
abbrev pub Follows : Flow → List Effect → PinentrySession → Type 0
Follows f es s = (follow f es ≡ some (flow_of s)) × IsSettled s

-- The effects follow the protocol from the flow `f` to its end.
abbrev pub Ends : Flow → List Effect × PinentrySession → Type 0
Ends f (es, s) =
    (follow f es ≡ some closed) × (s.awaiting_terminal_result ≡ false) × (s.flow_cookie ≡ "")
