-- ===== src/Modes/Pinentry/Delivery.antt =====
-- Pinentry and the daemon together: what the daemon reads of a request, and what gpg-agent gets of the
-- answer.
use bb_auth.Prelude.{
  ℕ, ◌≡◌, refl, sym, ap, ◌∙◌, Bool, true, false, none, some, String, List, [], ◌∷◌, not, arith,
  eq_iff, if◌then◌else◌, ◌==◌, string_eq,
}
use bb_auth.Prelude.Int.{ℤ}
use bb_auth.Json.{Object, str, field, end, value, put, to_string}
use bb_auth.Session.Lifecycle.{value-put_text}
use bb_auth.Agent.State.{Agent, World, PinentryRequest}
use bb_auth.Agent.Pinentry.{
  read_request, handle_request, handle_response, answer, validate_result_owner,
}
use bb_auth.Agent.Pinentry.RoundTrip.{handle_request-IsServed}
use bb_auth.Modes.Assuan.{assuan_encode, assuan_decode}
use bb_auth.Modes.Assuan.Escapes.{ReadsHex, decode-encode}
use bb_auth.Modes.Pinentry.{PinentrySession, Effect, ok_line, data_line, Call, ensure_flow_cookie}
use bb_auth.Modes.Pinentry.Daemon.{
  password_request, request_password_from_daemon, text_or, finalize_on_stream_close,
  report_terminal_result,
}
use bb_auth.Modes.Pinentry.Commands.{Codec, report_retry, handle_get_pin, operation_cancelled}
use bb_auth.Modes.Pinentry.Replies.{printed}
use bb_auth.Modes.Pinentry.Protocol.Messages.{not_retried}

-- The daemon's request for the flow of a session.
pub record IsReadAs (s : PinentrySession) (r : PinentryRequest)
    (prompt description error keyinfo : String) (repeat confirm : Bool) : Type 0 where
  pub cookie : r.cookie ≡ s.flow_cookie
  pub prompt_read : r.prompt ≡ prompt
  pub description_read : r.description ≡ description
  pub error_read : r.error ≡ error
  pub keyinfo_read : r.keyinfo ≡ keyinfo
  pub repeat_read : r.repeat ≡ repeat
  pub confirm_read : r.confirm_only ≡ confirm

put_text-read : (t : String) → to_string (if t == "" then none else some (str t)) ≡ t
put_text-read t = ground (arith, eq_iff t "")

prompt-read :
    (t : String)
    → (if text_or t "Enter passphrase:" == ""
        then "Enter passphrase:"
        else text_or t "Enter passphrase:")
      ≡ text_or t "Enter passphrase:"
prompt-read t = ground arith

-- The daemon reads a request for a passphrase as pinentry means it: under the flow's cookie, with the
-- prompt (or the default one), and with the description, error and key info as gpg-agent has set
-- them; it is no request to confirm, and asks for a repetition exactly if gpg-agent has set one.
pub password_request-IsRead :
    (w : World) (s : PinentrySession) (socket : ℕ) (pid : ℤ)
    → (s.flow_cookie == "") ≡ false
    → IsReadAs s
        (read_request w (password_request s) socket pid)
        (text_or s.state.prompt "Enter passphrase:")
        s.state.description
        s.state.error
        s.state.keyinfo
        (not (s.state.repeat == ""))
        false
unfolding password_request read_request value put
password_request-IsRead w s socket pid h = record {
  cookie = simp (value-put_text, h);
  prompt_read = simp value-put_text (prompt-read s.state.prompt);
  description_read = simp value-put_text;
  error_read = simp value-put_text (put_text-read s.state.error);
  keyinfo_read = simp value-put_text (put_text-read s.state.keyinfo);
  repeat_read = simp value-put_text;
  confirm_read = simp value-put_text;
}

-- gpg-agent gets the text of a data line that it decodes to the passphrase, and the flow awaits its
-- result.
abbrev pub IsDelivered : Codec → List Effect × Bool × PinentrySession → String → String → Type 0
IsDelivered k (es, goes_on, next) cookie passphrase =
    (line : List ℕ) × (printed es ≡ data_line line ∷ ok_line "" ∷ [])
    × (assuan_decode k.to_int line ≡ k.to_utf16 passphrase)
    × (next.awaiting_terminal_result ≡ true)
    × (next.flow_cookie ≡ cookie)

ok_answer :
    (w : World) (r : PinentryRequest) (passphrase : String)
    → r.confirm_only ≡ false
    → answer w r passphrase
      ≡ field "type" (str "pinentry_response") (
          field "id"
            (str r.cookie)
            (field "result" (str "ok") (field "password" (str passphrase) end)))
ok_answer w r passphrase h = ground (arith, h)

answered-IsDelivered :
    (w : World) (k : Codec) (c : Call) (s : PinentrySession) (r : PinentryRequest)
    (passphrase : String)
    → ReadsHex k.to_int
    → s.awaiting_terminal_result ≡ false
    → r.confirm_only ≡ false
    → (passphrase == "") ≡ false
    → c.send_request (password_request (ensure_flow_cookie c s)) ≡ some (answer w r passphrase)
    → IsDelivered k (handle_get_pin k c s) (ensure_flow_cookie c s).flow_cookie passphrase
unfolding handle_get_pin report_retry request_password_from_daemon printed value
answered-IsDelivered w k c s r passphrase law idle mode full sent =
    rw (not_retried c s idle, sent, ok_answer w r passphrase mode, full)
      (
        assuan_encode (k.to_utf16 passphrase),
        refl,
        decode-encode k.to_int (k.to_utf16 passphrase) law,
        refl,
        refl,
      )

-- The passphrase that is given to the daemon for a flow reaches gpg-agent: pinentry asks for the
-- first time under the flow's cookie, which no other process owns; the daemon, in whatever state it
-- is and whenever that is, gives its response to the passphrase, which is not empty; then pinentry
-- prints one data line, which decodes to the passphrase, and OK, and the flow awaits its result.
-- (Two hexadecimal digits are read as the number that they write.)
pub get_pin-IsDelivered :
    (w later : World) (a : Agent) (socket : ℕ) (pid : ℤ) (k : Codec) (c : Call)
    (s : PinentrySession) (passphrase : String)
    → ReadsHex k.to_int
    → s.awaiting_terminal_result ≡ false
    → ((ensure_flow_cookie c s).flow_cookie == "") ≡ false
    → (passphrase == "") ≡ false
    → validate_result_owner a.pinentry (ensure_flow_cookie c s).flow_cookie pid ≡ true
    → c.send_request (password_request (ensure_flow_cookie c s))
      ≡ some
          (handle_response later
            (handle_request w a (password_request (ensure_flow_cookie c s)) socket pid)
            (ensure_flow_cookie c s).flow_cookie
            passphrase).0
    → IsDelivered k (handle_get_pin k c s) (ensure_flow_cookie c s).flow_cookie passphrase
get_pin-IsDelivered w later a socket pid k c s passphrase law idle named full owner sent =
    let q = password_request (ensure_flow_cookie c s) in
    let r = read_request w q socket pid in
    let reads = password_request-IsRead w (ensure_flow_cookie c s) socket pid named in
    let served =
      handle_request-IsServed w later a q socket pid passphrase (rw reads.cookie owner) in
    answered-IsDelivered later k c s r passphrase law idle reads.confirm_read full (
      sent
      ∙ ap some (
          ap (λ x. (handle_response later (handle_request w a q socket pid) x passphrase).0)
            (sym reads.cookie)
          ∙ served.1))

-- gpg-agent is told that the operation was cancelled, while the next report is a success.
abbrev pub IsTornApart : Call → List Effect × Bool × PinentrySession → String → Type 0
IsTornApart c (es, goes_on, next) cookie =
    (printed es ≡ operation_cancelled)
    × (next.flow_cookie ≡ cookie)
    × (finalize_on_stream_close c next ≡ report_terminal_result c "success" "" next)

-- An empty passphrase that the daemon gives as its answer is printed as a cancelled operation, yet the
-- flow awaits its result: when the stream is closed next, success is reported to the daemon.
pub empty_pin-IsTornApart :
    (k : Codec) (c last : Call) (s : PinentrySession) (r : Object)
    → s.awaiting_terminal_result ≡ false
    → to_string (value "type" r) ≡ "pinentry_response"
    → to_string (value "result" r) ≡ "ok"
    → to_string (value "password" r) ≡ ""
    → c.send_request (password_request (ensure_flow_cookie c s)) ≡ some r
    → IsTornApart last (handle_get_pin k c s) (ensure_flow_cookie c s).flow_cookie
unfolding handle_get_pin report_retry request_password_from_daemon printed finalize_on_stream_close
empty_pin-IsTornApart k c last s r idle typed told empty sent =
    rw (not_retried c s idle, sent, typed, told, empty) (refl, refl, refl)
