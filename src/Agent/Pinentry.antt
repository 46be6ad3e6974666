-- ===== src/Agent/Pinentry.antt =====
-- src/core/managers/PinentryManager.{hpp,cpp}: a pinentry flow waits for input (pending), then for
-- the outcome that pinentry reports (awaiting), and is closed at its end or by a timeout.
pub mod Closing
pub mod Ownership
pub mod RoundTrip
use bb_auth.Prelude.{
  ℕ, Bool, true, false, Option, none, some, String, List, [], ◌∷◌, ◌||◌, not, if◌then◌else◌, ◌==◌,
  string_eq, nat_eq, is_some,
}
use bb_auth.Prelude.Int.{ℤ, pos, ltb_ℤ, eqb_ℤ}
use bb_auth.Prelude.Hash.{Hash, find, insert, remove, contains}
use bb_auth.Json.{Object, str, end, field, value, to_string, to_bool}
use bb_auth.Session.{
  Session, Requestor, Context, new_context, Result, pinentry, is_pinentry, success, cancelled,
  error,
}
use bb_auth.SessionStore.{get_session}
use bb_auth.Agent.State.{Agent, World, Pinentry, PinentryRequest, PinentryRetryInfo, text_or}
use bb_auth.Agent.Sessions.{
  create_session, update_session_prompt, update_session_error, update_session_pinentry_retry,
  close_session,
}
use bb_auth.Agent.Keyring.{error_reply, write_open}

abbrev pub ok_reply : Object
ok_reply = field "type" (str "ok") end

unfoldable pub read_request : World → Object → ℕ → ℤ → PinentryRequest
read_request w msg socket peer_pid = record {
  cookie = text_or (to_string (value "cookie" msg)) w.uuid;
  socket = socket;
  peer_pid = peer_pid;
  prompt = text_or (to_string (value "prompt" msg)) "Enter passphrase:";
  description = to_string (value "description" msg);
  error = to_string (value "error" msg);
  keyinfo = to_string (value "keyinfo" msg);
  repeat = to_bool (value "repeat" msg);
  confirm_only = to_bool (value "confirm_only" msg);
}

-- resolveRetryInfo. `parsed` are the numbers in the description, if there are any.
abbrev pub clamped : ℤ × ℤ → ℤ × ℤ
clamped (cur, max) =
    ((if ltb_ℤ cur (pos 0) then pos 0 else cur), (if ltb_ℤ (pos 0) max then max else pos 3))

abbrev known_info : Option PinentryRetryInfo → PinentryRetryInfo
known_info none = record { keyinfo = ""; cur_retry = pos 0; max_retries = pos 0 }
known_info (some i) = i

unfoldable pub counts : Pinentry → String → Option (ℤ × ℤ) → (ℤ × ℤ) × Pinentry
counts p keyinfo (some (cur, max)) = (
  (cur, max),
  (if keyinfo == "" then p else record p {
    retry_info =
        insert keyinfo (record { keyinfo = keyinfo; cur_retry = cur; max_retries = max })
          p.retry_info;
  }),
)
counts p keyinfo none =
    let info = known_info (find keyinfo p.retry_info) in
    if keyinfo == "" then ((pos 0, pos 3), p) else (
      (info.cur_retry, (if ltb_ℤ (pos 0) info.max_retries then info.max_retries else pos 3)),
      record p { retry_info = insert keyinfo (record info { keyinfo = keyinfo }) p.retry_info },
    )

unfoldable pub resolve_retry_info : World → Pinentry → PinentryRequest → (ℤ × ℤ) × Pinentry
unfolding counts
resolve_retry_info w p r =
    let (found, q) = counts p r.keyinfo (w.match_retries r.description) in (clamped found, q)

abbrev owned_by : Option ℤ → ℤ → Bool
owned_by none pid = true
owned_by (some owner) pid = eqb_ℤ owner pid

-- validateResultOwner; `handleRequest` makes the same test.
unfoldable pub validate_result_owner : Pinentry → String → ℤ → Bool
validate_result_owner p cookie peer_pid = owned_by (find cookie p.flow_owners) peer_pid

-- The entry and the timer of a flow that awaits its outcome.
unfoldable pub cleanup_awaiting : Pinentry → String → Pinentry
cleanup_awaiting p cookie = record p { awaiting_outcome = remove cookie p.awaiting_outcome }

abbrev pub is_pinentry_session : Option Session → Bool
is_pinentry_session none = false
is_pinentry_session (some s) = is_pinentry s.source

abbrev pub text_of : Option String → String
text_of none = ""
text_of (some s) = s

-- What `closeFlow` forgets.
unfoldable pub forget_flow : Pinentry → String → Pinentry
unfolding cleanup_awaiting
forget_flow p cookie =
    let keyinfo = text_of (find cookie p.flow_keyinfos) in
    let q = cleanup_awaiting p cookie in
    record q {
      pending_requests = remove cookie q.pending_requests;
      flow_owners = remove cookie q.flow_owners;
      retry_reported = remove cookie q.retry_reported;
      flow_keyinfos = remove cookie q.flow_keyinfos;
      retry_info = if keyinfo == "" then q.retry_info else remove keyinfo q.retry_info;
    }

-- The owner and the key of the flow of a request.
abbrev pub claim : Pinentry → PinentryRequest → Pinentry
claim p r = record p {
  flow_owners = insert r.cookie r.peer_pid p.flow_owners;
  flow_keyinfos =
      if r.keyinfo == "" then p.flow_keyinfos else insert r.cookie r.keyinfo p.flow_keyinfos;
}

abbrev pub add_pending : Pinentry → PinentryRequest → Pinentry
add_pending p r = record p { pending_requests = insert r.cookie r p.pending_requests }

abbrev clear_reported : Pinentry → String → Pinentry
clear_reported p cookie = record p { retry_reported = remove cookie p.retry_reported }

-- What the safety branch of `handleRequest` takes back.
abbrev pub drop_collided : Pinentry → PinentryRequest → Pinentry
drop_collided p r = record p {
  pending_requests = remove r.cookie p.pending_requests;
  flow_owners = remove r.cookie p.flow_owners;
  flow_keyinfos = if r.keyinfo == "" then p.flow_keyinfos else remove r.cookie p.flow_keyinfos;
}

-- From pending to awaiting, with a new timer.
abbrev await : Pinentry → String → PinentryRequest → Pinentry
await p cookie r = record p {
  pending_requests = remove cookie p.pending_requests;
  awaiting_outcome = insert cookie r (remove cookie p.awaiting_outcome);
}

abbrev pub report_retry : Pinentry → String → Pinentry
report_retry p cookie = record p {
  awaiting_outcome = remove cookie p.awaiting_outcome;
  retry_reported = insert cookie tt p.retry_reported;
}

module _ (w : World) where
  -- An error text is reported only if it is not empty.
  abbrev pub report : Agent → String → String → Agent
  report a cookie text = if text == "" then a else update_session_error w a cookie text

  unfoldable pub close_flow : Agent → String → Result → String → Agent
  unfolding forget_flow
  close_flow a cookie result text =
      let b =
        if is_pinentry_session (get_session a.sessions cookie)
        then close_session w (report a cookie text) cookie result
        else a in
      record b { pinentry = forget_flow b.pinentry cookie }

  unfoldable pub context_of : PinentryRequest → ℤ × ℤ → Requestor → Context
  context_of r (cur, max) actor = record new_context {
    message = r.prompt;
    description = r.description;
    keyinfo = r.keyinfo;
    cur_retry = cur;
    max_retries = max;
    confirm_only = r.confirm_only;
    repeat = r.repeat;
    requestor = record actor { pid = r.peer_pid };
  }

  -- A request while the outcome was awaited means that the last answer was wrong.
  unfoldable pub retry_awaited : Agent → PinentryRequest → Agent
  unfolding cleanup_awaiting
  retry_awaited a r =
      if contains r.cookie a.pinentry.awaiting_outcome
      then update_session_error w (record a { pinentry = cleanup_awaiting a.pinentry r.cookie })
          r.cookie (text_or r.error "Authentication failed")
      else a

  -- The prompt, and the request's error unless a retry was reported for it already.
  unfoldable pub show : Agent → PinentryRequest → Agent
  show a r =
      let b = update_session_prompt w a r.cookie r.prompt false false in
      if contains r.cookie b.pinentry.retry_reported
      then record b { pinentry = clear_reported b.pinentry r.cookie }
      else report b r.cookie r.error

  unfoldable pub opened : PinentryRequest → Bool × Agent → Agent
  unfolding show
  opened r (true, a) = show a r
  opened r (false, a) =
      write_open w (record a { pinentry = drop_collided a.pinentry r }) r.socket
        (error_reply "Session ID collision")

  unfoldable pub accept : Agent → PinentryRequest → Agent
  unfolding opened retry_awaited resolve_retry_info context_of
  accept a r =
      let (retry, p) = resolve_retry_info w (claim a.pinentry r) r in
      let exists = is_some (get_session a.sessions r.cookie) in
      let b = retry_awaited (record a { pinentry = p }) r in
      let c = record b { pinentry = add_pending b.pinentry r } in
      if exists
      then show (update_session_pinentry_retry w c r.cookie retry.0 retry.1) r
      else opened r
          (create_session w c r.cookie pinentry (context_of r retry (w.resolve_actor r.peer_pid)))

  unfoldable pub handle_request : Agent → Object → ℕ → ℤ → Agent
  unfolding accept read_request validate_result_owner
  handle_request a msg socket peer_pid =
      let r = read_request w msg socket peer_pid in
      if validate_result_owner a.pinentry r.cookie peer_pid then accept a r else a

  abbrev pub answer : PinentryRequest → String → Object
  answer r response =
      if r.confirm_only
      then field "type" (str "pinentry_response")
          (field "id" (str r.cookie) (field "result" (str "confirmed") end))
      else field "type" (str "pinentry_response") (
          field "id" (str r.cookie)
            (field "result" (str "ok") (field "password" (str response) end)))

  responded : Agent → String → String → Option PinentryRequest → Object × Agent
  responded a cookie response none = (
    error_reply (
        if contains cookie a.pinentry.awaiting_outcome
        then "Session is already awaiting terminal result"
        else "Unknown session"),
    a,
  )
  responded a cookie response (some r) = (
    answer (record r { cookie = cookie }) response,
    record a { pinentry = await a.pinentry cookie r },
  )

  unfoldable pub handle_response : Agent → String → String → Object × Agent
  unfolding responded
  handle_response a cookie response =
      responded a cookie response (find cookie a.pinentry.pending_requests)

  -- The timeout of a flow that awaits its outcome.
  unfoldable pub on_timeout : Agent → String → Agent
  unfolding close_flow
  on_timeout a cookie = close_flow a cookie error "Pinentry did not report terminal result"

  unfoldable pub apply_result : Agent → String → String → String → Object × Agent
  unfolding close_flow
  apply_result a cookie result reason =
      let failure = text_or reason "Authentication failed" in
      if result == "success"
      then (ok_reply, close_flow a cookie success "")
      else if result == "retry"
      then (
        ok_reply,
        update_session_error w (record a { pinentry = report_retry a.pinentry cookie }) cookie
            failure,
      )
      else if result == "cancelled" || result == "canceled"
      then (ok_reply, close_flow a cookie cancelled "")
      else if result == "error"
      then (ok_reply, close_flow a cookie error failure)
      else (error_reply "Invalid result type", a)

  unfoldable pub handle_result : Agent → Object → ℤ → Object × Agent
  unfolding apply_result validate_result_owner
  handle_result a msg peer_pid =
      let cookie = to_string (value "id" msg) in
      if cookie == ""
      then (error_reply "Missing id", a)
      else if not (validate_result_owner a.pinentry cookie peer_pid)
      then (error_reply "Result sender does not own session", a)
      else if not (is_pinentry_session (get_session a.sessions cookie))
      then (error_reply "Unknown pinentry session", a)
      else apply_result a cookie (w.to_lower (to_string (value "result" msg)))
          (to_string (value "error" msg))

  unfoldable pub handle_cancel : Agent → String → Object × Agent
  unfolding close_flow
  handle_cancel a cookie =
      if contains cookie a.pinentry.pending_requests
        || (contains cookie a.pinentry.awaiting_outcome
            || is_pinentry_session (get_session a.sessions cookie))
      then (
        field "type" (str "pinentry_response")
            (field "id" (str cookie) (field "result" (str "cancelled") end)),
        close_flow a cookie cancelled "",
      )
      else (error_reply "Unknown session", a)

  -- The cookies whose input is awaited by a socket.
  unfoldable pub cookies_of : ℕ → Hash String PinentryRequest → List String
  cookies_of socket [] = []
  cookies_of socket ((cookie, r) ∷ rest) =
      let others = cookies_of socket rest in if r.socket == socket then cookie ∷ others else others

  unfoldable pub close_flows : Agent → List String → Agent
  unfolding close_flow
  close_flows a [] = a
  close_flows a (cookie ∷ rest) =
      close_flows (close_flow a cookie cancelled "Pinentry disconnected") rest

  unfoldable pub cleanup_for_socket : Agent → ℕ → Agent
  unfolding cookies_of close_flows
  cleanup_for_socket a socket = close_flows a (cookies_of socket a.pinentry.pending_requests)

unfoldable pub has_pending_input : Agent → String → Bool
has_pending_input a cookie = contains cookie a.pinentry.pending_requests

unfoldable pub has_request : Agent → String → Bool
has_request a cookie =
    contains cookie a.pinentry.pending_requests
    || (contains cookie a.pinentry.awaiting_outcome
        || is_pinentry_session (get_session a.sessions cookie))

unfoldable pub is_awaiting_outcome : Agent → String → Bool
is_awaiting_outcome a cookie = contains cookie a.pinentry.awaiting_outcome

abbrev socket_of : Option PinentryRequest → Option ℕ
socket_of none = none
socket_of (some r) = some r.socket

unfoldable pub get_socket_for_pending_input : Agent → String → Option ℕ
get_socket_for_pending_input a cookie = socket_of (find cookie a.pinentry.pending_requests)
