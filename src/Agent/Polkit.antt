-- ===== src/Agent/Polkit.antt =====
-- src/core/PolkitListener.{hpp,cpp} and CAgent::onPolkitRequest. PolkitQt1's sessions are numbers, and
-- what the listener asks of them is recorded in `calls`; their signals are the handlers below. A
-- `SessionState*` is the cookie under which the state is stored.
pub mod Attempts
use bb_auth.Prelude.{
  ℕ, suc, Bool, true, false, Option, none, some, String, List, [], ◌∷◌, ◌++◌, ◌||◌, not,
  if◌then◌else◌, ◌==◌, string_eq, nat_eq, ltb,
}
use bb_auth.Prelude.Hash.{Hash, find, insert, remove, contains, keys}
use bb_auth.Session.{Requestor, Context, new_context, new_requestor, polkit}
use bb_auth.Agent.State.{
  Agent, World, Listener, SessionState, PolkitCall, initiates, cancels, responds, fails, completes,
}
use bb_auth.Agent.Sessions.{
  create_session, on_session_request, on_session_complete, on_session_retry, on_session_info,
}

abbrev pub max_auth_retries : ℕ
max_auth_retries = 3

-- An authentication that polkit asks for. `actor` is what RequestContextHelper finds out about the
-- subject in the details, if there is one whose process can be read.
pub record PolkitRequest : Type 0 where
  pub cookie : String
  pub message : String
  pub action_id : String
  pub identities : List String
  pub async_result : ℕ
  pub actor : Option Requestor

abbrev named : Requestor → Requestor
named r =
    if r.name == ""
    then record r { name = "Unknown"; fallback_letter = "?"; fallback_key = "unknown" }
    else r

abbrev or_new : Option Requestor → Requestor
or_new none = new_requestor
or_new (some r) = r

unfoldable pub polkit_context : PolkitRequest → String → Context
polkit_context q user = record new_context {
  message = q.message;
  action_id = q.action_id;
  user = user;
  requestor = named (or_new q.actor);
}

abbrev pub call : Agent → PolkitCall → Agent
call a c = record a { listener = record l { calls = l.calls ++ c ∷ [] } }
  where
    open a use {listener as l}

abbrev pub put_state : Agent → SessionState → Agent
put_state a st = record a {
  listener = record l { cookie_to_state = insert st.cookie st l.cookie_to_state };
}
  where
    open a use {listener as l}

abbrev forget_session : Option ℕ → Hash ℕ String → Hash ℕ String
forget_session none m = m
forget_session (some n) m = remove n m

-- A new PolkitQt1 session for a state, in place of its old one.
abbrev pub renew_session : Agent → SessionState → Agent
renew_session a st = record a {
  listener = record l {
    cookie_to_state =
        insert st.cookie (record st { session = some l.next_session }) l.cookie_to_state;
    session_to_state =
        insert l.next_session st.cookie (forget_session st.session l.session_to_state);
    next_session = suc l.next_session;
  };
}
  where
    open a use {listener as l}

abbrev pub drop_state : Agent → SessionState → Agent
drop_state a st = record a {
  listener = record l {
    cookie_to_state = remove st.cookie l.cookie_to_state;
    session_to_state = forget_session st.session l.session_to_state;
  };
}
  where
    open a use {listener as l}

-- The stored state of a PolkitQt1 session.
abbrev pub state_at : Listener → Option String → Option SessionState
state_at l none = none
state_at l (some cookie) = find cookie l.cookie_to_state

unfoldable pub find_state_for_session : Agent → ℕ → Option SessionState
find_state_for_session a session = state_at a.listener (find session a.listener.session_to_state)

-- `result->setError(text); result->setCompleted();`
abbrev pub reject : Agent → PolkitRequest → String → Agent
reject a q text = call (call a (fails q.async_result text)) (completes q.async_result)

-- A new session for the state, and `reattempt`.
unfoldable pub start_attempt : Agent → SessionState → Agent
start_attempt a st =
    let n = a.listener.next_session in
    call (renew_session a (record st { was_cancelled = false })) (initiates n)

abbrev pub new_state : PolkitRequest → String → SessionState
new_state q user = record {
  in_progress = true;
  was_cancelled = false;
  gained_auth = false;
  cookie = q.cookie;
  prompt = "";
  error_text = "";
  echo_on = false;
  request_sent = false;
  async_result = q.async_result;
  selected_user = user;
  session = none;
  retry_count = 0;
}

module _ (w : World) where
  unfoldable pub on_polkit_request : Agent → PolkitRequest → String → Bool × Agent
  unfolding polkit_context
  on_polkit_request a q user = create_session w a q.cookie polkit (polkit_context q user)

  -- The agent's answer to the request for the session `n`.
  begun : PolkitRequest → SessionState → ℕ → Bool × Agent → Agent
  begun q st n (true, a) = call a (initiates n)
  begun q st n (false, a) =
      reject (drop_state a (record st { session = some n })) q "Duplicate session"

  unfoldable pub begin : Agent → PolkitRequest → List String → Agent
  unfolding begun
  begin a q [] = reject a q "No identities, this is a problem with your system configuration."
  begin a q (user ∷ _) =
      let st = new_state q user in
      begun q st a.listener.next_session (on_polkit_request (renew_session a st) q user)

  unfoldable pub initiate_authentication : Agent → PolkitRequest → Agent
  unfolding begin on_polkit_request
  initiate_authentication a q =
      if contains q.cookie a.listener.cookie_to_state
      then reject a q "Duplicate session"
      else begin a q q.identities

  -- The end of `finishAuth`: the result is completed and the state deleted.
  unfoldable pub finish : Agent → SessionState → Agent
  finish a st =
      drop_state
        (on_session_complete w (call a (completes st.async_result)) st.cookie st.gained_auth) st

  unfoldable pub finish_auth : Agent → SessionState → Agent
  unfolding finish start_attempt
  finish_auth a st =
      let again = record st { retry_count = suc st.retry_count } in
      if not st.in_progress
      then a
      else if st.gained_auth || st.was_cancelled
      then finish a st
      else if ltb again.retry_count max_auth_retries
      then start_attempt a again
      else finish (on_session_retry w a st.cookie "Too many failed attempts") again

  unfoldable pub session_requested : Agent → String → Bool → Option SessionState → Agent
  session_requested a request echo none = a
  session_requested a request echo (some st) =
      let told = record st { prompt = request; echo_on = echo; request_sent = true } in
      on_session_request w (put_state a told) st.cookie request echo

  unfoldable pub on_request : Agent → ℕ → String → Bool → Agent
  unfolding session_requested find_state_for_session
  on_request a session request echo =
      session_requested a request echo (find_state_for_session a session)

  unfoldable pub session_completed : Agent → Bool → Option SessionState → Agent
  unfolding finish_auth
  session_completed a gained none = a
  session_completed a gained (some st) =
      let told = record st {
        gained_auth = gained;
        error_text = if gained then st.error_text else "Authentication failed";
      } in
      let b = put_state a told in
      finish_auth (if gained then b else on_session_retry w b st.cookie "Authentication failed")
        told

  unfoldable pub on_completed : Agent → ℕ → Bool → Agent
  unfolding session_completed find_state_for_session
  on_completed a session gained = session_completed a gained (find_state_for_session a session)

  unfoldable pub session_failed : Agent → String → Option SessionState → Agent
  session_failed a text none = a
  session_failed a text (some st) =
      on_session_retry w (put_state a (record st { error_text = text })) st.cookie text

  unfoldable pub on_error : Agent → ℕ → String → Agent
  unfolding session_failed find_state_for_session
  on_error a session text = session_failed a text (find_state_for_session a session)

  unfoldable pub session_informed : Agent → String → Option SessionState → Agent
  session_informed a text none = a
  session_informed a text (some st) = on_session_info w a st.cookie text

  unfoldable pub on_info : Agent → ℕ → String → Agent
  unfolding session_informed find_state_for_session
  on_info a session text = session_informed a text (find_state_for_session a session)

  unfoldable pub cancel_state : Agent → Option SessionState → Agent
  unfolding finish_auth
  cancel_state a none = a
  cancel_state a (some st) =
      let told = record st { was_cancelled = true } in finish_auth (put_state a told) told

  unfoldable pub cancel_states : Agent → List String → Agent
  unfolding cancel_state
  cancel_states a [] = a
  cancel_states a (cookie ∷ rest) =
      cancel_states (cancel_state a (find cookie a.listener.cookie_to_state)) rest

  -- Polkit gives up: all the sessions at that time are cancelled.
  unfoldable pub cancel_authentication : Agent → Agent
  unfolding cancel_states
  cancel_authentication a = cancel_states a (keys a.listener.cookie_to_state)

  unfoldable pub cancel_session : Agent → Option SessionState → Option ℕ → Agent
  unfolding cancel_state
  cancel_session a st none = a
  cancel_session a st (some n) = cancel_state (call a (cancels n)) st

unfoldable pub session_of : Option SessionState → Option ℕ
session_of none = none
session_of (some st) = st.session

respond_to : Agent → String → Option ℕ → Agent
respond_to a pass none = a
respond_to a pass (some n) = call a (responds n pass)

unfoldable pub submit_password : Agent → String → String → Agent
unfolding respond_to session_of
submit_password a cookie pass =
    respond_to a pass (session_of (find cookie a.listener.cookie_to_state))

unfoldable pub cancel_pending : World → Agent → String → Agent
unfolding cancel_session session_of
cancel_pending w a cookie =
    let st = find cookie a.listener.cookie_to_state in cancel_session w a st (session_of st)
