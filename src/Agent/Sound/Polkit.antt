-- ===== src/Agent/Sound/Polkit.antt =====
-- The polkit listener keeps the agent sound.
use bb_auth.Prelude.{
  ℕ, suc, Bool, true, false, Option, none, some, String, List, [], ◌∷◌, arith, string_eq, nat_eq,
}
use bb_auth.Prelude.Hash.{find, keys}
use bb_auth.Session.{polkit}
use bb_auth.Agent.State.{Agent, World, SessionState, completes, cancels}
use bb_auth.Agent.Polkit
use bb_auth.Agent.Polkit.{PolkitRequest}
use bb_auth.Agent.Sessions.{on_session_retry}
use bb_auth.Agent.Sound.{
  IsSound, create_session-IsSound, on_session_complete-IsSound, on_session_request-IsSound,
  on_session_retry-IsSound, on_session_info-IsSound,
}

module _ (w : World) where
  keep_state-IsSound : (a : Agent) (st : SessionState) → IsSound a → IsSound (Polkit.finish w a st)
  unfolding Polkit.finish
  keep_state-IsSound a st h =
      let b = Polkit.call a (completes st.async_result) in
      on_session_complete-IsSound w b st.cookie st.gained_auth h

  finish_auth-IsSound :
      (a : Agent) (st : SessionState) → IsSound a → IsSound (Polkit.finish_auth w a st)
  unfolding Polkit.finish_auth Polkit.start_attempt
  finish_auth-IsSound a st h =
      let again = record st { retry_count = suc st.retry_count } in
      let b = on_session_retry w a st.cookie "Too many failed attempts" in
      ground (
        arith,
        keep_state-IsSound a st h,
        keep_state-IsSound b again
            (on_session_retry-IsSound w a st.cookie "Too many failed attempts" h),
      )

  begin-IsSound :
      (a : Agent) (q : PolkitRequest) (users : List String)
      → IsSound a
      → IsSound (Polkit.begin w a q users)
  unfolding Polkit.begin Polkit.on_polkit_request
  begin-IsSound a q [] h = h
  begin-IsSound a q (user ∷ _) h =
      let b = Polkit.renew_session a (Polkit.new_state q user) in
      ground (arith, create_session-IsSound w b q.cookie polkit (Polkit.polkit_context q user) h)

  pub initiate_authentication-IsSound :
      (a : Agent) (q : PolkitRequest) → IsSound a → IsSound (Polkit.initiate_authentication w a q)
  unfolding Polkit.initiate_authentication
  initiate_authentication-IsSound a q h = ground (arith, begin-IsSound a q q.identities h)

  session_requested-IsSound :
      (a : Agent) (request : String) (echo : Bool) (o : Option SessionState)
      → IsSound a
      → IsSound (Polkit.session_requested w a request echo o)
  unfolding Polkit.session_requested
  session_requested-IsSound a request echo none h = h
  session_requested-IsSound a request echo (some st) h =
      let told = record st { prompt = request; echo_on = echo; request_sent = true } in
      on_session_request-IsSound w (Polkit.put_state a told) st.cookie request echo h

  pub on_request-IsSound :
      (a : Agent) (session : ℕ) (request : String) (echo : Bool)
      → IsSound a
      → IsSound (Polkit.on_request w a session request echo)
  unfolding Polkit.on_request
  on_request-IsSound a session request echo h =
      session_requested-IsSound a request echo (Polkit.find_state_for_session a session) h

  session_completed-IsSound :
      (a : Agent) (g : Bool) (o : Option SessionState)
      → IsSound a
      → IsSound (Polkit.session_completed w a g o)
  unfolding Polkit.session_completed
  session_completed-IsSound a g none h = h
  session_completed-IsSound a true (some st) h =
      let told = record st { gained_auth = true } in
      finish_auth-IsSound (Polkit.put_state a told) told h
  session_completed-IsSound a false (some st) h =
      let told = record st { gained_auth = false; error_text = "Authentication failed" } in
      let b = Polkit.put_state a told in
      finish_auth-IsSound (on_session_retry w b st.cookie "Authentication failed") told
        (on_session_retry-IsSound w b st.cookie "Authentication failed" h)

  pub on_completed-IsSound :
      (a : Agent) (session : ℕ) (gained : Bool)
      → IsSound a
      → IsSound (Polkit.on_completed w a session gained)
  unfolding Polkit.on_completed
  on_completed-IsSound a session gained h =
      session_completed-IsSound a gained (Polkit.find_state_for_session a session) h

  session_failed-IsSound :
      (a : Agent) (text : String) (o : Option SessionState)
      → IsSound a
      → IsSound (Polkit.session_failed w a text o)
  unfolding Polkit.session_failed
  session_failed-IsSound a text none h = h
  session_failed-IsSound a text (some st) h =
      on_session_retry-IsSound w (Polkit.put_state a (record st { error_text = text })) st.cookie
        text h

  pub on_error-IsSound :
      (a : Agent) (session : ℕ) (text : String)
      → IsSound a
      → IsSound (Polkit.on_error w a session text)
  unfolding Polkit.on_error
  on_error-IsSound a session text h =
      session_failed-IsSound a text (Polkit.find_state_for_session a session) h

  session_informed-IsSound :
      (a : Agent) (text : String) (o : Option SessionState)
      → IsSound a
      → IsSound (Polkit.session_informed w a text o)
  unfolding Polkit.session_informed
  session_informed-IsSound a text none h = h
  session_informed-IsSound a text (some st) h = on_session_info-IsSound w a st.cookie text h

  pub on_info-IsSound :
      (a : Agent) (session : ℕ) (text : String)
      → IsSound a
      → IsSound (Polkit.on_info w a session text)
  unfolding Polkit.on_info
  on_info-IsSound a session text h =
      session_informed-IsSound a text (Polkit.find_state_for_session a session) h

  cancel_state-IsSound :
      (a : Agent) (o : Option SessionState) → IsSound a → IsSound (Polkit.cancel_state w a o)
  unfolding Polkit.cancel_state
  cancel_state-IsSound a none h = h
  cancel_state-IsSound a (some st) h =
      let told = record st { was_cancelled = true } in
      finish_auth-IsSound (Polkit.put_state a told) told h

  cancel_states-IsSound :
      (a : Agent) (cookies : List String) → IsSound a → IsSound (Polkit.cancel_states w a cookies)
  unfolding Polkit.cancel_states
  cancel_states-IsSound a [] h = h
  cancel_states-IsSound a (c ∷ cs) h =
      let o = find c a.listener.cookie_to_state in
      cancel_states-IsSound (Polkit.cancel_state w a o) cs (cancel_state-IsSound a o h)

  pub cancel_authentication-IsSound :
      (a : Agent) → IsSound a → IsSound (Polkit.cancel_authentication w a)
  unfolding Polkit.cancel_authentication
  cancel_authentication-IsSound a h = cancel_states-IsSound a (keys a.listener.cookie_to_state) h

  pub submit_password-IsSound :
      (a : Agent) (cookie pass : String)
      → IsSound a
      → IsSound (Polkit.submit_password a cookie pass)
  unfolding Polkit.submit_password
  submit_password-IsSound a cookie pass h = ground arith

  cancel_session-IsSound :
      (a : Agent) (st : Option SessionState) (n : Option ℕ)
      → IsSound a
      → IsSound (Polkit.cancel_session w a st n)
  unfolding Polkit.cancel_session
  cancel_session-IsSound a st none h = h
  cancel_session-IsSound a st (some n) h = cancel_state-IsSound (Polkit.call a (cancels n)) st h

  pub cancel_pending-IsSound :
      (a : Agent) (cookie : String) → IsSound a → IsSound (Polkit.cancel_pending w a cookie)
  unfolding Polkit.cancel_pending
  cancel_pending-IsSound a cookie h =
      let st = find cookie a.listener.cookie_to_state in
      cancel_session-IsSound a st (Polkit.session_of st) h
