-- ===== src/Agent/Polkit/Attempts.antt =====
-- The attempts at one authentication.
use bb_auth.Prelude.{
  suc, ◌≡◌, refl, ap, ◌∙◌, Bool, true, false, none, some, String, [], ◌∷◌, ◌++◌, arith, string_eq,
  ltb, ◌||◌, not, if◌then◌else◌,
}
use bb_auth.Prelude.Hash.{find, find-remove_self, find-insert_self}
use bb_auth.Agent.State.{Agent, World, SessionState, initiates, completes}
use bb_auth.Agent.Sessions.{on_session_complete, on_session_retry}
use bb_auth.Agent.Frame.{on_session_complete-managed, on_session_retry-managed}
use bb_auth.Agent.Polkit.{finish, finish_auth, start_attempt, call, drop_state}

-- The result is completed and the state forgotten.
abbrev pub IsFinished : Agent → SessionState → Agent → Type 0
IsFinished a st b =
    (b.listener.calls ≡ a.listener.calls ++ completes st.async_result ∷ [])
    × (find st.cookie b.listener.cookie_to_state ≡ none)

-- A new session is started for the state, with one failure more on record than before.
abbrev pub IsRetried : Agent → SessionState → Agent → Type 0
IsRetried a st b =
    (b.listener.calls ≡ a.listener.calls ++ initiates a.listener.next_session ∷ [])
    × (find st.cookie b.listener.cookie_to_state
        ≡ some (record st {
          was_cancelled = false;
          session = some a.listener.next_session;
          retry_count = suc st.retry_count;
        }))

finished :
    (a b : Agent) (st : SessionState)
    → b.listener ≡ (call a (completes st.async_result)).listener
    → IsFinished a st (drop_state b st)
finished a b st h = (ap (λ l. l.calls) h, find-remove_self st.cookie b.listener.cookie_to_state)

module _ (w : World) where
  finish-IsFinished : (a : Agent) (st : SessionState) → IsFinished a st (finish w a st)
  unfolding finish
  finish-IsFinished a st =
      let b = call a (completes st.async_result) in
      finished a (on_session_complete w b st.cookie st.gained_auth) st
        (ap (λ m. m.2) (on_session_complete-managed w b st.cookie st.gained_auth))

  start_attempt-IsRetried :
      (a : Agent) (st : SessionState)
      → IsRetried a st (start_attempt a (record st { retry_count = suc st.retry_count }))
  unfolding start_attempt
  start_attempt-IsRetried a st =
      let again = record st {
        was_cancelled = false;
        session = some a.listener.next_session;
        retry_count = suc st.retry_count;
      } in
      (refl, find-insert_self st.cookie again a.listener.cookie_to_state)

  failed-IsFinished :
      (a : Agent) (st : SessionState) (text : String)
      → IsFinished a st (
          finish w
            (on_session_retry w a st.cookie text)
            (record st { retry_count = suc st.retry_count }))
  failed-IsFinished a st text =
      let b = on_session_retry w a st.cookie text in
      let (calls, gone) = finish-IsFinished b (record st { retry_count = suc st.retry_count }) in
      let kept =
        ap (λ m. m.2.calls ++ completes st.async_result ∷ [])
          (on_session_retry-managed w a st.cookie text) in
      (calls ∙ kept, gone)

-- The authentication was granted or given up, or this was the third failure.
abbrev pub is_over : SessionState → Bool
is_over st = st.gained_auth || (st.was_cancelled || not (ltb (suc st.retry_count) 3))

abbrev pub Outcome : Bool → Agent → SessionState → Agent → Type 0
Outcome true a st b = IsFinished a st b
Outcome false a st b = IsRetried a st b

if-Outcome :
    (p g c l : Bool) (a : Agent) (st : SessionState) (x y z : Agent)
    → p ≡ true
    → IsFinished a st x
    → IsRetried a st y
    → IsFinished a st z
    → Outcome
        (g || (c || not l))
        a
        st
        (if not p then a else if g || c then x else if l then y else z)
if-Outcome false g c l a st x y z h k m n = absurd (ground (arith, h))
if-Outcome true true c l a st x y z h k m n = k
if-Outcome true false true l a st x y z h k m n = k
if-Outcome true false false true a st x y z h k m n = m
if-Outcome true false false false a st x y z h k m n = n

-- The end of an attempt at an authentication that is in progress: if it was granted or given up, or if
-- it failed for the third time, polkit's result is completed, once, and the state is forgotten;
-- otherwise exactly one new session is started, and the failure is counted.
pub finish_auth-Outcome :
    (w : World) (a : Agent) (st : SessionState)
    → st.in_progress ≡ true
    → Outcome (is_over st) a st (finish_auth w a st)
unfolding finish_auth
finish_auth-Outcome w a st h =
    let again = record st { retry_count = suc st.retry_count } in
    if-Outcome st.in_progress st.gained_auth st.was_cancelled (ltb (suc st.retry_count) 3) a st
      (finish w a st) (start_attempt a again)
      (finish w (on_session_retry w a st.cookie "Too many failed attempts") again) h
      (finish-IsFinished w a st) (start_attempt-IsRetried w a st)
      (failed-IsFinished w a st "Too many failed attempts")
