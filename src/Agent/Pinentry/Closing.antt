-- ===== src/Agent/Pinentry/Closing.antt =====
-- What is left of a pinentry flow that is closed.
use bb_auth.Prelude.{
  ◌≡◌, refl, ap, ◌∙◌, Bool, true, false, Option, none, some, String, string_eq, ◌==◌, ◌&&◌, not,
  if◌then◌else◌, arith, eq_refl, Bool-cases, inl, inr,
}
use bb_auth.Prelude.Int.{ℤ}
use bb_auth.Prelude.Hash.{Hash, find, remove, find-remove}
use bb_auth.Session.{Session, Result}
use bb_auth.SessionStore.{get_session}
use bb_auth.Agent.State.{Agent, World, Pinentry, PinentryRetryInfo}
use bb_auth.Agent.Sessions.{close_session}
use bb_auth.Agent.Frame.{managed, if-managed, close_session-managed, update_session_error-managed}
use bb_auth.Agent.Stored.{
  find-close_session, find-update_error, update_session_error-sessions, close_session-sessions,
}
use bb_auth.Agent.Keyring.{error_reply}
use bb_auth.Agent.Pinentry.{
  report, close_flow, forget_flow, cleanup_awaiting, is_pinentry_session, text_of, has_request,
  validate_result_owner, handle_response,
}

-- A flow with this key, which is not empty.
abbrev pub has_key : Option String → String → Bool
has_key none key = false
has_key (some own) key = not (own == "") && own == key

-- The second has no trace of the flow, and of every other flow what the first has.
pub record OnlyForgets (cookie : String) (p q : Pinentry) : Type 0 where
  pub pending :
      (j : String)
      → find j q.pending_requests ≡ (if cookie == j then none else find j p.pending_requests)
  pub awaiting :
      (j : String)
      → find j q.awaiting_outcome ≡ (if cookie == j then none else find j p.awaiting_outcome)
  pub owners :
      (j : String) → find j q.flow_owners ≡ (if cookie == j then none else find j p.flow_owners)
  pub keyinfos :
      (j : String) → find j q.flow_keyinfos ≡ (if cookie == j then none else find j p.flow_keyinfos)
  pub reported :
      (j : String)
      → find j q.retry_reported ≡ (if cookie == j then none else find j p.retry_reported)
  -- the counters are kept by key, which several flows may have
  pub retries :
      (key : String)
      → find key q.retry_info
        ≡ (if has_key (find cookie p.flow_keyinfos) key then none else find key p.retry_info)

retries_left :
    (m : Hash String PinentryRetryInfo) (o : Option String) (key : String)
    → find key (if text_of o == "" then m else remove (text_of o) m)
      ≡ (if has_key o key then none else find key m)
retries_left m none key = refl
retries_left m (some own) key = ground (arith, find-remove own key m)

forget_flow-OnlyForgets :
    (p : Pinentry) (cookie : String) → OnlyForgets cookie p (forget_flow p cookie)
unfolding forget_flow cleanup_awaiting
forget_flow-OnlyForgets p cookie = record {
  pending = λ j. find-remove cookie j p.pending_requests;
  awaiting = λ j. find-remove cookie j p.awaiting_outcome;
  owners = λ j. find-remove cookie j p.flow_owners;
  keyinfos = λ j. find-remove cookie j p.flow_keyinfos;
  reported = λ j. find-remove cookie j p.retry_reported;
  retries = retries_left p.retry_info (find cookie p.flow_keyinfos);
}

module _ (w : World) where
  pub report-managed :
      (a : Agent) (cookie text : String) → managed (report w a cookie text) ≡ managed a
  report-managed a cookie text =
      if-managed (text == "") a _ (managed a) refl (update_session_error-managed w a cookie text)

  close_flow-pinentry :
      (a : Agent) (cookie : String) (result : Result) (text : String)
      → (close_flow w a cookie result text).pinentry ≡ forget_flow a.pinentry cookie
  unfolding close_flow
  close_flow-pinentry a cookie result text =
      let b = close_session w (report w a cookie text) cookie result in
      ap (λ m. forget_flow m.1 cookie)
        (if-managed (is_pinentry_session (get_session a.sessions cookie)) b a (managed a)
          (close_session-managed w (report w a cookie text) cookie result
            ∙ report-managed a cookie text)
          refl)

  close_flow-others :
      (a : Agent) (cookie : String) (result : Result) (text : String)
      → ((close_flow w a cookie result text).keyring ≡ a.keyring)
        × ((close_flow w a cookie result text).listener ≡ a.listener)
  unfolding close_flow
  close_flow-others a cookie result text =
      let b = close_session w (report w a cookie text) cookie result in
      let kept =
        if-managed (is_pinentry_session (get_session a.sessions cookie)) b a (managed a)
          (close_session-managed w (report w a cookie text) cookie result
            ∙ report-managed a cookie text)
          refl in
      (ap (λ m. m.0) kept, ap (λ m. m.2) kept)

  report-find :
      (a : Agent) (cookie text j : String)
      → (if cookie == j then none else find j (report w a cookie text).sessions)
        ≡ (if cookie == j then none else find j a.sessions)
  report-find a cookie text j = elim (Bool-cases (text == "")) [
    | inl e ↦ rw e refl
    | inr e ↦
        rw (e, update_session_error-sessions w a cookie text)
          (find-update_error a.sessions cookie text j)
  ]

  -- The sessions after the flow is closed: its own is gone, if pinentry opened it.
  abbrev pub left : Agent → String → String → Option Session
  left a cookie j =
      if is_pinentry_session (find cookie a.sessions) && cookie == j
      then none
      else find j a.sessions

  close_flow-sessions :
      (a : Agent) (cookie : String) (result : Result) (text j : String)
      → find j (close_flow w a cookie result text).sessions ≡ left a cookie j
  unfolding close_flow get_session
  close_flow-sessions a cookie result text j =
      elim (Bool-cases (is_pinentry_session (find cookie a.sessions))) [
        | inl e ↦
            rw (e, close_session-sessions w (report w a cookie text) cookie result)
              (find-close_session (report w a cookie text).sessions cookie result j
                ∙ report-find a cookie text j)
        | inr e ↦ rw e refl
      ]

  left-closed : (a : Agent) (cookie : String) → is_pinentry_session (left a cookie cookie) ≡ false
  left-closed a cookie = ground (arith, eq_refl cookie)

  -- A flow that is over: the manager has forgotten it and nothing else, its session is closed and no
  -- other, it cannot be answered, and its cookie is free for any process.
  pub record IsOver (a b : Agent) (cookie : String) : Type 0 where
    pub forgotten : OnlyForgets cookie a.pinentry b.pinentry
    pub sessions : (j : String) → find j b.sessions ≡ left a cookie j
    pub others : (b.keyring ≡ a.keyring) × (b.listener ≡ a.listener)
    pub unknown : has_request b cookie ≡ false
    pub free : (pid : ℤ) → validate_result_owner b.pinentry cookie pid ≡ true
    pub unanswerable :
        (response : String)
        → handle_response w b cookie response ≡ (error_reply "Unknown session", b)

  over :
      (a b : Agent) (cookie : String)
      → OnlyForgets cookie a.pinentry b.pinentry
      → ((j : String) → find j b.sessions ≡ left a cookie j)
      → (b.keyring ≡ a.keyring) × (b.listener ≡ a.listener)
      → IsOver a b cookie
  unfolding has_request validate_result_owner handle_response get_session
  over a b cookie h sessions others =
      let self = eq_refl cookie in
      let pending : find cookie b.pinentry.pending_requests ≡ none =
        h.pending cookie ∙ ground (arith, self) in
      let awaiting : find cookie b.pinentry.awaiting_outcome ≡ none =
        h.awaiting cookie ∙ ground (arith, self) in
      let owner : find cookie b.pinentry.flow_owners ≡ none =
        h.owners cookie ∙ ground (arith, self) in
      record {
        forgotten = h;
        sessions = sessions;
        others = others;
        unknown = rw (pending, awaiting, sessions cookie) (left-closed a cookie);
        free = λ pid. rw owner refl;
        unanswerable = λ response. rw (pending, awaiting) refl;
      }

  -- Closing a flow, by whatever result, ends it. Its pending request, the wait for its outcome, its
  -- owner, its key, its retry mark and the retry counters under its key (also another flow's that has
  -- the same key) are removed, and nothing else of the manager. Its session is closed, if it is one
  -- of pinentry; no other session, no keyring request and nothing of polkit changes. Afterwards the
  -- flow is unknown: it cannot be answered, and any process may open one under its cookie.
  pub close_flow-IsOver :
      (a : Agent) (cookie : String) (result : Result) (text : String)
      → IsOver a (close_flow w a cookie result text) cookie
  close_flow-IsOver a cookie result text =
      over a (close_flow w a cookie result text) cookie
        (rw (close_flow-pinentry a cookie result text) (forget_flow-OnlyForgets a.pinentry cookie))
        (close_flow-sessions a cookie result text) (close_flow-others a cookie result text)
