-- ===== src/Agent/Sound/Managers.antt =====
-- The managers of requests and the polkit listener keep the agent sound.
use bb_auth.Prelude.{
  ℕ, Bool, true, false, String, List, [], ◌∷◌, arith, ◌||◌, not, string_eq, nat_eq, ◌==◌,
  if◌then◌else◌, inl, inr, Bool-cases,
}
use bb_auth.Prelude.Int.{ℤ}
use bb_auth.Prelude.Hash.{Hash, insert, remove}
use bb_auth.Json.{Object, value, to_string}
use bb_auth.Session.{Result, keyring, pinentry, success, cancelled, error}
use bb_auth.SessionStore.{get_session}
use bb_auth.Agent.State.{Agent, World, KeyringRequest, PinentryRequest, text_or}
use bb_auth.Agent.Keyring
use bb_auth.Agent.Pinentry
use bb_auth.Agent.Sessions.{
  create_session, close_session, update_session_prompt, update_session_pinentry_retry,
}
use bb_auth.Agent.Sound.{
  IsSound, if-IsSound, create_session-IsSound, close_session-IsSound, update_session_prompt-IsSound,
  update_session_error-IsSound, update_session_pinentry_retry-IsSound,
}

reply-IsSound :
    (b : Bool) (x y : Object × Agent) → IsSound x.1 → IsSound y.1 → IsSound (if b then x else y).1
reply-IsSound true x y h k = h
reply-IsSound false x y h k = k

module _ (w : World) where
  pub keyring-handle_request-IsSound :
      (a : Agent) (msg : Object) (socket : ℕ) (pid : ℤ)
      → IsSound a
      → IsSound (Keyring.handle_request w a msg socket pid)
  unfolding Keyring.handle_request
  keyring-handle_request-IsSound a msg socket pid h =
      let r = Keyring.read_request w msg socket pid in
      let b = record a { keyring = insert r.cookie r a.keyring } in
      let made = create_session w b r.cookie keyring (Keyring.context_of r (w.resolve_actor pid)) in
      let k =
        create_session-IsSound w b r.cookie keyring (Keyring.context_of r (w.resolve_actor pid))
          h in
      ground (arith, k, update_session_prompt-IsSound w made.1 r.cookie r.message false true k)

  pub keyring-handle_response-IsSound :
      (a : Agent) (cookie response : String)
      → IsSound a
      → IsSound (Keyring.handle_response w a cookie response).1
  unfolding Keyring.handle_response
  keyring-handle_response-IsSound a cookie response h =
      let b = record a { keyring = remove cookie a.keyring } in
      ground (arith, close_session-IsSound w b cookie success h)

  pub keyring-handle_cancel-IsSound :
      (a : Agent) (cookie : String) → IsSound a → IsSound (Keyring.handle_cancel w a cookie).1
  unfolding Keyring.handle_cancel
  keyring-handle_cancel-IsSound a cookie h =
      let b = record a { keyring = remove cookie a.keyring } in
      ground (arith, close_session-IsSound w b cookie cancelled h)

  cleanup_requests-IsSound :
      (a : Agent) (socket : ℕ) (rs : Hash String KeyringRequest)
      → IsSound a
      → IsSound (Keyring.cleanup_requests w a socket rs)
  unfolding Keyring.cleanup_requests
  cleanup_requests-IsSound a socket [] h = h
  cleanup_requests-IsSound a socket ((key, r) ∷ rs) h =
      let b = record a { keyring = remove key a.keyring } in
      let c = if r.socket == socket then close_session w b r.cookie cancelled else a in
      cleanup_requests-IsSound c socket rs
        (if-IsSound (r.socket == socket) _ _ (close_session-IsSound w b r.cookie cancelled h) h)

  pub keyring-cleanup-IsSound :
      (a : Agent) (socket : ℕ) → IsSound a → IsSound (Keyring.cleanup_for_socket w a socket)
  unfolding Keyring.cleanup_for_socket
  keyring-cleanup-IsSound a socket h = cleanup_requests-IsSound a socket a.keyring h

  report-IsSound :
      (a : Agent) (cookie text : String) → IsSound a → IsSound (Pinentry.report w a cookie text)
  report-IsSound a cookie text h = ground (arith, update_session_error-IsSound w a cookie text h)

  pub close_flow-IsSound :
      (a : Agent) (cookie : String) (result : Result) (text : String)
      → IsSound a
      → IsSound (Pinentry.close_flow w a cookie result text)
  unfolding Pinentry.close_flow
  close_flow-IsSound a cookie result text h =
      let k = report-IsSound a cookie text h in
      ground (arith, close_session-IsSound w (Pinentry.report w a cookie text) cookie result k)

  pub on_timeout-IsSound :
      (a : Agent) (cookie : String) → IsSound a → IsSound (Pinentry.on_timeout w a cookie)
  unfolding Pinentry.on_timeout
  on_timeout-IsSound a cookie h =
      close_flow-IsSound a cookie error "Pinentry did not report terminal result" h

  pub pinentry-handle_response-IsSound :
      (a : Agent) (cookie response : String)
      → IsSound a
      → IsSound (Pinentry.handle_response w a cookie response).1
  unfolding Pinentry.handle_response
  pinentry-handle_response-IsSound a cookie response h = ground arith

  pub pinentry-handle_cancel-IsSound :
      (a : Agent) (cookie : String) → IsSound a → IsSound (Pinentry.handle_cancel w a cookie).1
  unfolding Pinentry.handle_cancel
  pinentry-handle_cancel-IsSound a cookie h =
      ground (arith, close_flow-IsSound a cookie cancelled "" h)

  apply_result-IsSound :
      (a : Agent) (cookie result reason : String)
      → IsSound a
      → IsSound (Pinentry.apply_result w a cookie result reason).1
  unfolding Pinentry.apply_result
  apply_result-IsSound a cookie result reason h =
      let failure = text_or reason "Authentication failed" in
      let b = record a { pinentry = Pinentry.report_retry a.pinentry cookie } in
      let done = close_flow-IsSound a cookie success "" h in
      let gone = close_flow-IsSound a cookie cancelled "" h in
      let failed = close_flow-IsSound a cookie error failure h in
      let told = update_session_error-IsSound w b cookie failure h in
      elim (Bool-cases (result == "success")) [
        | inl e ↦ rw e done
        | inr n ↦ rw n (elim (Bool-cases (result == "retry")) [
          | inl e ↦ rw e told
          | inr m ↦ rw m (elim (Bool-cases (result == "cancelled" || result == "canceled")) [
            | inl e ↦ rw e gone
            | inr k ↦
                rw k
                  (elim (Bool-cases (result == "error")) [ inl e ↦ rw e failed | inr e ↦ rw e h ])
          ])
        ])
      ]

  pub handle_result-IsSound :
      (a : Agent) (msg : Object) (pid : ℤ)
      → IsSound a
      → IsSound (Pinentry.handle_result w a msg pid).1
  unfolding Pinentry.handle_result
  handle_result-IsSound a msg pid h =
      let cookie = to_string (value "id" msg) in
      let applied =
        Pinentry.apply_result w a cookie (w.to_lower (to_string (value "result" msg)))
          (to_string (value "error" msg)) in
      let unknown = Keyring.error_reply "Unknown pinentry session" in
      let known = Pinentry.is_pinentry_session (get_session a.sessions cookie) in
      let foreign = Keyring.error_reply "Result sender does not own session" in
      let mine = Pinentry.validate_result_owner a.pinentry cookie pid in
      reply-IsSound (cookie == "") (Keyring.error_reply "Missing id", a)
        (if not mine then (foreign, a) else if not known then (unknown, a) else applied) h
        (reply-IsSound (not mine) (foreign, a) (if not known then (unknown, a) else applied) h
          (reply-IsSound (not known) (unknown, a) applied h
            (apply_result-IsSound a cookie (w.to_lower (to_string (value "result" msg)))
              (to_string (value "error" msg)) h)))

  -- The steps of `accept`, each from a sound agent.
  retry_awaited-IsSound :
      (a : Agent) (r : PinentryRequest) → IsSound a → IsSound (Pinentry.retry_awaited w a r)
  unfolding Pinentry.retry_awaited
  retry_awaited-IsSound a r h =
      let b = record a { pinentry = Pinentry.cleanup_awaiting a.pinentry r.cookie } in
      ground (
        arith,
        update_session_error-IsSound w b r.cookie (text_or r.error "Authentication failed") h,
      )

  show-IsSound : (a : Agent) (r : PinentryRequest) → IsSound a → IsSound (Pinentry.show w a r)
  unfolding Pinentry.show
  show-IsSound a r h =
      let b = update_session_prompt w a r.cookie r.prompt false false in
      let k = update_session_prompt-IsSound w a r.cookie r.prompt false false h in
      ground (arith, k, report-IsSound b r.cookie r.error k)

  accept-IsSound : (a : Agent) (r : PinentryRequest) → IsSound a → IsSound (Pinentry.accept w a r)
  unfolding Pinentry.accept
  accept-IsSound a r h =
      let (retry, p) = Pinentry.resolve_retry_info w (Pinentry.claim a.pinentry r) r in
      let b = Pinentry.retry_awaited w (record a { pinentry = p }) r in
      let hb = retry_awaited-IsSound (record a { pinentry = p }) r h in
      let c = record b { pinentry = Pinentry.add_pending b.pinentry r } in
      let d = update_session_pinentry_retry w c r.cookie retry.0 retry.1 in
      let hd = update_session_pinentry_retry-IsSound w c r.cookie retry.0 retry.1 hb in
      let ctx = Pinentry.context_of w r retry (w.resolve_actor r.peer_pid) in
      let made = create_session w c r.cookie pinentry ctx in
      let hm = create_session-IsSound w c r.cookie pinentry ctx hb in
      ground (arith, show-IsSound d r hd, hm, show-IsSound made.1 r hm)

  pub pinentry-handle_request-IsSound :
      (a : Agent) (msg : Object) (socket : ℕ) (pid : ℤ)
      → IsSound a
      → IsSound (Pinentry.handle_request w a msg socket pid)
  unfolding Pinentry.handle_request
  pinentry-handle_request-IsSound a msg socket pid h =
      ground (arith, accept-IsSound a (Pinentry.read_request w msg socket pid) h)

  close_flows-IsSound :
      (a : Agent) (cookies : List String) → IsSound a → IsSound (Pinentry.close_flows w a cookies)
  unfolding Pinentry.close_flows
  close_flows-IsSound a [] h = h
  close_flows-IsSound a (c ∷ cs) h =
      close_flows-IsSound (Pinentry.close_flow w a c cancelled "Pinentry disconnected") cs
        (close_flow-IsSound a c cancelled "Pinentry disconnected" h)

  pub pinentry-cleanup-IsSound :
      (a : Agent) (socket : ℕ) → IsSound a → IsSound (Pinentry.cleanup_for_socket w a socket)
  unfolding Pinentry.cleanup_for_socket
  pinentry-cleanup-IsSound a socket h =
      close_flows-IsSound a (Pinentry.cookies_of w socket a.pinentry.pending_requests) h
