-- ===== src/Agent/Pinentry/RoundTrip.antt =====
-- A pinentry request and its answer.
use bb_auth.Prelude.{
  ℕ, ◌≡◌, refl, ap, ◌∙◌, Bool, true, false, some, String, arith, string_eq, inl, inr, Option-cases,
  is_some,
}
use bb_auth.Prelude.Int.{ℤ}
use bb_auth.Prelude.Hash.{Hash, find, remove, find-insert_self, find-remove_self}
use bb_auth.Json.{Object}
use bb_auth.Session.{pinentry}
use bb_auth.SessionStore.{get_session}
use bb_auth.Agent.State.{Agent, World, PinentryRequest}
use bb_auth.Agent.Sessions.{create_session, update_session_prompt, update_session_pinentry_retry}
use bb_auth.Agent.Frame.{
  create_session-is_some, create_session-managed, update_session_prompt-managed,
}
use bb_auth.Agent.Pinentry.{
  read_request, resolve_retry_info, claim, add_pending, retry_awaited, show, opened, accept,
  handle_request, handle_response, validate_result_owner, context_of, answer, has_pending_input,
  is_awaiting_outcome, get_socket_for_pending_input,
}
use bb_auth.Agent.Pinentry.Closing.{report-managed}
use bb_auth.Agent.Pinentry.Ownership.{retry_awaited-sessions, accepted}

abbrev pending : Agent → Hash String PinentryRequest
pending a = a.pinentry.pending_requests

module _ (w : World) where
  show-pending : (a : Agent) (r : PinentryRequest) → pending (show w a r) ≡ pending a
  unfolding show
  show-pending a r =
      let b = update_session_prompt w a r.cookie r.prompt false false in
      let kept =
        ap (λ m. m.1.pending_requests)
          (update_session_prompt-managed w a r.cookie r.prompt false false) in
      let told = ap (λ m. m.1.pending_requests) (report-managed w b r.cookie r.error) in
      ground (arith, kept, told)

  opened-pending :
      (r : PinentryRequest) (m : Bool × Agent) → m.0 ≡ true → pending (opened w r m) ≡ pending m.1
  unfolding opened
  opened-pending r (true, a) h = show-pending a r
  opened-pending r (false, a) h = absurd (ground (arith, h))

  accept-pending :
      (a : Agent) (r : PinentryRequest) → find r.cookie (pending (accept w a r)) ≡ some r
  unfolding accept update_session_pinentry_retry
  accept-pending a r =
      let (retry, q) = resolve_retry_info w (claim a.pinentry r) r in
      let b = retry_awaited w (record a { pinentry = q }) r in
      let c = record b { pinentry = add_pending b.pinentry r } in
      let d = update_session_pinentry_retry w c r.cookie retry.0 retry.1 in
      let put = find-insert_self r.cookie r b.pinentry.pending_requests in
      let context = context_of w r retry (w.resolve_actor r.peer_pid) in
      elim (Option-cases (get_session a.sessions r.cookie)) [
        | inr (s, e) ↦ rw e (ap (find r.cookie) (show-pending d r) ∙ put)
        | inl e ↦
            let missing : is_some (get_session c.sessions r.cookie) ≡ false =
              rw (retry_awaited-sessions w (record a { pinentry = q }) r e, e) refl in
            let made = create_session w c r.cookie pinentry context in
            rw e (
              ap (find r.cookie) (
                opened-pending r made (create_session-is_some w c r.cookie pinentry context missing)
                ∙ ap (λ m. m.1.pending_requests)
                    (create_session-managed w c r.cookie pinentry context))
              ∙ put)
      ]

-- The request is pending for its socket; the response gets the answer that it asks for, and is
-- followed by the wait for the outcome.
abbrev pub IsServed : World → Agent → PinentryRequest → String → Type 0
IsServed w b r response =
    (get_socket_for_pending_input b r.cookie ≡ some r.socket)
    × ((handle_response w b r.cookie response).0 ≡ answer w r response)
    × (has_pending_input (handle_response w b r.cookie response).1 r.cookie ≡ false)
    × (is_awaiting_outcome (handle_response w b r.cookie response).1 r.cookie ≡ true)

pending-IsServed :
    (w : World) (b : Agent) (r : PinentryRequest) (response : String)
    → find r.cookie (pending b) ≡ some r
    → IsServed w b r response
unfolding get_socket_for_pending_input handle_response has_pending_input is_awaiting_outcome
pending-IsServed w b r response h = rw h (
  refl,
  refl,
  ap is_some (find-remove_self r.cookie (pending b)),
  ap is_some (find-insert_self r.cookie r (remove r.cookie b.pinentry.awaiting_outcome)),
)

-- A pinentry request whose flow no other process owns is pending for its socket, whatever session is
-- open under its cookie already, be it one of another source: answering it next, whenever that is,
-- gives the reply to be sent to that socket, and from then on its outcome is awaited.
pub handle_request-IsServed :
    (w later : World) (a : Agent) (msg : Object) (socket : ℕ) (pid : ℤ) (response : String)
    → validate_result_owner a.pinentry (read_request w msg socket pid).cookie pid ≡ true
    → IsServed later (handle_request w a msg socket pid) (read_request w msg socket pid) response
handle_request-IsServed w later a msg socket pid response h =
    let r = read_request w msg socket pid in
    let kept = ap (λ b. find r.cookie (pending b)) (accepted w a msg socket pid h) in
    pending-IsServed later (handle_request w a msg socket pid) r response
      (kept ∙ accept-pending w a r)
