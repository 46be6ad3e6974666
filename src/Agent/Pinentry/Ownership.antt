-- ===== src/Agent/Pinentry/Ownership.antt =====
-- Who may act on a pinentry flow.
use bb_auth.Prelude.{
  ℕ, ◌≡◌, refl, ap, sym, ◌∙◌, Bool, true, false, Option, none, some, String, arith, string_eq, ◌==◌,
  inl, inr, Bool-cases, is_some, Option-cases,
}
use bb_auth.Prelude.Int.{ℤ, eqb_ℤ}
use bb_auth.Prelude.Hash.{Hash, find, insert, contains, find-insert_self}
use bb_auth.Json.{Object, value, to_string}
use bb_auth.Session.{pinentry}
use bb_auth.SessionStore
use bb_auth.SessionStore.{get_session}
use bb_auth.Agent.State.{Agent, World, Pinentry, PinentryRequest}
use bb_auth.Agent.Sessions.{
  create_session, update_session_error, update_session_prompt, update_session_pinentry_retry,
}
use bb_auth.Agent.Frame.{
  create_session-is_some, create_session-managed, update_session_prompt-managed,
  update_session_error-managed,
}
use bb_auth.Agent.Pinentry.{
  read_request, resolve_retry_info, counts, claim, add_pending, retry_awaited, show, opened, accept,
  handle_request, handle_result, validate_result_owner, cleanup_awaiting, context_of,
}
use bb_auth.Agent.Pinentry.Closing.{report-managed}

abbrev pub owners : Agent → Hash String ℤ
owners a = a.pinentry.flow_owners

counts-owners :
    (p : Pinentry) (keyinfo : String) (o : Option (ℤ × ℤ))
    → (counts p keyinfo o).1.flow_owners ≡ p.flow_owners
unfolding counts
counts-owners p keyinfo none = ground arith
counts-owners p keyinfo (some c) = ground arith

module _ (w : World) where
  retry_awaited-owners : (a : Agent) (r : PinentryRequest) → owners (retry_awaited w a r) ≡ owners a
  unfolding retry_awaited cleanup_awaiting
  retry_awaited-owners a r = elim (Bool-cases (contains r.cookie a.pinentry.awaiting_outcome)) [
    | inl e ↦ rw e (ap (λ m. m.1.flow_owners) (update_session_error-managed w _ r.cookie _))
    | inr e ↦ rw e refl
  ]

  show-owners : (a : Agent) (r : PinentryRequest) → owners (show w a r) ≡ owners a
  unfolding show
  show-owners a r =
      let b = update_session_prompt w a r.cookie r.prompt false false in
      let kept =
        ap (λ m. m.1.flow_owners)
          (update_session_prompt-managed w a r.cookie r.prompt false false) in
      let told = ap (λ m. m.1.flow_owners) (report-managed w b r.cookie r.error) in
      ground (arith, kept, told)

  opened-owners :
      (r : PinentryRequest) (m : Bool × Agent) → m.0 ≡ true → owners (opened w r m) ≡ owners m.1
  unfolding opened
  opened-owners r (true, a) h = show-owners a r
  opened-owners r (false, a) h = absurd (ground (arith, h))

  pub retry_awaited-sessions :
      (a : Agent) (r : PinentryRequest)
      → get_session a.sessions r.cookie ≡ none
      → (retry_awaited w a r).sessions ≡ a.sessions
  unfolding retry_awaited update_session_error SessionStore.update_error get_session
      cleanup_awaiting
  retry_awaited-sessions a r h = elim (Bool-cases (contains r.cookie a.pinentry.awaiting_outcome)) [
    | inl e ↦ rw (e, h) refl
    | inr e ↦ rw e refl
  ]

  accept-owners :
      (a : Agent) (r : PinentryRequest)
      → owners (accept w a r) ≡ insert r.cookie r.peer_pid (owners a)
  unfolding accept resolve_retry_info update_session_pinentry_retry
  accept-owners a r =
      let p = claim a.pinentry r in
      let (retry, q) = resolve_retry_info w p r in
      let hq = counts-owners p r.keyinfo (w.match_retries r.description) in
      let b = retry_awaited w (record a { pinentry = q }) r in
      let hb = retry_awaited-owners (record a { pinentry = q }) r ∙ hq in
      let c = record b { pinentry = add_pending b.pinentry r } in
      let d = update_session_pinentry_retry w c r.cookie retry.0 retry.1 in
      let context = context_of w r retry (w.resolve_actor r.peer_pid) in
      elim (Option-cases (get_session a.sessions r.cookie)) [
        | inr (s, e) ↦ rw e (show-owners d r ∙ hb)
        | inl e ↦
            let missing : is_some (get_session c.sessions r.cookie) ≡ false =
              rw (retry_awaited-sessions (record a { pinentry = q }) r e, e) refl in
            let made = create_session w c r.cookie pinentry context in
            rw e (
              opened-owners r made (create_session-is_some w c r.cookie pinentry context missing)
              ∙ ap (λ m. m.1.flow_owners) (create_session-managed w c r.cookie pinentry context)
              ∙ hb)
      ]

  pub accepted :
      (a : Agent) (msg : Object) (socket : ℕ) (pid : ℤ)
      → validate_result_owner a.pinentry (read_request w msg socket pid).cookie pid ≡ true
      → handle_request w a msg socket pid ≡ accept w a (read_request w msg socket pid)
  unfolding handle_request
  accepted a msg socket pid h = rw h refl

  accept-owned :
      (a : Agent) (r : PinentryRequest) → find r.cookie (owners (accept w a r)) ≡ some r.peer_pid
  accept-owned a r =
      ap (find r.cookie) (accept-owners a r) ∙ find-insert_self r.cookie r.peer_pid (owners a)

  request-owners :
      (a : Agent) (msg : Object) (socket : ℕ) (pid : ℤ) (cookie : String)
      → (read_request w msg socket pid).cookie ≡ cookie
      → validate_result_owner a.pinentry cookie pid ≡ true
      → find cookie (owners (handle_request w a msg socket pid)) ≡ some pid
  unfolding read_request
  request-owners a msg socket pid cookie c h =
      let r = read_request w msg socket pid in
      let mine =
        accepted a msg socket pid (ap (λ k. validate_result_owner a.pinentry k pid) c ∙ h) in
      ap (λ k. find k (owners (handle_request w a msg socket pid))) (sym c)
      ∙ (ap (λ b. find r.cookie (owners b)) mine ∙ accept-owned a r)

  foreign_request :
      (b : Agent) (msg : Object) (socket : ℕ) (owner stranger : ℤ)
      → find (read_request w msg socket stranger).cookie (owners b) ≡ some owner
      → eqb_ℤ owner stranger ≡ false
      → handle_request w b msg socket stranger ≡ b
  unfolding handle_request validate_result_owner
  foreign_request b msg socket owner stranger own foreign = rw (own, foreign) refl

  foreign_result :
      (b : Agent) (msg : Object) (owner stranger : ℤ)
      → find (to_string (value "id" msg)) (owners b) ≡ some owner
      → eqb_ℤ owner stranger ≡ false
      → (handle_result w b msg stranger).1 ≡ b
  unfolding handle_result validate_result_owner
  foreign_result b msg owner stranger own foreign =
      elim (Bool-cases (to_string (value "id" msg) == "")) [
        | inl e ↦ rw e refl
        | inr e ↦ rw (e, own, foreign) refl
      ]

-- A process whose request for a flow is accepted owns the flow: in the state after the request, a
-- request for the same flow and a reported result of it that come from another process change
-- nothing.
pub handle_request-owned :
    (w later : World) (a : Agent) (msg request outcome : Object) (socket other : ℕ)
    (pid stranger : ℤ) (cookie : String)
    → (read_request w msg socket pid).cookie ≡ cookie
    → validate_result_owner a.pinentry cookie pid ≡ true
    → (read_request later request other stranger).cookie ≡ cookie
    → to_string (value "id" outcome) ≡ cookie
    → eqb_ℤ pid stranger ≡ false
    → let b = handle_request w a msg socket pid in
      (find cookie b.pinentry.flow_owners ≡ some pid)
      × (handle_request later b request other stranger ≡ b)
      × ((handle_result later b outcome stranger).1 ≡ b)
handle_request-owned w later a msg request outcome socket other pid stranger cookie c h asks tells
      foreign =
    let b = handle_request w a msg socket pid in
    let own : find cookie (owners b) ≡ some pid = request-owners w a msg socket pid cookie c h in
    (
      own,
      foreign_request later b request other pid stranger (rw asks own) foreign,
      foreign_result later b outcome pid stranger (rw tells own) foreign,
    )
