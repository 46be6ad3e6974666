-- ===== src/Agent/Keyring/RoundTrip.antt =====
-- A keyring request and its answer.
use bb_auth.Prelude.{
  ℕ, ◌≡◌, refl, ap, subst, ◌∙◌, Bool, true, false, some, String, arith, string_eq, is_some,
}
use bb_auth.Prelude.Int.{ℤ}
use bb_auth.Prelude.Hash.{find, insert, remove, contains, find-insert_self, find-remove_self}
use bb_auth.Json.{Object, field, str, end}
use bb_auth.Session.{Source, Context, keyring, success}
use bb_auth.SessionStore
use bb_auth.SessionStore.{get_session}
use bb_auth.Agent.State.{Agent, World, KeyringRequest}
use bb_auth.Agent.Sessions.{create_session}
use bb_auth.Agent.Frame.{
  create_session-managed, update_session_prompt-managed, close_session-managed,
  create_session-is_some,
}
use bb_auth.Agent.Keyring.{
  read_request, context_of, finish_request, handle_request, handle_response, has_pending_request,
  get_socket_for_request,
}

module _ (w : World) where
  finish_request-keyring :
      (r : KeyringRequest) (m : Bool × Agent)
      → m.0 ≡ true
      → (finish_request w r m).keyring ≡ m.1.keyring
  unfolding finish_request
  finish_request-keyring r (true, a) h =
      ap (λ m. m.0) (update_session_prompt-managed w a r.cookie r.message false true)
  finish_request-keyring r (false, a) h = absurd (ground (arith, h))

  handle_request-keyring :
      (a : Agent) (msg : Object) (socket : ℕ) (pid : ℤ)
      → is_some (get_session a.sessions (read_request w msg socket pid).cookie) ≡ false
      → (handle_request w a msg socket pid).keyring
        ≡ insert (read_request w msg socket pid).cookie (read_request w msg socket pid) a.keyring
  unfolding handle_request
  handle_request-keyring a msg socket pid h =
      let r = read_request w msg socket pid in
      let b = record a { keyring = insert r.cookie r a.keyring } in
      let context = context_of r (w.resolve_actor pid) in
      let made = create_session w b r.cookie keyring context in
      finish_request-keyring r made (create_session-is_some w b r.cookie keyring context h)
      ∙ ap (λ m. m.0) (create_session-managed w b r.cookie keyring context)

-- The request of the socket is pending; the response gets the password as its reply, and the request
-- is pending no longer.
abbrev pub IsAnswered : World → Agent → ℕ → String → String → Type 0
IsAnswered w b socket cookie response =
    (get_socket_for_request b cookie ≡ some socket)
    × ((handle_response w b cookie response).0
        ≡ field "type" (str "keyring_response") (
            field "id" (str cookie)
              (field "result" (str "ok") (field "password" (str response) end))))
    × (has_pending_request (handle_response w b cookie response).1 cookie ≡ false)

pending-IsAnswered :
    (w : World) (b : Agent) (r : KeyringRequest) (response : String)
    → find r.cookie b.keyring ≡ some r
    → IsAnswered w b r.socket r.cookie response
unfolding get_socket_for_request handle_response has_pending_request
pending-IsAnswered w b r response h =
    let c = record b { keyring = remove r.cookie b.keyring } in
    let gone = ap (λ m. contains r.cookie m.0) (close_session-managed w c r.cookie success) in
    rw h (refl, refl, gone ∙ ap is_some (find-remove_self r.cookie b.keyring))

-- A keyring request whose cookie names no open session is pending for its socket: answering it next,
-- whenever that is, gives the reply with the password, to be sent to that socket, and once it is answered it
-- is pending no longer.
pub handle_request-IsAnswered :
    (w later : World) (a : Agent) (msg : Object) (socket : ℕ) (pid : ℤ) (cookie response : String)
    → (read_request w msg socket pid).cookie ≡ cookie
    → is_some (get_session a.sessions cookie) ≡ false
    → IsAnswered later (handle_request w a msg socket pid) socket cookie response
unfolding read_request
handle_request-IsAnswered w later a msg socket pid cookie response c h =
    let r = read_request w msg socket pid in
    let b = handle_request w a msg socket pid in
    let new = ap (λ k. is_some (get_session a.sessions k)) c ∙ h in
    let kept = ap (find r.cookie) (handle_request-keyring w a msg socket pid new) in
    subst (λ k. IsAnswered later b socket k response) c
      (pending-IsAnswered later b r response (kept ∙ find-insert_self r.cookie r a.keyring))

module _ (w : World) where
  create_session-taken :
      (a : Agent) (id : String) (source : Source) (context : Context)
      → is_some (get_session a.sessions id) ≡ true
      → create_session w a id source context ≡ (false, a)
  unfolding create_session SessionStore.create_session get_session
  create_session-taken a id source context h = rw h refl

  refused :
      (r : KeyringRequest) (a : Agent)
      → let b = finish_request w r (false, a) in
        (b.keyring ≡ remove r.cookie a.keyring) × (b.sessions ≡ a.sessions)
  unfolding finish_request
  refused r a = ground arith

  taken :
      (a : Agent) (msg : Object) (socket : ℕ) (pid : ℤ)
      → is_some (get_session a.sessions (read_request w msg socket pid).cookie) ≡ true
      → let b = handle_request w a msg socket pid in
        (has_pending_request b (read_request w msg socket pid).cookie ≡ false)
        × (b.sessions ≡ a.sessions)
  unfolding handle_request has_pending_request
  taken a msg socket pid h =
      let r = read_request w msg socket pid in
      let b = record a { keyring = insert r.cookie r a.keyring } in
      let made = create_session-taken b r.cookie keyring (context_of r (w.resolve_actor pid)) h in
      let (k, s) = refused r b in
      (
        ap (λ m. contains r.cookie (finish_request w r m).keyring) made
            ∙ ap (contains r.cookie) k
            ∙ ap is_some (find-remove_self r.cookie b.keyring),
        ap (λ m. (finish_request w r m).sessions) made ∙ s,
      )

-- A keyring request with the cookie of an open session leaves all sessions as they are, and
-- afterwards no keyring request is pending under the cookie, not even one that was pending before: its
-- session stays open without a request that an answer could go to.
pub handle_request-collision :
    (w : World) (a : Agent) (msg : Object) (socket : ℕ) (pid : ℤ) (cookie : String)
    → (read_request w msg socket pid).cookie ≡ cookie
    → is_some (get_session a.sessions cookie) ≡ true
    → (has_pending_request (handle_request w a msg socket pid) cookie ≡ false)
      × ((handle_request w a msg socket pid).sessions ≡ a.sessions)
handle_request-collision w a msg socket pid cookie c h =
    let b = handle_request w a msg socket pid in
    subst (λ k. (has_pending_request b k ≡ false) × (b.sessions ≡ a.sessions)) c
      (taken w a msg socket pid (ap (λ k. is_some (get_session a.sessions k)) c ∙ h))
