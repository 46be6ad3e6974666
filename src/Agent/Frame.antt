-- ===== src/Agent/Frame.antt =====
-- What CAgent's central operations leave alone: the members of the managers and of the listener.
use bb_auth.Prelude.{
  is_some, ℕ, ◌≡◌, refl, ◌∙◌, Bool, true, false, Option, none, some, String, List, [], ◌∷◌, arith,
  string_eq, Option-cases, inl, inr, if◌then◌else◌,
}
use bb_auth.Prelude.Hash.{Hash}
use bb_auth.Json.{Object}
use bb_auth.Session.{Source, Context, Result}
use bb_auth.Session
use bb_auth.SessionStore.{Sessions, get_session, update_error}
use bb_auth.SessionStore
use bb_auth.Registry.{recompute_active_provider}
use bb_auth.Agent.State.{Agent, World, KeyringRequest, Pinentry, Listener, send, send_all}
use bb_auth.Agent.Sessions.{
  on_session_retry, on_session_complete, has_active, emit_update, emit_session_event,
  emit_provider_status, recompute_and_report, ensure_fallback_ui_running, create_session,
  update_session_prompt, update_session_error, close_session,
}

abbrev pub Managed : Type 0
Managed = Hash String KeyringRequest × Pinentry × Listener

abbrev pub managed : Agent → Managed
managed a = (a.keyring, a.pinentry, a.listener)

send-managed : (w : World) (a : Agent) (s : ℕ) (o : Object) → managed (send w a s o) ≡ managed a
send-managed w a s o = ground arith

send_all-managed :
    (w : World) (a : Agent) (sends : List (ℕ × Object)) → managed (send_all w a sends) ≡ managed a
unfolding send_all
send_all-managed w a [] = refl
send_all-managed w a ((s, o) ∷ sends) =
    send_all-managed w (send w a s o) sends ∙ send-managed w a s o

pub if-managed :
    (b : Bool) (x y : Agent) (m : Managed)
    → managed x ≡ m
    → managed y ≡ m
    → managed (if b then x else y) ≡ m
if-managed true x y m h k = h
if-managed false x y m h k = k

module _ (w : World) where
  pub emit_session_event-managed :
      (a : Agent) (e : Object) → managed (emit_session_event w a e) ≡ managed a
  unfolding emit_session_event
  emit_session_event-managed a e = send_all-managed w _ _

  pub recompute_and_report-managed : (a : Agent) → managed (recompute_and_report w a) ≡ managed a
  unfolding recompute_and_report emit_provider_status
  recompute_and_report-managed a =
      let (changed, registry) = recompute_active_provider a.registry w.host.now w.connected in
      let b = record a { registry = registry } in
      if-managed changed (emit_provider_status w b) b (managed a) (send_all-managed w b _) refl

  pub ensure-managed :
      (a : Agent) (reason : String) → managed (ensure_fallback_ui_running w a reason) ≡ managed a
  unfolding ensure_fallback_ui_running
  ensure-managed a reason = ground arith

  emit_update-managed :
      (a : Agent) (r : Option Object × Sessions) → managed (emit_update w a r) ≡ managed a
  emit_update-managed a (none, m) = refl
  emit_update-managed a (some e, m) = emit_session_event-managed (record a { sessions = m }) e

  pub update_session_prompt-managed :
      (a : Agent) (id text : String) (echo clear : Bool)
      → managed (update_session_prompt w a id text echo clear) ≡ managed a
  unfolding update_session_prompt
  update_session_prompt-managed a id text echo clear = emit_update-managed a _

  pub update_session_error-managed :
      (a : Agent) (id text : String) → managed (update_session_error w a id text) ≡ managed a
  unfolding update_session_error
  update_session_error-managed a id text = emit_update-managed a _

  pub close_session-managed :
      (a : Agent) (id : String) (result : Result)
      → managed (close_session w a id result) ≡ managed a
  unfolding close_session
  close_session-managed a id result =
      let (event, m) = SessionStore.close_session a.sessions id result in
      let b = record a { sessions = m } in
      let c = if SessionStore.is_empty m then recompute_and_report w b else b in
      let hc =
        if-managed (SessionStore.is_empty m) (recompute_and_report w b) b (managed a)
          (recompute_and_report-managed b) refl in
      elim (Option-cases event) [
        | inl n ↦ rw n refl
        | inr (e, s) ↦ rw s (emit_session_event-managed c e ∙ hc)
      ]

  pub create_session-managed :
      (a : Agent) (id : String) (source : Source) (context : Context)
      → managed (create_session w a id source context).1 ≡ managed a
  unfolding create_session
  create_session-managed a id source context =
      let (event, m) = SessionStore.create_session a.sessions id source context in
      let b = record a { sessions = m } in
      elim (Option-cases event) [
        | inl n ↦ rw n refl
        | inr (e, s) ↦
            let c = emit_session_event w b e in
            let hc = emit_session_event-managed b e in
            rw s (
              if-managed (has_active c) c (ensure_fallback_ui_running w c "session-created")
                (managed a) hc (ensure-managed c "session-created" ∙ hc))
      ]

  -- A session with a new id is always created.
  pub create_session-is_some :
      (a : Agent) (id : String) (source : Source) (context : Context)
      → is_some (get_session a.sessions id) ≡ false
      → (create_session w a id source context).0 ≡ true
  unfolding create_session SessionStore.create_session get_session
  create_session-is_some a id source context h = ground arith

  pub on_session_retry-managed :
      (a : Agent) (id text : String) → managed (on_session_retry w a id text) ≡ managed a
  unfolding on_session_retry
  on_session_retry-managed a id text = emit_update-managed a (update_error a.sessions id text)

  pub on_session_complete-managed :
      (a : Agent) (id : String) (ok : Bool) → managed (on_session_complete w a id ok) ≡ managed a
  unfolding on_session_complete
  on_session_complete-managed a id ok =
      let (event, m) =
        SessionStore.close_session a.sessions id
          (if ok then Session.success else Session.cancelled) in
      let b = record a { sessions = m } in
      elim (Option-cases event) [
        | inl n ↦ rw n refl
        | inr (e, s) ↦
            let c = emit_session_event w b e in
            let hc = emit_session_event-managed b e in
            rw s (
              if-managed (SessionStore.is_empty m) (recompute_and_report w c) c (managed a)
                (recompute_and_report-managed c ∙ hc) hc)
      ]
