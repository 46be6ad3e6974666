-- ===== src/Agent/Stored.antt =====
-- What CAgent's central operations do to the store of the sessions.
use bb_auth.Prelude.{
  ℕ, ◌≡◌, refl, ◌∙◌, Option, none, some, String, List, [], ◌∷◌, arith, string_eq, Option-cases, inl,
  inr, either, if◌then◌else◌, ◌==◌, eq_iff,
}
use bb_auth.Prelude.Hash.{find, find-insert, find-remove}
use bb_auth.Json.{Object}
use bb_auth.Session.{Result, set_error}
use bb_auth.SessionStore.{Sessions, update_error}
use bb_auth.SessionStore
use bb_auth.Registry.{recompute_active_provider}
use bb_auth.Agent.State.{Agent, World, send, send_all}
use bb_auth.Agent.Sessions.{
  emit_update, emit_session_event, emit_provider_status, recompute_and_report, update_session_error,
  close_session,
}

-- A session that is closed is removed, and no other.
pub find-close_session :
    (m : Sessions) (id : String) (result : Result) (j : String)
    → find j (SessionStore.close_session m id result).1 ≡ (if id == j then none else find j m)
unfolding SessionStore.close_session
find-close_session m id result j = elim (Option-cases (find id m)) [
  | inl n ↦ rw n (ground (arith, n, eq_iff id j))
  | inr (s, e) ↦ rw e (find-remove id j m)
]

-- An error text changes only the session that it is for.
pub find-update_error :
    (m : Sessions) (id text : String) (j : String)
    → (if id == j then none else find j (update_error m id text).1)
      ≡ (if id == j then none else find j m)
unfolding update_error
find-update_error m id text j = elim (Option-cases (find id m)) [
  | inl n ↦ rw n refl
  | inr (s, e) ↦ rw e (ground (arith, find-insert id j (set_error s text) m))
]

send_all-sessions :
    (w : World) (a : Agent) (sends : List (ℕ × Object)) → (send_all w a sends).sessions ≡ a.sessions
unfolding send_all
send_all-sessions w a [] = refl
send_all-sessions w a ((s, o) ∷ sends) =
    let sent : (send w a s o).sessions ≡ a.sessions = ground arith in
    send_all-sessions w (send w a s o) sends ∙ sent

module _ (w : World) where
  emit_session_event-sessions :
      (a : Agent) (e : Object) → (emit_session_event w a e).sessions ≡ a.sessions
  unfolding emit_session_event
  emit_session_event-sessions a e = send_all-sessions w _ _

  recompute_and_report-sessions : (a : Agent) → (recompute_and_report w a).sessions ≡ a.sessions
  unfolding recompute_and_report emit_provider_status
  recompute_and_report-sessions a =
      let (changed, registry) = recompute_active_provider a.registry w.host.now w.connected in
      let b = record a { registry = registry } in
      either (λ (c : Agent). c.sessions ≡ a.sessions) changed (emit_provider_status w b) b
        (λ _. send_all-sessions w b _) (λ _. refl)

  emit_update-sessions :
      (a : Agent) (r : Option Object × Sessions) → (emit_update w a r).sessions ≡ r.1
  emit_update-sessions a (none, m) = refl
  emit_update-sessions a (some e, m) = emit_session_event-sessions (record a { sessions = m }) e

  pub update_session_error-sessions :
      (a : Agent) (id text : String)
      → (update_session_error w a id text).sessions ≡ (update_error a.sessions id text).1
  unfolding update_session_error
  update_session_error-sessions a id text = emit_update-sessions a _

  pub close_session-sessions :
      (a : Agent) (id : String) (result : Result)
      → (close_session w a id result).sessions ≡ (SessionStore.close_session a.sessions id result).1
  unfolding close_session
  close_session-sessions a id result =
      let (event, m) = SessionStore.close_session a.sessions id result in
      let b = record a { sessions = m } in
      let c = if SessionStore.is_empty m then recompute_and_report w b else b in
      let hc =
        either (λ (d : Agent). d.sessions ≡ m) (SessionStore.is_empty m) (recompute_and_report w b)
          b (λ _. recompute_and_report-sessions b) (λ _. refl) in
      elim (Option-cases event) [
        | inl n ↦ rw n refl
        | inr (e, s) ↦ rw s (emit_session_event-sessions c e ∙ hc)
      ]
