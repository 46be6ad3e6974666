-- ===== src/Agent/Sound.antt =====
-- What holds of CAgent between two events of the loop, and that its central operations keep it.
pub mod Managers
pub mod Polkit
pub mod Respond
pub mod Handlers
use bb_auth.Prelude.{
  ℕ, ◌≡◌, refl, ◌⊎◌, inl, Bool, true, false, Option, none, some, String, List, [], ◌∷◌, arith,
  if◌then◌else◌, ◌==◌, string_eq, Bool-cases, Option-cases, eq_iff, inr, map, ◌++◌,
}
use bb_auth.Prelude.Int.{ℤ}
use bb_auth.Prelude.Hash.{find, find-insert}
use bb_auth.Json.{Object}
use bb_auth.EventQueue.{EventQueue, enqueue}
use bb_auth.EventQueue.Delivery.{drain_to_waiters-IsDelivery}
use bb_auth.EventRouter.{route}
use bb_auth.Registry.{Registry, recompute_active_provider}
use bb_auth.Registry.Recompute.{recompute-IsElected}
use bb_auth.Registry.Access.{IsSettled}
use bb_auth.Session
use bb_auth.Session.{Source, Context, Result, set_pinentry_retry}
use bb_auth.SessionStore
use bb_auth.SessionStore.{Sessions}
use bb_auth.SessionStore.Content.{
  Op, creates, prompts, fails, informs, closes, run, spec, run-stores, OnlyChanges,
}
use bb_auth.Agent.State.{Agent, World, send, send_all}
use bb_auth.Agent.Sessions.{
  emit_update, emit_session_event, emit_provider_status, recompute_and_report,
  ensure_fallback_ui_running, create_session, update_session_prompt, update_session_error,
  update_session_pinentry_retry, close_session, on_session_request, on_session_complete,
  on_session_retry, on_session_info,
}

-- No socket waits for an event that is there.
abbrev pub IsPrompt : EventQueue → Type 0
IsPrompt q = (q.next_waiters ≡ []) ⊎ (q.event_queue ≡ [])

-- A stored session is open and has the id that it is stored under.
abbrev pub IsOpen : String → Option Session.Session → Type 0
IsOpen id none = Unit
IsOpen id (some s) = (s.id ≡ id) × (s.state ≡ Session.prompting) × (s.result ≡ none)

abbrev pub AreOpen : Sessions → Type 0
AreOpen m = (id : String) → IsOpen id (find id m)

pub record Sound (registry : Registry) (queue : EventQueue) (sessions : Sessions) : Type 0 where
  pub settled : IsSettled registry
  pub prompt : IsPrompt queue
  pub open_sessions : AreOpen sessions

abbrev pub IsSound : Agent → Type 0
IsSound a = Sound a.registry a.queue a.sessions

-- The store.
spec-IsOpen :
    (op : Op) (id : String) (o : Option Session.Session) → IsOpen id o → IsOpen id (spec op id o).0
unfolding Session.create Session.set_prompt Session.set_error Session.set_info
spec-IsOpen (creates source context) id none h = (refl, refl, refl)
spec-IsOpen (creates source context) id (some s) h = h
spec-IsOpen (prompts text echo clear) id none h = tt
spec-IsOpen (fails text) id none h = tt
spec-IsOpen (informs text) id none h = tt
spec-IsOpen (closes result) id none h = tt
spec-IsOpen (prompts text echo clear) id (some s) h = (h.0, refl, h.2)
spec-IsOpen (fails text) id (some s) h = h
spec-IsOpen (informs text) id (some s) h = h
spec-IsOpen (closes result) id (some s) h = tt

changed-IsOpen :
    (id j : String) (here there : Option Session.Session)
    → IsOpen id here
    → IsOpen j there
    → IsOpen j (if id == j then here else there)
changed-IsOpen id j here there h k = elim (Bool-cases (id == j)) [
  | inl e ↦ rw (e) (rw ((eq_iff id j).0 e) at h)
  | inr e ↦ rw e k
]

pub run-AreOpen : (op : Op) (m : Sessions) (id : String) → AreOpen m → AreOpen (run op m id).1
run-AreOpen op m id h j = rw ((run-stores op m id).1 j) (
    changed-IsOpen id j (spec op id (find id m)).0 (find j m) (spec-IsOpen op id (find id m) (h id))
      (h j))

retried-AreOpen :
    (m : Sessions) (id : String) (cur max : ℤ) (o : Option Session.Session)
    → find id m ≡ o
    → AreOpen m
    → AreOpen (SessionStore.retried m id cur max o).1
unfolding set_pinentry_retry
retried-AreOpen m id cur max none e h = h
retried-AreOpen m id cur max (some s) e h =
    let kept : IsOpen id (some s) = rw e at (h id) in
    let new : IsOpen id (some (set_pinentry_retry s cur max)) = ground (arith, kept) in
    λ j. ground (
      arith,
      find-insert id j (set_pinentry_retry s cur max) m,
      changed-IsOpen id j (some (set_pinentry_retry s cur max)) (find j m) new (h j),
      h j,
    )

after-run :
    (a : Agent) (op : Op) (id : String)
    → IsSound a
    → Sound a.registry a.queue (run op a.sessions id).1
after-run a op id h = record {
  settled = h.settled;
  prompt = h.prompt;
  open_sessions = run-AreOpen op a.sessions id h.open_sessions;
}

-- Writing leaves all but what was written.
pub send-IsSound : (w : World) (a : Agent) (s : ℕ) (o : Object) → IsSound a → IsSound (send w a s o)
send-IsSound w a s o h = elim (Bool-cases (w.connected s)) [ inl e ↦ rw e h | inr e ↦ rw e h ]

pub send_all-IsSound :
    (w : World) (a : Agent) (sends : List (ℕ × Object)) → IsSound a → IsSound (send_all w a sends)
unfolding send_all
send_all-IsSound w a [] h = h
send_all-IsSound w a ((s, o) ∷ sends) h =
    send_all-IsSound w (send w a s o) sends (send-IsSound w a s o h)

pub if-IsSound : (b : Bool) (x y : Agent) → IsSound x → IsSound y → IsSound (if b then x else y)
if-IsSound true x y h k = h
if-IsSound false x y h k = k

module _ (w : World) where
  pub emit_session_event-IsSound :
      (a : Agent) (e : Object) → IsSound a → IsSound (emit_session_event w a e)
  unfolding emit_session_event route
  emit_session_event-IsSound a e h = send_all-IsSound w _ _ record {
    settled = h.settled;
    prompt = (drain_to_waiters-IsDelivery (enqueue a.queue e)).finished;
    open_sessions = h.open_sessions;
  }

  pub emit_provider_status-IsSound : (a : Agent) → IsSound a → IsSound (emit_provider_status w a)
  unfolding emit_provider_status
  emit_provider_status-IsSound a h = send_all-IsSound w a _ h

  -- A recomputation settles a registry in any state.
  pub resettled :
      (a : Agent) → IsPrompt a.queue → AreOpen a.sessions → IsSound (recompute_and_report w a)
  unfolding recompute_and_report
  resettled a p o =
      let h : Sound (recompute_active_provider a.registry w.host.now w.connected).1 a.queue
          a.sessions =
        record {
          settled = (recompute-IsElected w.host.now w.connected a.registry).1;
          prompt = p;
          open_sessions = o;
        } in
      ground (
        arith,
        emit_provider_status-IsSound
            (record a {
              registry = (recompute_active_provider a.registry w.host.now w.connected).1;
            })
            h,
      )

  pub recompute_and_report-IsSound : (a : Agent) → IsSound a → IsSound (recompute_and_report w a)
  recompute_and_report-IsSound a h = resettled a h.prompt h.open_sessions

  pub ensure_fallback_ui_running-IsSound :
      (a : Agent) (reason : String) → IsSound a → IsSound (ensure_fallback_ui_running w a reason)
  unfolding ensure_fallback_ui_running
  ensure_fallback_ui_running-IsSound a reason h = ground arith

  -- What an operation of the store returns, its event sent if there is one.
  emit_update-IsSound :
      (a : Agent) (r : Option Object × Sessions)
      → IsSound a
      → AreOpen r.1
      → IsSound (emit_update w a r)
  emit_update-IsSound a (none, m) h k = record {
    settled = h.settled;
    prompt = h.prompt;
    open_sessions = k;
  }
  emit_update-IsSound a (some e, m) h k =
      emit_session_event-IsSound (record a { sessions = m }) e
        (record { settled = h.settled; prompt = h.prompt; open_sessions = k })

  pub create_session-IsSound :
      (a : Agent) (id : String) (source : Source) (context : Context)
      → IsSound a
      → IsSound (create_session w a id source context).1
  unfolding create_session
  create_session-IsSound a id source context h =
      let op = creates source context in
      let h' = after-run a op id h in
      elim (Option-cases (run op a.sessions id).0) [
        | inl n ↦ rw n h'
        | inr (e, s) ↦
            let b = record a { sessions = (run op a.sessions id).1 } in
            let k = emit_session_event-IsSound b e h' in
            rw s (
              ground (
                arith,
                k,
                ensure_fallback_ui_running-IsSound (emit_session_event w b e) "session-created" k,
              ))
      ]

  pub close_session-IsSound :
      (a : Agent) (id : String) (result : Result)
      → IsSound a
      → IsSound (close_session w a id result)
  unfolding close_session
  close_session-IsSound a id result h =
      let op = closes result in
      let b = record a { sessions = (run op a.sessions id).1 } in
      let h' = after-run a op id h in
      let k = recompute_and_report-IsSound b h' in
      elim (Option-cases (run op a.sessions id).0) [
        | inl n ↦ rw n h'
        | inr (e, s) ↦ rw s (
            ground (
              arith,
              emit_session_event-IsSound b e h',
              emit_session_event-IsSound (recompute_and_report w b) e k,
            ))
      ]

  pub on_session_complete-IsSound :
      (a : Agent) (cookie : String) (ok : Bool)
      → IsSound a
      → IsSound (on_session_complete w a cookie ok)
  unfolding on_session_complete
  on_session_complete-IsSound a cookie ok h =
      let op = closes (if ok then Session.success else Session.cancelled) in
      let b = record a { sessions = (run op a.sessions cookie).1 } in
      let h' = after-run a op cookie h in
      elim (Option-cases (run op a.sessions cookie).0) [
        | inl n ↦ rw n h'
        | inr (e, s) ↦
            let k = emit_session_event-IsSound b e h' in
            rw s (ground (arith, k, recompute_and_report-IsSound (emit_session_event w b e) k))
      ]

  pub update_session_prompt-IsSound :
      (a : Agent) (id text : String) (echo clear : Bool)
      → IsSound a
      → IsSound (update_session_prompt w a id text echo clear)
  unfolding update_session_prompt
  update_session_prompt-IsSound a id text echo clear h =
      emit_update-IsSound a _ h
        (run-AreOpen (prompts text echo clear) a.sessions id h.open_sessions)

  pub update_session_error-IsSound :
      (a : Agent) (id text : String) → IsSound a → IsSound (update_session_error w a id text)
  unfolding update_session_error
  update_session_error-IsSound a id text h =
      emit_update-IsSound a _ h (run-AreOpen (fails text) a.sessions id h.open_sessions)

  pub update_session_pinentry_retry-IsSound :
      (a : Agent) (id : String) (cur max : ℤ)
      → IsSound a
      → IsSound (update_session_pinentry_retry w a id cur max)
  unfolding update_session_pinentry_retry SessionStore.update_pinentry_retry
  update_session_pinentry_retry-IsSound a id cur max h = record {
    settled = h.settled;
    prompt = h.prompt;
    open_sessions = retried-AreOpen a.sessions id cur max (find id a.sessions) refl h.open_sessions;
  }

  pub on_session_request-IsSound :
      (a : Agent) (id text : String) (echo : Bool)
      → IsSound a
      → IsSound (on_session_request w a id text echo)
  unfolding on_session_request
  on_session_request-IsSound a id text echo h =
      emit_update-IsSound a _ h (run-AreOpen (prompts text echo true) a.sessions id h.open_sessions)

  pub on_session_retry-IsSound :
      (a : Agent) (id text : String) → IsSound a → IsSound (on_session_retry w a id text)
  unfolding on_session_retry
  on_session_retry-IsSound a id text h =
      emit_update-IsSound a _ h (run-AreOpen (fails text) a.sessions id h.open_sessions)

  pub on_session_info-IsSound :
      (a : Agent) (id text : String) → IsSound a → IsSound (on_session_info w a id text)
  unfolding on_session_info
  on_session_info-IsSound a id text h =
      emit_update-IsSound a _ h (run-AreOpen (informs text) a.sessions id h.open_sessions)
