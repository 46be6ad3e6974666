-- ===== src/Agent/Sessions.antt =====
-- CAgent's central operations: events, provider status, the fallback UI, and the sessions.
use bb_auth.Prelude.{
  ℕ, ◌-◌, Bool, true, false, Option, none, some, String, List, [], ◌∷◌, ◌++◌, ◌||◌, not,
  if◌then◌else◌, ◌==◌, string_eq, nat_eq, ltb, map,
}
use bb_auth.Prelude.Int.{ℤ}
use bb_auth.Json.{Object, str, bool, int, end, field, put}
use bb_auth.EventRouter.{route, valid_of}
use bb_auth.Registry.{
  Registry, UiProvider, has_active_provider, active_provider_info, recompute_active_provider,
  sockets,
}
use bb_auth.Session.{Source, Context, Result, success, cancelled}
use bb_auth.SessionStore
use bb_auth.SessionStore.{
  get_session, update_prompt, update_error, update_info, update_pinentry_retry,
}
use bb_auth.Providers.Discovery.{discover}
use bb_auth.Providers.Launcher.{LaunchAttemptResult, Retries, try_launch}
use bb_auth.Agent.State.{Agent, World, send_all}

abbrev pub fallback_launch_cooldown_ms : ℕ
fallback_launch_cooldown_ms = 5000

abbrev pub has_active : Agent → Bool
has_active a = has_active_provider a.registry

unfoldable pub among : ℕ → List ℕ → Bool
among s [] = false
among s (x ∷ xs) = x == s || among s xs

-- The sockets that are not in `sent`.
unfoldable pub without : List ℕ → List ℕ → List ℕ
unfolding among
without sent [] = []
without sent (s ∷ ss) = let rest = without sent ss in if among s sent then rest else s ∷ rest

module _ (w : World) where
  unfoldable pub emit_session_event : Agent → Object → Agent
  emit_session_event a event =
      let (sends, queue) = route a.registry a.queue event a.subscribers w.valid in
      send_all w (record a { queue = queue }) sends

  abbrev with_info : Option UiProvider → Object → Object
  with_info none status = status
  with_info (some p) status =
      put "priority" (int p.priority)
        (put "kind" (str p.kind) (put "name" (str p.name) (put "id" (str p.id) status)))

  unfoldable pub provider_status : Registry → Object
  provider_status r =
      with_info (active_provider_info r)
        (field "type" (str "ui.active") (field "active" (bool (has_active_provider r)) end))

  unfoldable pub emit_provider_status : Agent → Agent
  emit_provider_status a =
      let status = provider_status a.registry in
      let providers = valid_of w.valid (sockets a.registry) in
      let others = without providers (valid_of w.valid a.subscribers) in
      send_all w a (map (λ s. (s, status)) (providers ++ others))

  -- `if (m_providerRegistry.recomputeActiveProvider()) emitProviderStatus();`
  unfoldable pub recompute_and_report : Agent → Agent
  recompute_and_report a =
      let (changed, registry) = recompute_active_provider a.registry w.host.now w.connected in
      let b = record a { registry = registry } in if changed then emit_provider_status b else b

  abbrev after_launch : Agent → LaunchAttemptResult × Retries → Agent
  after_launch a (launch, retries) =
      if launch.launched
      then record a { retries = retries; last_fallback_launch_ms = w.host.now }
      else record a { retries = retries }

  unfoldable pub ensure_fallback_ui_running : Agent → String → Agent
  ensure_fallback_ui_running a reason =
      if has_active a
        || (not w.lock_free
            || ltb (w.host.now - a.last_fallback_launch_ms) fallback_launch_cooldown_ms)
      then a
      else after_launch a (
          try_launch w.host a.retries (discover w.host w.search_dirs).manifests w.socket_path reason
            (has_active a) (not (SessionStore.is_empty a.sessions)) w.legacy_override
            w.legacy_default_path)

  -- Emit the event of a store operation, if there is one.
  abbrev pub emit_update : Agent → Option Object × SessionStore.Sessions → Agent
  emit_update a (none, sessions) = record a { sessions = sessions }
  emit_update a (some event, sessions) = emit_session_event (record a { sessions = sessions }) event

  created : Agent → Option Object × SessionStore.Sessions → Bool × Agent
  created a (none, sessions) = (false, record a { sessions = sessions })
  created a (some event, sessions) =
      let b = emit_session_event (record a { sessions = sessions }) event in
      (true, (if has_active b then b else ensure_fallback_ui_running b "session-created"))

  unfoldable pub create_session : Agent → String → Source → Context → Bool × Agent
  unfolding created
  create_session a id source context =
      created a (SessionStore.create_session a.sessions id source context)

  unfoldable pub update_session_prompt : Agent → String → String → Bool → Bool → Agent
  update_session_prompt a id prompt echo clear_error =
      emit_update a (update_prompt a.sessions id prompt echo clear_error)

  unfoldable pub update_session_error : Agent → String → String → Agent
  update_session_error a id text = emit_update a (update_error a.sessions id text)

  unfoldable pub update_session_pinentry_retry : Agent → String → ℤ → ℤ → Agent
  update_session_pinentry_retry a id cur max = record a {
    sessions = (update_pinentry_retry a.sessions id cur max).1;
  }

  closed : Agent → Option Object × SessionStore.Sessions → Agent
  closed a (none, sessions) = record a { sessions = sessions }
  closed a (some event, sessions) =
      let b = record a { sessions = sessions } in
      emit_session_event (if SessionStore.is_empty sessions then recompute_and_report b else b)
        event

  -- `closeSession` with `deferred` false, as every caller has it.
  unfoldable pub close_session : Agent → String → Result → Agent
  unfolding closed
  close_session a id result = closed a (SessionStore.close_session a.sessions id result)

  -- The callbacks of the polkit listener.
  unfoldable pub on_session_request : Agent → String → String → Bool → Agent
  on_session_request a cookie prompt echo =
      emit_update a (update_prompt a.sessions cookie prompt echo true)

  completed : Agent → Option Object × SessionStore.Sessions → Agent
  completed a (none, sessions) = record a { sessions = sessions }
  completed a (some event, sessions) =
      let b = emit_session_event (record a { sessions = sessions }) event in
      if SessionStore.is_empty sessions then recompute_and_report b else b

  unfoldable pub on_session_complete : Agent → String → Bool → Agent
  unfolding completed
  on_session_complete a cookie ok =
      completed a (SessionStore.close_session a.sessions cookie (if ok then success else cancelled))

  unfoldable pub on_session_retry : Agent → String → String → Agent
  on_session_retry a cookie error = emit_update a (update_error a.sessions cookie error)

  unfoldable pub on_session_info : Agent → String → String → Agent
  on_session_info a cookie info = emit_update a (update_info a.sessions cookie info)
