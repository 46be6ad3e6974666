-- ===== src/Fallback/Client/Reachable.antt =====
-- The states that the client reaches.
use bb_auth.Prelude.{
  ℕ, refl, inl, false, Option, none, some, List, [], ◌∷◌, ◌||◌, not, arith, if◌then◌else◌,
  string_eq, either, All, All-append, is_nil,
}
use bb_auth.Json.{Object}
use bb_auth.Fallback.Client.{
  FallbackClient, SocketState, is_connected, connect_to_server, register_provider, subscribe,
  registration, send_response, send_cancel, ensure_connected, start, clear_pending, forget,
  on_connected, on_disconnected, on_error, on_reconnect_timeout, on_subscribe_watchdog,
  on_heartbeat, reconnect_later,
}
use bb_auth.Fallback.Client.Messages.{
  ClientEvent, handle, handle_lines, handle_line, handle_json, on_ready_read, started, connected,
  disconnected, ready_read, error_occurred, reconnect_timeout, subscribe_watchdog, heartbeat,
  respond, cancel,
}
use bb_auth.Fallback.Client.Bounds.{
  InBounds, IsPending, IsProper, Keeps, if-All, set_provider_active-Keeps, send-IsProper,
  handle_message-Keeps,
}
use bb_auth.Fallback.Client.{new_client, register_provider, is_connecting}

module _ (socket : SocketState) where
  reconnect_later-Keeps :
      (c : FallbackClient) → InBounds c → IsPending c → Keeps socket (reconnect_later c)
  unfolding reconnect_later
  reconnect_later-Keeps c h p =
      either (Keeps socket) (not c.reconnect_timer_active) _ _
        (λ t. ((h, tt), (ground (arith, h), p))) (λ n. (tt, (h, p)))

  forget-Keeps : (c : FallbackClient) → InBounds c → Keeps socket (forget socket c)
  forget-Keeps c h =
      set_provider_active-Keeps socket false
        (clear_pending (record c { subscribed = false; registered = false; provider_id = "" })) h
        (inl refl)

  on_connected-Keeps : (c : FallbackClient) → Keeps socket (on_connected socket c)
  unfolding on_connected
  on_connected-Keeps c =
      let fresh = record c { reconnect_delay_ms = 200 } in
      let (acts, kept) = forget-Keeps fresh (omega arith) in
      let sent =
        All-append (IsProper socket) (register_provider socket) (subscribe socket)
          (send-IsProper socket registration) (send-IsProper socket _) in
      (All-append (IsProper socket) (forget socket fresh).0 _ acts (tt, (tt, sent)), kept)

  on_disconnected-Keeps :
      (c : FallbackClient) → InBounds c → Keeps socket (on_disconnected socket c)
  unfolding on_disconnected
  on_disconnected-Keeps c h =
      let (acts, (bounds, pending)) = forget-Keeps c h in
      let (later, kept) = reconnect_later-Keeps (forget socket c).1 bounds pending in
      (All-append (IsProper socket) (forget socket c).0 _ acts (tt, (tt, later)), kept)

  on_watchdog-Keeps :
      (c : FallbackClient)
      → InBounds c
      → IsPending c
      → Keeps socket (on_subscribe_watchdog socket c)
  unfolding on_subscribe_watchdog
  on_watchdog-Keeps c h p =
      either (Keeps socket) (not (is_connected socket)) _ _ (λ t. (tt, (h, p)))
        (λ n. (
          All-append (IsProper socket) (if not c.registered then register_provider socket else []) _
              (if-All (IsProper socket) (not c.registered) _ (send-IsProper socket registration))
              (if-All (IsProper socket) (not c.subscribed) _ (send-IsProper socket _)),
          (h, p),
        ))

  connect-IsProper : All (IsProper socket) (ensure_connected socket)
  unfolding ensure_connected
  connect-IsProper =
      either (All (IsProper socket)) (is_connected socket || is_connecting socket) []
        (connect_to_server ∷ []) (λ t. tt) (λ n. (tt, tt))

  on_error-Keeps :
      (c : FallbackClient) → InBounds c → IsPending c → Keeps socket (on_error socket c)
  unfolding on_error
  on_error-Keeps c h p =
      either (Keeps socket) (not (is_connected socket)) _ _ (λ t. reconnect_later-Keeps c h p)
        (λ n. (tt, (h, p)))

  on_heartbeat-Keeps :
      (c : FallbackClient) → InBounds c → IsPending c → Keeps socket (on_heartbeat socket c)
  unfolding on_heartbeat
  on_heartbeat-Keeps c h p =
      either (Keeps socket) (not (is_connected socket) || not c.registered) _ _ (λ t. (tt, (h, p)))
        (λ n. (send-IsProper socket _, (h, p)))

  module _ (trimmed : List ℕ → List ℕ) (from_json : List ℕ → Option Object) where
    handle_json-Keeps :
        (o : Option Object) (c : FallbackClient)
        → InBounds c
        → IsPending c
        → Keeps socket (handle_json socket trimmed from_json o c)
    handle_json-Keeps none c h p = ((tt, tt), (h, p))
    handle_json-Keeps (some msg) c h p = handle_message-Keeps socket msg c h p

    handle_line-Keeps :
        (raw : List ℕ) (c : FallbackClient)
        → InBounds c
        → IsPending c
        → Keeps socket (handle_line socket trimmed from_json raw c)
    handle_line-Keeps raw c h p =
        either (Keeps socket) (is_nil (trimmed raw)) _ _ (λ t. (tt, (h, p)))
          (λ n. handle_json-Keeps (from_json (trimmed raw)) c h p)

    handle_lines-Keeps :
        (lines : List (List ℕ)) (c : FallbackClient)
        → InBounds c
        → IsPending c
        → Keeps socket (handle_lines socket trimmed from_json lines c)
    unfolding handle_lines
    handle_lines-Keeps [] c h p = (tt, (h, p))
    handle_lines-Keeps (line ∷ lines) c h p =
        let (acts, (bounds, pending)) = handle_line-Keeps line c h p in
        let (more, kept) =
          handle_lines-Keeps lines (handle_line socket trimmed from_json line c).1 bounds pending in
        (
          All-append (IsProper socket) (handle_line socket trimmed from_json line c).0 _ acts more,
          kept,
        )

    handle-Keeps :
        (e : ClientEvent) (c : FallbackClient)
        → InBounds c
        → IsPending c
        → Keeps socket (handle socket trimmed from_json e c)
    unfolding handle on_ready_read on_reconnect_timeout start send_response send_cancel
    handle-Keeps started c h p = ((tt, connect-IsProper), (h, p))
    handle-Keeps connected c h p = on_connected-Keeps c
    handle-Keeps disconnected c h p = on_disconnected-Keeps c h
    handle-Keeps (ready_read bytes) c h p = handle_lines-Keeps _ _ h p
    handle-Keeps error_occurred c h p = on_error-Keeps c h p
    handle-Keeps reconnect_timeout c h p = (connect-IsProper, (h, p))
    handle-Keeps subscribe_watchdog c h p = on_watchdog-Keeps c h p
    handle-Keeps heartbeat c h p = on_heartbeat-Keeps c h p
    handle-Keeps (respond id text) c h p = (send-IsProper socket _, (h, p))
    handle-Keeps (cancel id) c h p = (send-IsProper socket _, (h, p))

-- The states after any events, the socket being in any state at each of them.
pub data IsReachable (trimmed : List ℕ → List ℕ) (from_json : List ℕ → Option Object)
    : FallbackClient → Type 0 where
  initial : IsReachable trimmed from_json new_client
  after :
      {c : FallbackClient} (socket : SocketState) (e : ClientEvent)
      → IsReachable trimmed from_json c
      → IsReachable trimmed from_json (handle socket trimmed from_json e c).1

reachable-sane :
    (trimmed : List ℕ → List ℕ) (from_json : List ℕ → Option Object) (c : FallbackClient)
    → IsReachable trimmed from_json c
    → InBounds c × IsPending c
reachable-sane trimmed from_json c initial = (omega arith, inl refl)
reachable-sane trimmed from_json d (after {c} socket e r) =
    let (h, p) = reachable-sane trimmed from_json c r in
    (handle-Keeps socket trimmed from_json e c h p).1

-- Whatever happens to a client, in whatever order: the delay before the next attempt to connect lies
-- between 200 ms and 4 s, and so does every delay that the timer is started with; nothing is written
-- to a socket that is not connected; and a status of the providers is kept for later only while the
-- client is not registered or has no id.
pub reachable-Keeps :
    (trimmed : List ℕ → List ℕ) (from_json : List ℕ → Option Object) (c : FallbackClient)
    (socket : SocketState) (e : ClientEvent)
    → IsReachable trimmed from_json c
    → Keeps socket (handle socket trimmed from_json e c)
reachable-Keeps trimmed from_json c socket e r =
    let (h, p) = reachable-sane trimmed from_json c r in
    handle-Keeps socket trimmed from_json e c h p
