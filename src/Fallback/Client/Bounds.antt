-- ===== src/Fallback/Client/Bounds.antt =====
-- What every event keeps of the client, and what it does to the socket.
use bb_auth.Prelude.{
  ◌≤◌, ◌≡◌, refl, ◌⊎◌, inl, inr, Bool, true, false, String, List, [], ◌∷◌, ◌&&◌, ◌||◌, not, arith,
  if◌then◌else◌, ◌==◌, string_eq, either, eq_iff, All, All-append,
}
use bb_auth.Json.{Object, value, has_key, to_string, to_bool}
use bb_auth.Fallback.Client.{
  FallbackClient, SocketState, is_connected, Act, status_message, write, start_reconnect_timer,
  Step, send_json, set_provider_active,
}
use bb_auth.Fallback.Client.Messages.{
  handle_message, apply_pending_provider_state, cleared, on_registered, on_active, on_error_message,
  session_event,
}

-- The delay before the next attempt to connect lies between 200 ms and 4 s.
abbrev pub InBounds : FallbackClient → Type 0
InBounds c = (200 ≤ c.reconnect_delay_ms) × (c.reconnect_delay_ms ≤ 4000)

-- A status of the providers is kept for later only while the client does not know its own id.
abbrev pub IsPending : FallbackClient → Type 0
IsPending c =
    (c.pending_provider_active_known ≡ false) ⊎ ((c.registered ≡ false) ⊎ (c.provider_id ≡ ""))

-- The timer is started within the bounds, and nothing is written to a socket that is not connected.
abbrev pub IsProper : SocketState → Act → Type 0
IsProper socket (write o) = is_connected socket ≡ true
IsProper socket (start_reconnect_timer ms) = (200 ≤ ms) × (ms ≤ 4000)
IsProper socket _ = Unit

abbrev IsFine : SocketState → Step → Type 0
IsFine socket (acts, c) = All (IsProper socket) acts × InBounds c

abbrev pub Keeps : SocketState → Step → Type 0
Keeps socket (acts, c) = All (IsProper socket) acts × (InBounds c × IsPending c)

pub if-All :
    (P : Act → Type 0) (b : Bool) (acts : List Act) → All P acts → All P (if b then acts else [])
if-All P true acts h = h
if-All P false acts h = tt

module _ (socket : SocketState) where
  pub send-IsProper : (o : Object) → All (IsProper socket) (send_json socket o)
  send-IsProper o =
      either (All (IsProper socket)) (not (is_connected socket)) [] (write o ∷ []) (λ t. tt)
        (λ n. (ground (arith, n), tt))

  set_provider_active-IsFine :
      (active : Bool) (c : FallbackClient)
      → InBounds c
      → IsFine socket (set_provider_active socket active c)
  unfolding set_provider_active
  set_provider_active-IsFine active c h =
      either (IsFine socket) (if active then c.provider_active else not c.provider_active) _ _
        (λ t. (tt, h))
        (λ n. (
          (
            tt,
            if-All (IsProper socket) (active && (is_connected socket && c.registered)) _
                (send-IsProper _),
          ),
          h,
        ))

  pub set_provider_active-Keeps :
      (active : Bool) (c : FallbackClient)
      → InBounds c
      → IsPending c
      → Keeps socket (set_provider_active socket active c)
  unfolding set_provider_active
  set_provider_active-Keeps active c h p =
      either (Keeps socket) (if active then c.provider_active else not c.provider_active) _ _
        (λ t. (tt, (h, p)))
        (λ n. (
          (
            tt,
            if-All (IsProper socket) (active && (is_connected socket && c.registered)) _
                (send-IsProper _),
          ),
          (h, p),
        ))

  cleared-Keeps :
      (active : Bool) (c : FallbackClient)
      → InBounds c
      → Keeps socket (cleared (set_provider_active socket active c))
  cleared-Keeps active c h =
      let (proper, bounds) = set_provider_active-IsFine active c h in (proper, (bounds, inl refl))

  -- What the client does with a status that it knows its id for, or does not.
  apply_pending-Keeps :
      (c : FallbackClient) → InBounds c → Keeps socket (apply_pending_provider_state socket c)
  unfolding apply_pending_provider_state
  apply_pending-Keeps c h =
      either (Keeps socket)
        (not c.pending_provider_active_known || (not c.registered || c.provider_id == "")) _ _
        (λ t. (tt, (h, ground (arith, t, eq_iff c.provider_id "")))) (λ n. cleared-Keeps _ c h)

  on_registered-Keeps :
      (msg : Object) (c : FallbackClient) → InBounds c → Keeps socket (on_registered socket msg c)
  on_registered-Keeps msg c h =
      either (Keeps socket) (has_key "active" msg) _ _
        (λ t.
          cleared-Keeps _ (record c { registered = true; provider_id = to_string (value "id" msg) })
            h)
        (λ n.
          apply_pending-Keeps
            (record c { registered = true; provider_id = to_string (value "id" msg) }) h)

  on_active-Keeps :
      (msg : Object) (c : FallbackClient)
      → InBounds c
      → IsPending c
      → Keeps socket (on_active socket msg c)
  on_active-Keeps msg c h p =
      let active = to_bool (value "active" msg) in
      either (Keeps socket) (active && (not c.registered || c.provider_id == "")) _ _
        (λ t. (tt, (h, inr (ground (arith, t, eq_iff c.provider_id "")))))
        (λ n.
          either (Keeps socket) (not active) _ _
            (λ t.
              either (Keeps socket) (not c.registered) _ _
                (λ u. (tt, (h, inr (inl (ground (arith, u)))))) (λ u. cleared-Keeps true c h))
            (λ t. set_provider_active-Keeps _ c h p))

  on_error-Keeps :
      (msg : Object) (c : FallbackClient)
      → InBounds c
      → IsPending c
      → Keeps socket (on_error_message socket msg c)
  on_error-Keeps msg c h p =
      let text = to_string (value "message" msg) in
      let told =
        either (Keeps socket) (text == "Not active UI provider")
          (set_provider_active socket false c) ([], c) (λ t. set_provider_active-Keeps false c h p)
          (λ n. (tt, (h, p))) in
      (All-append (IsProper socket) _ (status_message text ∷ []) told.0 (tt, tt), told.1)

  session_event-IsProper :
      (type : String) (msg : Object) → All (IsProper socket) (session_event type msg)
  session_event-IsProper type msg =
      let is = λ (word : String). either (All (IsProper socket)) (type == word) in
      is "session.created" _ _ (λ t. (tt, tt))
        (λ n.
          is "session.updated" _ _ (λ t. (tt, tt))
            (λ n. is "session.closed" _ _ (λ t. (tt, tt)) (λ n. tt)))

  pub handle_message-Keeps :
      (msg : Object) (c : FallbackClient)
      → InBounds c
      → IsPending c
      → Keeps socket (handle_message socket msg c)
  unfolding handle_message
  handle_message-Keeps msg c h p =
      let type = to_string (value "type" msg) in
      let is = λ (word : String). either (Keeps socket) (type == word) in
      is "subscribed" _ _
        (λ t.
          either (Keeps socket) (has_key "active" msg) _ _
            (λ u. set_provider_active-Keeps _ (record c { subscribed = true }) h p)
            (λ u. (tt, (h, p))))
        (λ n.
          is "ui.registered" _ _ (λ t. on_registered-Keeps msg c h)
            (λ n.
              is "ui.active" _ _ (λ t. on_active-Keeps msg c h p)
                (λ n.
                  is "pong" _ _ (λ t. (tt, (h, p)))
                    (λ n.
                      is "ok" _ _ (λ t. (tt, (h, p)))
                        (λ n.
                          is "error" _ _ (λ t. on_error-Keeps msg c h p)
                            (λ n.
                              either (Keeps socket) (not c.provider_active && c.registered) _ _
                                (λ t. (tt, (h, p)))
                                (λ t. (session_event-IsProper type msg, (h, p)))))))))
