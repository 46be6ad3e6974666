-- ===== src/Fallback/Client/Backoff.antt =====
-- The delays between the attempts to connect.
use bb_auth.Prelude.{
  ℕ, zero, suc, ◌*◌, ◌^◌, ◌≡◌, refl, ◌∙◌, true, false, [], ◌∷◌, arith, ltb, if◌then◌else◌,
  Bool-cases, inl, inr,
}
use bb_auth.Fallback.Client.{
  FallbackClient, Step, ◌then_do◌, connected_state, other_state, connection_state_changed,
  status_message, connect_to_server, start_reconnect_timer, next_delay, reconnect_later,
  ensure_connected, set_provider_active, on_connected, on_disconnected, on_error,
  on_reconnect_timeout,
}

-- A connection that is made and lost.
abbrev pub lost : FallbackClient → Step
lost c = on_disconnected other_state (on_connected connected_state c).1

-- The timer runs out, and the attempt to connect fails.
abbrev pub failed_attempt : FallbackClient → Step
failed_attempt c = on_reconnect_timeout other_state c then_do on_error other_state

-- `n` attempts to connect that fail.
unfoldable pub failed_attempts : ℕ → FallbackClient → FallbackClient
failed_attempts zero c = c
failed_attempts (suc n) c = (failed_attempt (failed_attempts n c)).1

abbrev pub capped : ℕ → ℕ
capped ms = if ltb ms 4000 then ms else 4000

capped-double : (n : ℕ) → next_delay (capped (200 * 2 ^ n)) ≡ capped (200 * 2 ^ suc n)
capped-double n = let e : 200 * 2 ^ suc n ≡ 2 * (200 * 2 ^ n) = omega arith in ground (arith, e)

-- The client while its timer runs, with the delay of the attempt after the next.
abbrev Waits : ℕ → FallbackClient → Type 0
Waits ms c = (c.reconnect_timer_active ≡ true) × (c.reconnect_delay_ms ≡ ms)

failed_attempt-Waits :
    (c : FallbackClient) (ms : ℕ)
    → Waits ms c
    → ((failed_attempt c).0 ≡ connect_to_server ∷ start_reconnect_timer ms ∷ [])
      × Waits (next_delay ms) (failed_attempt c).1
unfolding on_reconnect_timeout on_error reconnect_later ensure_connected
failed_attempt-Waits c ms h = rw h.1 (refl, (refl, refl))

lost-Waits :
    (c : FallbackClient)
    → c.reconnect_timer_active ≡ false
    → ((lost c).0
        ≡ connection_state_changed false
          ∷ status_message "Disconnected from auth daemon, reconnecting..."
          ∷ start_reconnect_timer 200
          ∷ [])
      × Waits 400 (lost c).1
unfolding on_connected on_disconnected set_provider_active reconnect_later
lost-Waits c h = elim (Bool-cases c.provider_active) [
  | inl p ↦ rw (p, h) (refl, (refl, refl))
  | inr p ↦ rw (p, h) (refl, (refl, refl))
]

failed_attempts-Waits :
    (n : ℕ) (c : FallbackClient)
    → c.reconnect_timer_active ≡ false
    → Waits (capped (200 * 2 ^ suc n)) (failed_attempts n (lost c).1)
unfolding failed_attempts
failed_attempts-Waits zero c h = (lost-Waits c h).1
failed_attempts-Waits (suc n) c h =
    let waits = failed_attempts-Waits n c h in
    let (running, delay) = (failed_attempt-Waits (failed_attempts n (lost c).1) _ waits).1 in
    (running, delay ∙ capped-double (suc n))

-- A connection that is lost is made again after 200 ms, and the n-th attempt in a row that fails is
-- followed by a wait of 200 * 2^n ms, but at most 4 s (if the timer did not run when the connection
-- was made). Between two attempts further errors of the socket change nothing.
pub backoff-delay :
    (n : ℕ) (c : FallbackClient)
    → c.reconnect_timer_active ≡ false
    → ((lost c).0
        ≡ connection_state_changed false
          ∷ status_message "Disconnected from auth daemon, reconnecting..."
          ∷ start_reconnect_timer 200
          ∷ [])
      × ((failed_attempt (failed_attempts n (lost c).1)).0
          ≡ connect_to_server ∷ start_reconnect_timer (capped (200 * 2 ^ suc n)) ∷ [])
      × (on_error other_state (failed_attempts n (lost c).1) ≡ ([], failed_attempts n (lost c).1))
unfolding on_error reconnect_later
backoff-delay n c h =
    let waits = failed_attempts-Waits n c h in
    (
      (lost-Waits c h).0,
      (failed_attempt-Waits (failed_attempts n (lost c).1) _ waits).0,
      rw waits.0 refl,
    )
