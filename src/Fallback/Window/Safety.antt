-- ===== src/Fallback/Window/Safety.antt =====
-- What the window sends, and what becomes of a session that it shows.
use bb_auth.Prelude.{
  ◌≡◌, refl, ◌⊎◌, Bool, true, false, [], ◌∷◌, All, arith, ◌&&◌, ◌||◌, not, ◌==◌, string_eq, either,
  eq_iff, eq_refl,
}
use bb_auth.Json.{Object, value, to_string}
use bb_auth.Qt.{Texts}
use bb_auth.Fallback.Client.Messages.{ClientEvent}
use bb_auth.Fallback.Prompt.{Patterns}
use bb_auth.Fallback.Window.{
  Window, WindowAct, call, after_success, after_failure, Change, on_submit, clear_session,
  handle_cancel_request, close_event, is_cancel,
}
use bb_auth.Fallback.Window.Events.{
  WindowEvent, created, updated, closed, connection_changed, provider_changed, status_changed,
  submits, cancels, closes, times_out, success_delay, failure_delay, handle_event,
  on_session_closed, on_session_created, on_success_delay, is_other,
}

-- A call of the client concerns the session that the window shows: an answer is "confirm" to a
-- request to confirm, else the text of the input, which is not empty unless that is allowed.
abbrev pub IsOwn : Window → WindowAct → Type 0
IsOwn w (call (ClientEvent.respond id text)) =
    (id ≡ w.current_session_id)
    × ((id == "") ≡ false)
    × (((w.confirm_only ≡ true) × (text ≡ "confirm"))
        ⊎ ((w.confirm_only ≡ false)
            × (text ≡ w.input)
            × ((w.allow_empty_response ≡ true) ⊎ ((text == "") ≡ false))))
IsOwn w (call (ClientEvent.cancel id)) = (id ≡ w.current_session_id) × ((id == "") ≡ false)
IsOwn w (call _) = ⊥
IsOwn w after_success = Unit
IsOwn w (after_failure id) = (id ≡ w.current_session_id) × ((id == "") ≡ false)

submit-IsOwn : (p : Bool) (w : Window) → All (IsOwn w) (on_submit p w).0
unfolding on_submit
submit-IsOwn p w =
    either (λ (c : Change). All (IsOwn w) c.0) (w.current_session_id == "") _ _ (λ e. tt)
      (λ e.
        either (λ (c : Change). All (IsOwn w) c.0)
          (not w.confirm_only && (not w.allow_empty_response && w.input == "")) _ _ (λ h. tt)
          (λ h. ((refl, e, ground (arith, h)), tt)))

cancel-IsOwn : (b : Bool) (w : Window) → All (IsOwn w) (handle_cancel_request b w).0
unfolding handle_cancel_request
cancel-IsOwn b w =
    let P = λ (c : Change). All (IsOwn w) c.0 in
    either P (w.current_session_id == "") _ _ (λ e. tt)
      (λ e.
        either P (w.busy && is_cancel w.pending_action) _ _ (λ h. tt)
          (λ h. either P (w.busy && not b) _ _ (λ k. tt) (λ k. ((refl, e), tt))))

close-IsOwn : (w : Window) → All (IsOwn w) (close_event w).0
unfolding close_event
close-IsOwn w =
    either (λ (c : Change). All (IsOwn w) c.0) (not (w.current_session_id == "")) _ _
      (λ e. ((refl, ground (arith, e)), tt)) (λ e. tt)

closed-IsOwn :
    (t : Texts) (r : Patterns) (event : Object) (w : Window)
    → All (IsOwn w) (on_session_closed t r event w).0
unfolding on_session_closed
closed-IsOwn t r event w =
    let P = λ (c : Change). All (IsOwn w) c.0 in
    let id = to_string (value "id" event) in
    let result = to_string (value "result" event) in
    either P (is_other t r event w) _ _ (λ e. tt)
      (λ e.
        either P (result == "success") _ _ (λ h. (tt, tt))
          (λ h.
            either P (result == "cancelled" || result == "canceled") _ _ (λ k. tt)
              (λ k. ((ground (arith, e, eq_iff id w.current_session_id), ground (arith, e)), tt))))

-- Whatever happens, what the window asks of its client concerns the session that it shows: an answer
-- or a cancellation has that session's id, which is not empty; the answer is "confirm" if the session
-- asks for a confirmation only, and else it is the text of the input, which is empty only if the
-- session allows an empty answer.
pub handle_event-IsOwn :
    (t : Texts) (r : Patterns) (e : WindowEvent) (w : Window)
    → All (IsOwn w) (handle_event t r e w).0
unfolding handle_event
handle_event-IsOwn t r (created event) w = tt
handle_event-IsOwn t r (updated event) w = tt
handle_event-IsOwn t r (closed event) w = closed-IsOwn t r event w
handle_event-IsOwn t r (connection_changed b) w = tt
handle_event-IsOwn t r (provider_changed b) w = tt
handle_event-IsOwn t r (status_changed text) w = tt
handle_event-IsOwn t r (submits p) w = submit-IsOwn p w
handle_event-IsOwn t r (cancels b) w = cancel-IsOwn b w
handle_event-IsOwn t r closes w = close-IsOwn w
handle_event-IsOwn t r times_out w = tt
handle_event-IsOwn t r success_delay w = tt
handle_event-IsOwn t r (failure_delay id) w = tt

-- The window after a success of its session, the start of another, and the delay of 300 ms.
abbrev pub late : Texts → Patterns → Object → Object → Window → Window
late t r success start w =
    let closing = (handle_event t r (closed success) w).1 in
    let next = (handle_event t r (created start) closing).1 in
    (handle_event t r success_delay next).1

-- The end of a session with success delays the end of what the window shows. A session that starts
-- before that is dropped: its start shows it, but the delayed end clears it and hides the window.
pub late-dropped :
    (t : Texts) (r : Patterns) (success start : Object) (w : Window)
    → to_string (value "id" success) ≡ w.current_session_id
    → (w.current_session_id == "") ≡ false
    → to_string (value "result" success) ≡ "success"
    → (to_string (value "id" start) == "") ≡ false
    → ((handle_event t r (closed success) w).0 ≡ after_success ∷ [])
      × ((handle_event t r
            (created start)
            (handle_event t r (closed success) w).1).1.current_session_id
          ≡ to_string (value "id" start))
      × ((late t r success start w).current_session_id ≡ "")
      × ((late t r success start w).visible ≡ false)
unfolding handle_event on_session_created on_session_closed on_success_delay clear_session
late-dropped t r success start w same shown told h =
    (rw (same, shown, told, eq_refl w.current_session_id) refl, rw h refl, refl, refl)
