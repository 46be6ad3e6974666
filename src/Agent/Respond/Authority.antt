-- ===== src/Agent/Respond/Authority.antt =====
-- An answer or a cancellation from a socket that may not answer.
use bb_auth.Prelude.{ℕ, ◌≡◌, refl, false}
use bb_auth.Prelude.Hash.{find, insert}
use bb_auth.Json.{Object}
use bb_auth.MessageRouter.{dispatch, handled, register_handler}
use bb_auth.Registry.{is_authorized}
use bb_auth.Agent.State.{Agent, World, send}
use bb_auth.Agent.Keyring.{error_reply}
use bb_auth.Agent.Respond.{respond, handle_respond, handle_cancel}
use bb_auth.Agent.Messages.{handlers, handle_message}

-- A message `session.respond` or `session.cancel` of a socket that is not authorised has an error
-- reply to that socket as its only effect, whatever it says and whatever waits for an answer.
pub handle_message-unauthorized :
    (w : World) (boot : Object) (a : Agent) (socket : ℕ) (msg : Object)
    → is_authorized a.registry socket ≡ false
    → let refused = send w a socket (error_reply "Not active UI provider") in
      (handle_message w boot a socket "session.respond" msg ≡ refused)
      × (handle_message w boot a socket "session.cancel" msg ≡ refused)
unfolding handle_message handlers dispatch handled register_handler find insert handle_respond
    respond handle_cancel
handle_message-unauthorized w boot a socket msg h = (rw h refl, rw h refl)
