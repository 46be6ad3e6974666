-- ===== src/MessageRouter.antt =====
-- src/core/agent/MessageRouter.{hpp,cpp}: handlers by message type. A handler of the state `S` takes
-- the socket and the message; the result tells whether there was one.
pub mod Dispatch
use bb_auth.Prelude.{ℕ, Bool, true, false, Option, none, some, String, string_eq}
use bb_auth.Prelude.Hash.{Hash, find, insert}
use bb_auth.Json.{Object}

module _ {S : Type 0} where
  unfoldable pub register_handler :
      Hash String (S → ℕ → Object → S)
      → String
      → (S → ℕ → Object → S)
      → Hash String (S → ℕ → Object → S)
  register_handler handlers type handler = insert type handler handlers

  unfoldable pub handled : S → ℕ → Object → Option (S → ℕ → Object → S) → Bool × S
  handled s socket msg none = (false, s)
  handled s socket msg (some handler) = (true, handler s socket msg)

  unfoldable pub dispatch : Hash String (S → ℕ → Object → S) → S → ℕ → String → Object → Bool × S
  unfolding handled
  dispatch handlers s socket type msg = handled s socket msg (find type handlers)
