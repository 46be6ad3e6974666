-- ===== src/MessageRouter/Dispatch.antt =====
-- What all the handlers keep.
use bb_auth.Prelude.{ℕ, String, [], ◌∷◌, All, string_eq, ◌==◌, inl, inr, Bool-cases}
use bb_auth.Prelude.Hash.{Hash, find, insert}
use bb_auth.Json.{Object}
use bb_auth.MessageRouter.{register_handler, dispatch, handled}

module _ {S : Type 0} (P : S → Type 0) where
  abbrev pub Keeps : (S → ℕ → Object → S) → Type 0
  Keeps h = (s : S) (socket : ℕ) (msg : Object) → P s → P (h s socket msg)

  abbrev pub AllKeep : Hash String (S → ℕ → Object → S) → Type 0
  AllKeep = All (λ e. Keeps e.1)

  pub register_handler-AllKeep :
      (t : Hash String (S → ℕ → Object → S)) (type : String) (h : S → ℕ → Object → S)
      → AllKeep t
      → Keeps h
      → AllKeep (register_handler t type h)
  unfolding register_handler insert
  register_handler-AllKeep [] type h k n = (n, tt)
  register_handler-AllKeep ((j, g) ∷ t) type h k n = elim (Bool-cases (j == type)) [
    | inl e ↦ rw e (n, k.1)
    | inr e ↦ rw e (k.0, register_handler-AllKeep t type h k.1 n)
  ]

  pub dispatch-keeps :
      (t : Hash String (S → ℕ → Object → S)) (s : S) (socket : ℕ) (type : String) (msg : Object)
      → AllKeep t
      → P s
      → P (dispatch t s socket type msg).1
  unfolding dispatch handled find
  dispatch-keeps [] s socket type msg k h = h
  dispatch-keeps ((j, g) ∷ t) s socket type msg k h = elim (Bool-cases (j == type)) [
    | inl e ↦ rw e (k.0 s socket msg h)
    | inr e ↦ rw e (dispatch-keeps t s socket type msg k.1 h)
  ]
