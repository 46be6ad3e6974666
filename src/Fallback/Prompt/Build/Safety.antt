-- ===== src/Fallback/Prompt/Build/Safety.antt =====
-- What the window asks for, and whether an empty answer may be sent.
use bb_auth.Prelude.{◌≡◌, false, String, ◌&&◌, not, arith, ◌==◌, string_eq}
use bb_auth.Qt.{Texts}
use bb_auth.Fallback.Prompt.Build.{PromptDisplayModel, Facts, intent_of}
use bb_auth.Fallback.Prompt.Build.Model.{
  with_requestor, with_summary, without_first, without_same, without_repeats, with_info,
  with_action,
}

-- What the steps before the prompt leave alone.
abbrev IsKept : PromptDisplayModel → PromptDisplayModel → Type 0
IsKept m n =
    (n.title ≡ m.title) × (n.intent ≡ m.intent) × (n.allow_empty_response ≡ m.allow_empty_response)

module _ (t : Texts) (f : Facts) where
  first-IsKept : (m : PromptDisplayModel) → IsKept m (without_first t m)
  first-IsKept m = ground arith

  same-IsKept : (m : PromptDisplayModel) → IsKept m (without_same t m)
  same-IsKept m = ground arith

  abbrev IsTitled : PromptDisplayModel → Type 0
  IsTitled m = (m.title == "") ≡ false

  -- The model before the prompt is added.
  abbrev unprompted : PromptDisplayModel → PromptDisplayModel
  unprompted m =
      with_action t f (with_info t f (without_repeats t (with_summary t (with_requestor t f m))))

-- A complete model: it has a title, the intent and a prompt; an empty answer is allowed exactly for a
-- polkit request that asks for a touch; no passphrase is asked for then, and one is for pinentry.
pub record IsPrompted (f : Facts) (m : PromptDisplayModel) : Type 0 where
  pub titled : (m.title == "") ≡ false
  pub intended : m.intent ≡ intent_of f
  pub prompted : (m.prompt == "") ≡ false
  pub empty_allowed : m.allow_empty_response ≡ (f.source == "polkit" && f.touch_hint)
  pub exclusive : (m.allow_empty_response && m.passphrase_prompt) ≡ false
  pub passphrase : (f.source == "pinentry" && not m.passphrase_prompt) ≡ false
