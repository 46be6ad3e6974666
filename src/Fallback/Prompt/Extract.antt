-- ===== src/Fallback/Prompt/Extract.antt =====
-- src/fallback/prompt/PromptExtractors.cpp and PromptHeuristics.cpp.
use bb_auth.Prelude.{
  Bool, true, false, Option, none, some, String, List, [], ◌∷◌, ◌++◌, ◌&&◌, ◌||◌, not,
  if◌then◌else◌, ◌==◌, string_eq,
}
use text.Mathlib.Text.{starts_with}
use bb_auth.Json.{Object, value, to_string}
use bb_auth.Qt.{Texts, has_text, split, chopped, ends_with}
use bb_auth.Fallback.Prompt.{Patterns}
use bb_auth.Fallback.Prompt.Text.{normalize_detail_text, normalize_compare_text, unique_joined}

module _ (t : Texts) where
  abbrev pub capture_first : Option String → String
  capture_first none = ""
  capture_first (some group) = t.trimmed group

  abbrev pub begins_unlock : String → Bool
  begins_unlock line =
      starts_with line "authenticate to unlock"
      || (starts_with line "unlock"
          || (starts_with line "use your password to unlock"
              || starts_with line "use your account password to unlock"))

  unfoldable pub is_template_unlock_line : String → String → Bool
  unfolding normalize_compare_text
  is_template_unlock_line line target =
      let normalized = normalize_compare_text t line in
      let normalized_target = normalize_compare_text t target in
      if normalized == ""
      then true
      else if not (normalized_target == "") && normalized == normalized_target
      then true
      else if not (normalized_target == "")
          && (has_text normalized "unlock" && has_text normalized normalized_target)
      then begins_unlock normalized
      else false

  -- The lines of a candidate that say more than the template does.
  unfoldable pub telling_lines : String → List String → List String
  unfolding is_template_unlock_line
  telling_lines target [] = []
  telling_lines target (raw ∷ lines) =
      let rest = telling_lines target lines in
      let line = t.trimmed raw in
      if line == "" || is_template_unlock_line line target then rest else line ∷ rest

  unfoldable pub unlock_details : String → List String → List String
  unfolding telling_lines
  unlock_details target [] = []
  unlock_details target (candidate ∷ candidates) =
      let rest = unlock_details target candidates in
      if candidate == "" then rest else telling_lines target (split b'\n' candidate) ++ rest

  unfoldable pub build_unlock_details : Object → String → String
  unfolding unlock_details unique_joined normalize_detail_text
  build_unlock_details context target = unique_joined t (
      unlock_details target (
        normalize_detail_text t (to_string (value "description" context))
        ∷ normalize_detail_text t (to_string (value "message" context))
        ∷ normalize_detail_text t (to_string (value "keyringName" context))
        ∷ []))

  unfoldable pub contains_any_term : String → List String → Bool
  contains_any_term lower [] = false
  contains_any_term lower (term ∷ terms) = has_text lower term || contains_any_term lower terms

  unfoldable pub looks_like_fingerprint_prompt : String → Bool
  unfolding contains_any_term
  looks_like_fingerprint_prompt text =
      contains_any_term (t.to_lower text)
        ("fingerprint" ∷ "finger print" ∷ "fprint" ∷ "swipe" ∷ "scan your finger" ∷ [])

  unfoldable pub looks_like_fido_prompt : String → Bool
  unfolding contains_any_term
  looks_like_fido_prompt text = contains_any_term (t.to_lower text) (
      "fido" ∷ "fido2" ∷ "webauthn" ∷ "security key" ∷ "yubikey" ∷ "hardware token"
      ∷ "user presence" ∷ [])

  unfoldable pub looks_like_touch_prompt : String → Bool
  unfolding contains_any_term
  looks_like_touch_prompt text =
      contains_any_term (t.to_lower text)
        ("touch" ∷ "tap" ∷ "insert" ∷ "use your security key" ∷ "verify your identity" ∷ [])

module _ (t : Texts) (r : Patterns) where
  unfoldable pub extract_command_name : String → String
  extract_command_name message =
      let quoted = capture_first t (r.quoted_run message) in
      let command = if quoted == "" then capture_first t (r.path message) else quoted in
      if command == ""
      then ""
      else if t.file_name command == ""
      then command
      else t.file_name command

  unfoldable pub extract_unlock_target : String → String
  unfolding normalize_detail_text
  extract_unlock_target text =
      let normalized = normalize_detail_text t text in
      let target = t.trimmed (capture_first t (r.unlock normalized)) in
      if normalized == ""
      then ""
      else if capture_first t (r.unlock normalized) == ""
      then ""
      else t.trimmed (if ends_with "." target then chopped target else target)

  unfoldable pub extract_unlock_target_from_context : Object → String
  unfolding extract_unlock_target
  extract_unlock_target_from_context context =
      let named = extract_unlock_target (to_string (value "keyringName" context)) in
      let told = extract_unlock_target (to_string (value "message" context)) in
      if not (named == "")
      then named
      else if not (told == "")
      then told
      else extract_unlock_target (to_string (value "description" context))
