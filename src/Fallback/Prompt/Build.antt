-- ===== src/Fallback/Prompt/Build.antt =====
-- src/fallback/prompt/PromptModelBuilder.cpp: the model of a session's event.
pub mod Steps
pub mod Model
pub mod Safety
use bb_auth.Prelude.{
  ℕ, Bool, true, false, Option, none, some, String, List, [], ◌∷◌, ◌++◌, ◌&&◌, ◌||◌, not,
  if◌then◌else◌, ◌==◌, string_eq,
}
use bb_auth.Prelude.Int.{ℤ}
use bb_auth.Json.{Object, value, to_string, to_object, to_integer}
use bb_auth.Qt.{Texts, ◌<>◌, has_text, split, join, replace, after_last}
use text.Mathlib.Text.{starts_with}
use bb_auth.Fallback.Prompt.{Patterns}
use bb_auth.Fallback.Prompt.Text.{normalize_detail_text, normalize_compare_text}
use bb_auth.Fallback.Prompt.Extract.{
  extract_command_name, extract_unlock_target_from_context, looks_like_fingerprint_prompt,
  looks_like_fido_prompt, looks_like_touch_prompt,
}

pub data PromptIntent : Type 0 where
  generic unlock_intent run_command open_pgp fingerprint fido2 : PromptIntent

pub record PromptDisplayModel : Type 0 where
  pub intent : PromptIntent
  pub title : String
  pub summary : String
  pub requestor : String
  pub details : String
  pub prompt : String
  pub passphrase_prompt : Bool
  pub allow_empty_response : Bool

abbrev pub new_model : PromptDisplayModel
new_model = record {
  intent = generic;
  title = "";
  summary = "";
  requestor = "";
  details = "";
  prompt = "";
  passphrase_prompt = false;
  allow_empty_response = false;
}

abbrev pub one_of : String → List String → Bool
one_of text [] = false
one_of text (word ∷ words) = word == text || one_of text words

-- A text without its first character.
abbrev pub tail : String → String
tail String.[] = ""
tail (String.◌∷◌ c s) = s

module _ (t : Texts) where
  unfoldable pub is_low_signal_command : String → Bool
  is_low_signal_command command_name =
      let normalized = t.to_lower (t.trimmed command_name) in
      if normalized == "" then true else one_of normalized ("true" ∷ "sh" ∷ "bash" ∷ [])

  abbrev pub is_identity_line : String → Bool
  is_identity_line line = has_text line "\"" && (has_text line "<" && has_text line ">")

  abbrev pub is_key_metadata_line : String → Bool
  is_key_metadata_line line =
      let lower = t.to_lower line in
      (has_text lower " id " || starts_with lower "id ") && has_text lower "created"

  unfoldable pub clean_identity : Patterns → String → String
  clean_identity r identity = t.trimmed (r.without_ci " (github)" (t.simplified identity))

  -- The words of a text, each with a capital.
  unfoldable pub capitalized : List String → List String
  capitalized [] = []
  capitalized (word ∷ words) =
      let rest = capitalized words in
      if word == "" then rest else (t.first_upper word <> tail word) ∷ rest

  abbrev pub last_part : String → Option String → String
  last_part action_id none = action_id
  last_part action_id (some part) = if part == "" then action_id else part

  unfoldable pub humanize_action_id : String → String
  unfolding capitalized
  humanize_action_id given =
      let action_id = t.trimmed given in
      let part = last_part action_id (after_last b'.' action_id) in
      let words = t.simplified (replace b'/' " " (replace b'_' " " (replace b'-' " " part))) in
      if action_id == ""
      then ""
      else if words == ""
      then ""
      else join " " (capitalized (split b' ' words))

  unfoldable pub is_generic_auth_summary : String → Bool
  unfolding normalize_compare_text
  is_generic_auth_summary summary =
      let normalized = normalize_compare_text t summary in
      if normalized == ""
      then true
      else one_of normalized (
          "authentication is required" ∷ "authentication required" ∷ "authorization is required"
          ∷ "authorization required" ∷ "authenticate to continue"
          ∷ "authentication is required to continue" ∷ "authorization is required to continue" ∷ [])

-- The constants that `build` begins with.
pub record Facts : Type 0 where
  pub source : String
  pub context : Object
  pub event_prompt : String
  pub message : String
  pub description : String
  pub requestor_name : String
  pub requestor_pid : ℤ
  pub action_id : String
  pub action_summary : String
  pub action_user : String
  pub info_text : String
  pub normalized_message : String
  pub normalized_description : String
  pub detail_text : String
  pub command_name : String
  pub unlock_target : String
  pub fingerprint_hint : Bool
  pub fido_hint : Bool
  pub touch_hint : Bool

abbrev pub if_source : Bool → String → String
if_source b text = if b then text else ""

module _ (t : Texts) (r : Patterns) where
  abbrev pub auth_hint_text : String → String → String → String
  auth_hint_text detail_text info_text live_prompt_text =
      t.to_lower (detail_text <> (" " <> (info_text <> (" " <> live_prompt_text))))

  abbrev pub target_of : String → Object → String → String
  target_of source context requestor_name =
      let found =
        if_source (source == "polkit" || source == "keyring")
          (extract_unlock_target_from_context t r context) in
      if source == "keyring" && found == "" then requestor_name else found

  unfoldable pub facts_of : Object → Facts
  unfolding extract_unlock_target_from_context extract_command_name humanize_action_id
      normalize_detail_text looks_like_fingerprint_prompt looks_like_fido_prompt
      looks_like_touch_prompt
  facts_of event =
      let source = to_string (value "source" event) in
      let context = to_object (value "context" event) in
      let requestor = to_object (value "requestor" context) in
      let message = to_string (value "message" context) in
      let description = to_string (value "description" context) in
      let action_id = t.trimmed (to_string (value "actionId" context)) in
      let info_text = normalize_detail_text t (to_string (value "info" event)) in
      let live_prompt_text = normalize_detail_text t (to_string (value "prompt" event)) in
      let normalized_message = normalize_detail_text t message in
      let normalized_description = normalize_detail_text t description in
      let detail_text = t.to_lower (normalized_description <> (" " <> normalized_message)) in
      let hint_text = auth_hint_text detail_text info_text live_prompt_text in
      let requestor_name = t.trimmed (to_string (value "name" requestor)) in
      record {
        source = source;
        context = context;
        event_prompt = to_string (value "prompt" event);
        message = message;
        description = description;
        requestor_name = requestor_name;
        requestor_pid = to_integer (value "pid" requestor);
        action_id = action_id;
        action_summary = if_source (source == "polkit") (humanize_action_id t action_id);
        action_user = t.trimmed (to_string (value "user" context));
        info_text = info_text;
        normalized_message = normalized_message;
        normalized_description = normalized_description;
        detail_text = detail_text;
        command_name = if_source (source == "polkit") (extract_command_name t r message);
        unlock_target = target_of source context requestor_name;
        fingerprint_hint = looks_like_fingerprint_prompt t hint_text;
        fido_hint = looks_like_fido_prompt t hint_text;
        touch_hint =
            looks_like_fingerprint_prompt t hint_text
            || (looks_like_fido_prompt t hint_text || looks_like_touch_prompt t hint_text);
      }

abbrev pub intent_of : Facts → PromptIntent
intent_of f =
    if f.source == "polkit" && f.fingerprint_hint
    then fingerprint
    else if f.source == "polkit" && f.fido_hint
    then fido2
    else if f.source == "pinentry"
        && (has_text f.detail_text "openpgp" || has_text f.detail_text "gpg")
    then open_pgp
    else if f.source == "polkit" && not (f.command_name == "")
    then run_command
    else if (f.source == "polkit" || f.source == "keyring") && not (f.unlock_target == "")
    then unlock_intent
    else generic
