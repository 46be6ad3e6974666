-- ===== src/Fallback/Prompt/Build/Steps.antt =====
-- The title, the summary and the details, by the intent.
use bb_auth.Prelude.{
  String, List, [], ◌∷◌, ◌++◌, ◌&&◌, ◌||◌, not, if◌then◌else◌, ◌==◌, string_eq, is_nil,
}
use bb_auth.Qt.{Texts, ◌<>◌, has_text, split, join}
use bb_auth.Fallback.Prompt.{Patterns}
use bb_auth.Fallback.Prompt.Text.{
  normalize_detail_text, text_equivalent, first_meaningful_line, trim_to_length,
}
use bb_auth.Fallback.Prompt.Extract.{capture_first, build_unlock_details}
use bb_auth.Fallback.Prompt.Build.{
  PromptIntent, generic, unlock_intent, run_command, open_pgp, fingerprint, fido2,
  PromptDisplayModel, new_model, Facts, is_low_signal_command, is_identity_line,
  is_key_metadata_line, clean_identity,
}

-- `first`, or `second` if it is empty.
abbrev pub or_else : String → String → String
or_else first second = if first == "" then second else first

abbrev pub piece : String → List String
piece text = if text == "" then [] else text ∷ []

module _ (t : Texts) where
  unfoldable pub without_key_lines : List String → List String
  without_key_lines [] = []
  without_key_lines (line ∷ lines) =
      let rest = without_key_lines lines in
      if is_identity_line t line || is_key_metadata_line t line then rest else line ∷ rest

  abbrev pub pin_details : String → String
  pin_details pin_text =
      let lines = without_key_lines (split b'\n' pin_text) in
      if pin_text == "" then "" else if is_nil lines then pin_text else join "\n" lines

  abbrev pub unlock_model : Facts → PromptDisplayModel → PromptDisplayModel
  unlock_model f m = record m {
    title = "Unlock " <> f.unlock_target;
    summary = "Use your password to unlock " <> f.unlock_target;
    details = build_unlock_details t f.context f.unlock_target;
  }

  abbrev pub device_model : String → String → Facts → PromptDisplayModel → PromptDisplayModel
  device_model title hint f m = record m {
    title = title;
    summary = if f.info_text == "" then hint else first_meaningful_line t f.info_text;
    details = normalize_detail_text t f.description;
  }

  abbrev pub command_model : Facts → PromptDisplayModel → PromptDisplayModel
  command_model f m = record m {
    title = "Authorization Required";
    summary = or_else (first_meaningful_line t f.normalized_description) (
        or_else (first_meaningful_line t f.normalized_message) (
          if is_low_signal_command t f.command_name
          then "Administrative privileges required"
          else "Run " <> (f.command_name <> " as superuser")));
    details = "";
  }

  abbrev pub other_model : Facts → PromptDisplayModel → PromptDisplayModel
  other_model f m =
      let summary =
        or_else (first_meaningful_line t f.normalized_message)
          (first_meaningful_line t f.normalized_description) in
      record m {
        title =
            if f.source == "polkit" then "Authorization Required" else "Authentication Required";
        summary = summary;
        details =
            if not (f.normalized_description == "")
              && not (text_equivalent t f.normalized_description summary)
            then f.normalized_description
            else if not (f.normalized_message == "")
                && not (text_equivalent t f.normalized_message summary)
            then f.normalized_message
            else m.details;
      }

module _ (t : Texts) (r : Patterns) where
  -- Who the key belongs to, or its type; its id; when it was made.
  unfoldable pub pin_pieces : String → List String
  unfolding clean_identity trim_to_length
  pin_pieces text =
      let identity = clean_identity t r (capture_first t (r.quoted text)) in
      let made = capture_first t (r.created text) in
      (if not (identity == "")
        then trim_to_length t r identity 72 ∷ []
        else piece (capture_first t (r.key_type text)))
      ++ (piece (capture_first t (r.key_id text))
          ++ (if made == "" then [] else ("created " <> made) ∷ []))

  abbrev pub pin_model : PromptIntent → Facts → PromptDisplayModel → PromptDisplayModel
  pin_model intent f m =
      let text = or_else f.description f.message in
      let pieces = pin_pieces text in
      record m {
        title = elim intent [
          | open_pgp ↦ "Unlock OpenPGP Key"
          | _ ↦ if has_text f.detail_text "ssh" then "Unlock SSH Key" else "Authentication Required"
        ];
        summary = if not (is_nil pieces) then join "  •  " pieces else first_meaningful_line t text;
        details = pin_details t (normalize_detail_text t text);
      }

  abbrev pub pin_or_other : PromptIntent → Facts → PromptDisplayModel → PromptDisplayModel
  pin_or_other intent f m =
      if f.source == "pinentry" then pin_model intent f m else other_model t f m

  unfoldable pub by_intent : PromptIntent → Facts → PromptDisplayModel
  unfolding pin_pieces first_meaningful_line text_equivalent normalize_detail_text
      build_unlock_details is_low_signal_command without_key_lines
  by_intent unlock_intent f = unlock_model t f (record new_model { intent = unlock_intent })
  by_intent fingerprint f =
      device_model t "Verify Fingerprint" "Use your fingerprint sensor to continue" f
        (record new_model { intent = fingerprint })
  by_intent fido2 f =
      device_model t "Use Security Key" "Touch your security key to continue" f
        (record new_model { intent = fido2 })
  by_intent run_command f = command_model t f (record new_model { intent = run_command })
  by_intent open_pgp f = pin_or_other open_pgp f (record new_model { intent = open_pgp })
  by_intent generic f = pin_or_other generic f new_model
