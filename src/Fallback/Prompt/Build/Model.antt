-- ===== src/Fallback/Prompt/Build/Model.antt =====
-- What `build` adds to the model, in its order.
use bb_auth.Prelude.{
  Bool, true, false, String, List, [], ◌∷◌, ◌++◌, ◌&&◌, ◌||◌, not, if◌then◌else◌, ◌==◌, string_eq,
}
use bb_auth.Prelude.Int.{pos, ltb_ℤ}
use bb_auth.Json.{Object, value, to_string}
use bb_auth.Qt.{Texts, ◌<>◌, has_text, split, join, section_before, section_after}
use bb_auth.Fallback.Prompt.{Patterns}
use bb_auth.Fallback.Prompt.Text.{normalize_detail_text, text_equivalent, unique_joined}
use bb_auth.Fallback.Prompt.Build.{
  PromptIntent, unlock_intent, PromptDisplayModel, Facts, facts_of, intent_of,
  is_generic_auth_summary,
}
use bb_auth.Fallback.Prompt.Build.Steps.{by_intent, or_else}

abbrev pub is_unlock : PromptIntent → Bool
is_unlock unlock_intent = true
is_unlock _ = false

-- The first line of a text that may have none.
abbrev pub first_line : List String → String
first_line [] = ""
first_line (line ∷ lines) = line

abbrev pub later_lines : List String → List String
later_lines [] = []
later_lines (line ∷ lines) = lines

module _ (t : Texts) where
  abbrev pub by_process : Facts → String
  by_process f = "Requested by process " <> t.number f.requestor_pid

  abbrev pub with_requestor : Facts → PromptDisplayModel → PromptDisplayModel
  with_requestor f m =
      if not (f.requestor_name == "")
      then (if is_unlock m.intent && t.equal_ci f.requestor_name f.unlock_target
          then m
          else record m {
            requestor =
                if f.source == "polkit"
                  && (t.equal_ci f.requestor_name "unknown" && ltb_ℤ (pos 0) f.requestor_pid)
                then by_process f
                else "Requested by " <> f.requestor_name;
          })
      else if f.source == "polkit" && ltb_ℤ (pos 0) f.requestor_pid
      then record m { requestor = by_process f }
      else m

  -- The first line of the details is the summary, if there is none.
  abbrev pub with_summary : PromptDisplayModel → PromptDisplayModel
  with_summary m =
      let text = normalize_detail_text t m.details in
      if m.summary == "" && not (m.details == "")
      then (if has_text text "\n"
          then record m {
            summary = t.trimmed (section_before b'\n' text);
            details = t.trimmed (section_after b'\n' text);
          }
          else record m { summary = text; details = "" })
      else m

  abbrev pub without_first : PromptDisplayModel → PromptDisplayModel
  without_first m =
      let lines = split b'\n' (normalize_detail_text t m.details) in
      if text_equivalent t (first_line lines) m.summary
      then record m { details = t.trimmed (join "\n" (later_lines lines)) }
      else m

  abbrev pub without_same : PromptDisplayModel → PromptDisplayModel
  without_same m = if text_equivalent t m.summary m.details then record m { details = "" } else m

  abbrev pub without_repeats : PromptDisplayModel → PromptDisplayModel
  without_repeats m =
      if not (m.summary == "") && not (m.details == "") then without_same (without_first m) else m

  abbrev pub with_details : String → PromptDisplayModel → PromptDisplayModel
  with_details more m = record m {
    details = if m.details == "" then more else unique_joined t (m.details ∷ more ∷ []);
  }

  abbrev pub with_info : Facts → PromptDisplayModel → PromptDisplayModel
  with_info f m =
      if not (f.info_text == "")
        && (not (text_equivalent t f.info_text m.summary)
            && not (text_equivalent t f.info_text m.details))
      then with_details f.info_text m
      else m

  abbrev pub action_lines : Facts → List String
  action_lines f =
      (if f.action_summary == "" then [] else ("Action: " <> f.action_summary) ∷ [])
      ++ ((if not (f.action_id == "") && not (t.equal_ci f.action_id f.action_summary)
            then ("Policy: " <> f.action_id) ∷ []
            else [])
          ++ (if f.action_user == "" then [] else ("Authenticate as " <> f.action_user) ∷ []))

  abbrev pub with_action_details : Facts → PromptDisplayModel → PromptDisplayModel
  with_action_details f m =
      let more = unique_joined t (action_lines f) in if more == "" then m else with_details more m

  abbrev pub with_action : Facts → PromptDisplayModel → PromptDisplayModel
  with_action f m =
      if f.source == "polkit"
      then with_action_details f (
          if is_generic_auth_summary t m.summary && not (f.action_summary == "")
          then record m { summary = f.action_summary }
          else m)
      else m

  abbrev pub pin_prompt : Facts → String
  pin_prompt f =
      or_else (t.trimmed f.event_prompt)
        (or_else (t.trimmed (to_string (value "message" f.context))) "Passphrase:")

  abbrev pub with_prompt : Facts → PromptDisplayModel → PromptDisplayModel
  with_prompt f m =
      if f.source == "pinentry"
      then record m { prompt = pin_prompt f }
      else if f.source == "polkit" && f.touch_hint
      then record m { prompt = "Press Enter to continue (or wait)"; allow_empty_response = true }
      else record m { prompt = "Password:" }

  abbrev pub with_passphrase : Facts → PromptDisplayModel → PromptDisplayModel
  with_passphrase f m = record m {
    passphrase_prompt =
        if f.source == "polkit" && f.touch_hint
        then false
        else f.source == "pinentry" || t.contains_ci m.prompt "passphrase";
  }

  unfoldable pub completed : Facts → PromptDisplayModel → PromptDisplayModel
  unfolding normalize_detail_text text_equivalent unique_joined is_generic_auth_summary
  completed f m = with_passphrase f (
      with_prompt f
        (with_action f (with_info f (without_repeats (with_summary (with_requestor f m))))))

unfoldable pub build : Texts → Patterns → Object → PromptDisplayModel
unfolding facts_of by_intent completed
build t r event = let f = facts_of t r event in completed t f (by_intent t r (intent_of f) f)
