-- ===== src/RequestContext/Hints.antt =====
-- The hints for the display of a request.
use bb_auth.Prelude.{Bool, true, false, String, ◌||◌, not, if◌then◌else◌, ◌==◌, string_eq}
use bb_auth.Json.{Object, str, bool, end, put}
use bb_auth.Session.{put_text}
use bb_auth.Qt.{Texts, chopped, ends_with}

unfoldable pub normalize_prompt : Texts → String → String
unfolding chopped ends_with
normalize_prompt t s =
    let text = t.trimmed s in
    t.trimmed (
      if ends_with ":" text
      then chopped text
      else if ends_with "：" text
      then chopped text
      else text)

abbrev pub hint : String → String → Bool → Object
hint kind icon colorize =
    put_text "iconName" icon (put "colorize" (bool colorize) (put "kind" (str kind) end))

unfoldable pub classify_request : Texts → String → String → String → Object
classify_request t source title description =
    if source == "polkit"
    then hint "polkit" "security-high" true
    else if not (source == "keyring")
    then hint "unknown" "" false
    else if t.contains_ci title "gpg" || t.contains_ci description "OpenPGP"
    then hint "gpg" "gnupg" true
    else if t.contains_ci title "ssh" || t.contains_ci description "ssh"
    then hint "ssh" "ssh-key" true
    else hint "keyring" "" true
