-- ===== src/RequestContext/Actor.antt =====
-- The actor behind a request: the walk from the subject to its ancestors.
pub mod Trust
use bb_auth.Prelude.{
  ℕ, zero, suc, Bool, Option, none, some, String, List, ◌&&◌, ◌||◌, not, if◌then◌else◌, ◌==◌,
  string_eq,
}
use bb_auth.Prelude.Int.{ℤ, pos, ltb_ℤ, eqb_ℤ}
use bb_auth.Json.{Object, str, obj, end, put}
use bb_auth.Session.{put_if}
use bb_auth.Qt.{Texts}
use bb_auth.RequestContext.{ProcInfo, proc_to_json}
use bb_auth.RequestContext.Desktop.{DesktopInfo, no_desktop, is_valid, find_desktop_for_exe}

pub record ActorInfo : Type 0 where
  pub proc : ProcInfo
  pub desktop : DesktopInfo
  pub display_name : String
  pub icon_name : String
  pub fallback_letter : String
  pub fallback_key : String
  pub confidence : String

unfoldable pub actor_to_json : ActorInfo → Object
actor_to_json a =
    let object =
      put_if (is_valid a.desktop) "desktopId" (str a.desktop.desktop_id)
        (put "proc" (obj (proc_to_json a.proc)) end) in
    put "confidence" (str a.confidence) (
      put "fallbackKey" (str a.fallback_key) (
        put "fallbackLetter" (str a.fallback_letter)
          (put "iconName" (str a.icon_name) (put "displayName" (str a.display_name) object))))

abbrev pub new_actor : ProcInfo → ActorInfo
new_actor subject = record {
  proc = subject;
  desktop = no_desktop;
  display_name = "";
  icon_name = "";
  fallback_letter = "";
  fallback_key = "";
  confidence = "";
}

module _ (t : Texts) (index : List DesktopInfo) (agent_uid : ℤ) where
  abbrev pub exe_name : ProcInfo → String
  exe_name info =
      if not (info.exe == "")
      then t.file_name info.exe
      else if eqb_ℤ info.euid (pos 0)
      then info.name
      else ""

  abbrev pub is_bridge : ProcInfo → Bool
  is_bridge info = exe_name info == "pkexec" || (exe_name info == "sudo" || exe_name info == "doas")

  -- The walk stops at a process of another user.
  abbrev pub is_foreign : ProcInfo → Bool
  is_foreign info =
      not (eqb_ℤ info.uid agent_uid) && (not (eqb_ℤ agent_uid (pos 0)) && not (is_bridge info))

  abbrev pub as_candidate : ActorInfo → ProcInfo → ActorInfo
  as_candidate a info =
      if not (is_bridge info) && eqb_ℤ info.uid agent_uid then record a { proc = info } else a

  abbrev pub by_exe : ProcInfo → DesktopInfo
  by_exe info = if info.exe == "" then no_desktop else find_desktop_for_exe t index info.exe

  unfoldable pub desktop_of : ProcInfo → DesktopInfo
  desktop_of info =
      if not (is_valid (by_exe info)) && not (info.name == "")
      then find_desktop_for_exe t index info.name
      else by_exe info

  abbrev pub matched : ActorInfo → ProcInfo → ActorInfo
  matched a info = record a { proc = info; desktop = desktop_of info; confidence = "desktop" }

  -- The loop, by the hops that are left.
  unfoldable pub climb : (ℤ → Option ProcInfo) → ℕ → ℤ → ActorInfo → ActorInfo
  unfolding desktop_of
  climb reader zero pid a = a
  climb reader (suc hops) pid a = elim (ltb_ℤ (pos 1) pid) [
    | Bool.false ↦ a
    | Bool.true ↦ elim (reader pid) [
      | none ↦ a
      | some info ↦
          let next = climb reader hops info.ppid (as_candidate a info) in
          if is_foreign info
          then a
          else if is_valid (desktop_of info)
          then matched a info
          else if not (ltb_ℤ (pos 1) info.ppid) || eqb_ℤ info.ppid pid
          then as_candidate a info
          else next
    ]
  ]

abbrev pub max_hops : ℕ
max_hops = 16

abbrev pub weak_confidence : ProcInfo → String
weak_confidence p =
    if p.exe == "" then (if p.name == "" then "unknown" else "name-only") else "exe-only"

abbrev pub or_text : String → String → String
or_text text other = if text == "" then other else text

-- The names for the display.
unfoldable pub named : Texts → ActorInfo → ActorInfo
named t a =
    if is_valid a.desktop
    then record a { display_name = a.desktop.name; icon_name = a.desktop.icon_name }
    else if not (a.proc.exe == "")
    then record a {
      display_name = t.file_name a.proc.exe;
      icon_name = or_text a.icon_name (t.to_lower (t.base_name a.proc.exe));
    }
    else if not (a.proc.name == "")
    then record a {
      display_name = a.proc.name;
      icon_name = or_text a.icon_name (t.to_lower a.proc.name);
    }
    else record a { display_name = "Unknown" }

unfoldable pub with_fallbacks : Texts → ActorInfo → ActorInfo
with_fallbacks t a = record a {
  fallback_letter =
      if a.display_name == "" then a.fallback_letter else t.first_upper a.display_name;
  fallback_key = if is_valid a.desktop then a.desktop.desktop_id else t.to_lower a.display_name;
}

abbrev pub with_confidence : ActorInfo → ActorInfo
with_confidence a =
    if is_valid a.desktop then a else record a { confidence = weak_confidence a.proc }

unfoldable pub resolve_requestor_from_subject :
    Texts → List DesktopInfo → ProcInfo → ℤ → (ℤ → Option ProcInfo) → ActorInfo
unfolding climb named with_fallbacks
resolve_requestor_from_subject t index subject agent_uid reader = with_fallbacks t (
    named t
      (with_confidence (climb t index agent_uid reader max_hops subject.pid (new_actor subject))))
