-- ===== src/RequestContext.antt =====
-- src/core/RequestContext.{hpp,cpp}: which program asks for an authentication. The files of /proc and
-- of the desktop entries are parameters. A `std::optional` is an option.
pub mod Desktop
pub mod Actor
pub mod Hints
use bb_auth.Prelude.{
  ℕ, Bool, Option, none, some, String, List, [], ◌∷◌, ◌&&◌, not, is_some, if◌then◌else◌, ◌==◌,
  string_eq,
}
use bb_auth.Prelude.Int.{ℤ, pos, negsuc, ltb_ℤ}
use bb_auth.Json.{Json, Object, str, int, obj, end, put}
use bb_auth.Session.{put_if, put_text}
use text.Mathlib.Text.{starts_with}
use bb_auth.Qt.{Texts, or_zero, split, section_after, join}

pub record ProcInfo : Type 0 where
  pub pid : ℤ
  pub ppid : ℤ
  pub uid : ℤ
  pub euid : ℤ
  pub name : String
  pub exe : String
  pub cmdline : String

abbrev pub new_proc : ℤ → ProcInfo
new_proc pid = record {
  pid = pid;
  ppid = pos 0;
  uid = pos 0;
  euid = pos 0;
  name = "";
  exe = "";
  cmdline = "";
}

unfoldable pub proc_to_json : ProcInfo → Object
proc_to_json p =
    let numbers = put_if (ltb_ℤ (negsuc 0) p.euid) "euid" (int p.euid) (
      put_if (ltb_ℤ (negsuc 0) p.uid) "uid" (int p.uid) (
        put_if (ltb_ℤ (pos 0) p.ppid) "ppid" (int p.ppid)
          (put_if (ltb_ℤ (pos 0) p.pid) "pid" (int p.pid) end))) in
    put_text "cmdline" p.cmdline (put_text "exe" p.exe (put_text "name" p.name numbers))

-- What /proc says of a process: the status file if it opens, the target of exe, and cmdline at its
-- zero bytes if it opens.
pub record Proc : Type 0 where
  pub status : ℤ → Option String
  pub exe : ℤ → String
  pub cmdline : ℤ → Option (List String)

-- The ids behind "Uid:".
unfoldable pub with_uids : Texts → ProcInfo → List String → ProcInfo
with_uids t p [] = p
with_uids t p (uid ∷ []) = record p { uid = or_zero (t.to_long_long uid) }
with_uids t p (uid ∷ euid ∷ _) = record p {
  uid = or_zero (t.to_long_long uid);
  euid = or_zero (t.to_long_long euid);
}

unfoldable pub status_line : Texts → ProcInfo → String → ProcInfo
unfolding with_uids
status_line t p line =
    let rest = section_after b':' line in
    if starts_with line "Name:"
    then record p { name = t.trimmed rest }
    else if starts_with line "PPid:"
    then record p { ppid = or_zero (t.to_long_long (t.trimmed rest)) }
    else if starts_with line "Uid:"
    then with_uids t p (split b' ' (t.simplified rest))
    else p

unfoldable pub status_lines : Texts → ProcInfo → List String → ProcInfo
unfolding status_line
status_lines t p [] = p
status_lines t p (line ∷ lines) = status_lines t (status_line t p line) lines

unfoldable pub clean_args : List String → List String
clean_args [] = []
clean_args (arg ∷ args) = let rest = clean_args args in if arg == "" then rest else arg ∷ rest

abbrev pub with_cmdline : ProcInfo → Option (List String) → ProcInfo
with_cmdline p none = p
with_cmdline p (some args) = record p { cmdline = join " " (clean_args args) }

unfoldable pub read_status : Texts → Proc → ℤ → Option String → Option ProcInfo
read_status t proc pid none = none
read_status t proc pid (some status) =
    let info = status_lines t (new_proc pid) (split b'\n' status) in
    some (with_cmdline (record info { exe = proc.exe pid }) (proc.cmdline pid))

unfoldable pub read_proc : Texts → Proc → ℤ → Option ProcInfo
unfolding read_status
read_proc t proc pid = read_status t proc pid (proc.status pid)

-- PolkitQt1::Details by its lookup, and the first positive number under one of two keys.
abbrev pub positive : Option ℤ → Option ℤ
positive none = none
positive (some n) = if ltb_ℤ (pos 0) n then some n else none

abbrev pub or_else : Option ℤ → Option ℤ → Option ℤ
or_else none other = other
or_else (some n) other = some n

unfoldable pub extract_caller_pid : Texts → (String → String) → Option ℤ
extract_caller_pid t lookup = positive (t.to_long_long (lookup "polkit.caller-pid"))

unfoldable pub extract_subject_pid : Texts → (String → String) → Option ℤ
extract_subject_pid t lookup =
    or_else (positive (t.to_long_long (lookup "polkit.subject-pid")))
      (positive (t.to_long_long (lookup "polkit.caller-pid")))
