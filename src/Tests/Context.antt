-- ===== src/Tests/Context.antt =====
-- The actor behind a request: two processes and two desktop files.
use bb_auth.Prelude.{
  Bool, true, false, Option, none, some, String, [], ◌∷◌, ◌≡◌, refl, ◌==◌, string_eq, if◌then◌else◌,
}
use bb_auth.Prelude.Int.{ℤ, pos, eqb_ℤ}
use bb_auth.Qt.{Texts, replace, split}
use bb_auth.RequestContext.{ProcInfo}
use bb_auth.RequestContext.Desktop.{
  DesktopFile, desktop_index, find_desktop_for_exe, first_of, first_match,
}
use bb_auth.RequestContext.Desktop.Order.{IsBest, ways, find_desktop_for_exe-IsBest}
use bb_auth.RequestContext.Actor.{
  resolve_requestor_from_subject, climb, desktop_of, named, with_fallbacks,
}
use bb_auth.RequestContext.Actor.Trust.{IsAttributed, resolve_requestor-IsAttributed}

abbrev pub texts : Texts
texts = record {
  trimmed = λ s. s;
  simplified = λ s. s;
  to_lower = λ s. s;
  equal_ci = λ s r. s == r;
  contains_ci = λ s r. s == r;
  first_upper = λ s. s;
  number = λ n. "1";
  to_long_long = λ s. none;
  file_name = λ s. s;
  base_name = λ s. s;
}

abbrev file : Bool → String → DesktopFile
file hidden name = record {
  path = "mail.desktop";
  no_display = hidden;
  name = name;
  icon = "mail";
  exec = "mail --new";
  try_exec = "";
}

abbrev process : ℤ → ℤ → String → ProcInfo
process pid ppid exe = record {
  pid = pid;
  ppid = ppid;
  uid = pos 1000;
  euid = pos 1000;
  name = exe;
  exe = exe;
  cmdline = "";
}

abbrev reader : ℤ → Option ProcInfo
reader pid =
    if eqb_ℤ pid (pos 30)
    then some (process (pos 30) (pos 20) "gpg")
    else if eqb_ℤ pid (pos 20)
    then some (process (pos 20) (pos 1) "mail")
    else none

find_desktop_for_exe-IsBest_example :
    IsBest texts (ways texts "mail") (file true "Old" ∷ file false "Mail" ∷ []) (
      find_desktop_for_exe texts
        (desktop_index texts (file true "Old" ∷ file false "Mail" ∷ []))
        "mail")
find_desktop_for_exe-IsBest_example =
    find_desktop_for_exe-IsBest texts (file true "Old" ∷ file false "Mail" ∷ []) "mail" refl

-- A request of gpg is one of the mail program that started it.
attributed_to_mail :
    (resolve_requestor_from_subject texts
      (desktop_index texts (file false "Mail" ∷ []))
      (process (pos 30) (pos 20) "gpg")
      (pos 1000)
      reader).display_name
    ≡ "Mail"
unfolding resolve_requestor_from_subject climb desktop_of named with_fallbacks find_desktop_for_exe
    first_of first_match desktop_index replace split
attributed_to_mail = refl

resolve_requestor-IsAttributed_example :
    IsAttributed texts
      (desktop_index texts (file false "Mail" ∷ []))
      (pos 1000)
      reader
      (process (pos 30) (pos 20) "gpg")
      (resolve_requestor_from_subject texts
        (desktop_index texts (file false "Mail" ∷ []))
        (process (pos 30) (pos 20) "gpg")
        (pos 1000)
        reader)
resolve_requestor-IsAttributed_example =
    resolve_requestor-IsAttributed texts (desktop_index texts (file false "Mail" ∷ [])) (pos 1000)
      reader (process (pos 30) (pos 20) "gpg")
