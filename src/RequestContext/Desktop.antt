-- ===== src/RequestContext/Desktop.antt =====
-- The index of desktop entries, and the entry of a program.
pub mod Order
use bb_auth.Prelude.{
  ℕ, Bool, true, false, Option, none, some, String, List, [], ◌∷◌, ◌&&◌, not, if◌then◌else◌, ◌==◌,
  string_eq,
}
use bb_auth.Qt.{Texts, ◌<>◌, split, replace}

pub record DesktopInfo : Type 0 where
  pub desktop_id : String
  pub name : String
  pub icon_name : String
  pub exec : String
  pub try_exec : String

abbrev pub no_desktop : DesktopInfo
no_desktop = record { desktop_id = ""; name = ""; icon_name = ""; exec = ""; try_exec = "" }

abbrev pub is_valid : DesktopInfo → Bool
is_valid d = not (d.desktop_id == "")

-- A *.desktop file: its name, and the values of its group "Desktop Entry".
pub record DesktopFile : Type 0 where
  pub path : String
  pub no_display : Bool
  pub name : String
  pub icon : String
  pub exec : String
  pub try_exec : String

abbrev pub first : List String → String
first [] = ""
first (s ∷ ss) = s

abbrev pub entry_of : Texts → DesktopFile → DesktopInfo
entry_of t f = record {
  desktop_id = t.file_name f.path;
  name = f.name;
  icon_name = f.icon;
  exec = replace b'"' "" (first (split b' ' f.exec));
  try_exec = f.try_exec;
}

unfoldable pub desktop_index : Texts → List DesktopFile → List DesktopInfo
desktop_index t [] = []
desktop_index t (f ∷ fs) =
    let rest = desktop_index t fs in
    if f.no_display then rest else if f.name == "" then rest else entry_of t f ∷ rest

-- A loop that returns the first entry that passes a test.
unfoldable pub first_match : (DesktopInfo → Bool) → List DesktopInfo → Option DesktopInfo
first_match test [] = none
first_match test (d ∷ ds) = let later = first_match test ds in if test d then some d else later

-- The five tests, in the order in which they are tried.
abbrev pub tests : Texts → String → List (DesktopInfo → Bool)
tests t base =
    (λ d. d.desktop_id == (base <> ".desktop"))
    ∷ (λ d. t.equal_ci d.desktop_id (base <> ".desktop"))
    ∷ (λ d. not (d.exec == "") && t.file_name d.exec == base)
    ∷ (λ d. not (d.try_exec == "") && t.file_name d.try_exec == base)
    ∷ (λ d. t.equal_ci d.name base)
    ∷ []

abbrev pub or_next : Option DesktopInfo → DesktopInfo → DesktopInfo
or_next none next = next
or_next (some d) next = d

unfoldable pub first_of : List (DesktopInfo → Bool) → List DesktopInfo → DesktopInfo
unfolding first_match
first_of [] ds = no_desktop
first_of (test ∷ rest) ds = or_next (first_match test ds) (first_of rest ds)

unfoldable pub find_desktop_for_exe : Texts → List DesktopInfo → String → DesktopInfo
unfolding first_of
find_desktop_for_exe t index exe_path =
    if exe_path == "" then no_desktop else first_of (tests t (t.file_name exe_path)) index
