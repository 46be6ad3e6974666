-- ===== src/Qt.antt =====
-- The functions of Qt on texts and file names that the source calls and that depend on Unicode or on
-- the system's conventions. Those on characters alone are written out.
use Prim.Native.Char.{code}
pub use Prim.Native.String.{◌++◌ as ◌<>◌}
use text.Mathlib.Text.{find?}
use bb_auth.Prelude.{
  ℕ, Bool, Option, none, some, String, List, [], ◌∷◌, ◌||◌, is_some, if◌then◌else◌, ◌==◌, nat_eq,
  string_eq,
}
use bb_auth.Prelude.Int.{ℤ, pos}

pub record Texts : Type 0 where
  -- QString: trimmed, simplified, toLower, compare and contains with Qt::CaseInsensitive
  pub trimmed : String → String
  pub simplified : String → String
  pub to_lower : String → String
  pub equal_ci : String → String → Bool
  pub contains_ci : String → String → Bool
  -- `text.at(0).toUpper()` of a text that is not empty
  pub first_upper : String → String
  -- QString::number, toLongLong(&ok)
  pub number : ℤ → String
  pub to_long_long : String → Option ℤ
  -- QFileInfo: fileName and baseName
  pub file_name : String → String
  pub base_name : String → String

abbrev pub or_zero : Option ℤ → ℤ
or_zero none = pos 0
or_zero (some n) = n

-- `text.contains(part)`
abbrev pub has_text : String → String → Bool
has_text text part = is_some (find? text part)

-- What a character adds to the first of the parts.
abbrev pub extend : String → List String → List String
extend c [] = c ∷ []
extend c (part ∷ parts) = (c <> part) ∷ parts

-- `text.split(c)` by the code of the character.
unfoldable pub split : ℕ → String → List String
split c String.[] = "" ∷ []
split c (String.◌∷◌ x s) =
    let parts = split c s in if code x == c then "" ∷ parts else extend (String.◌∷◌ x "") parts

-- `text.section(c, 1)`: what stands behind the first `c`.
unfoldable pub section_after : ℕ → String → String
section_after c String.[] = ""
section_after c (String.◌∷◌ x s) = let later = section_after c s in if code x == c then s else later

-- `parts.join(sep)`
unfoldable pub join : String → List String → String
join sep [] = ""
join sep (part ∷ []) = part
join sep (part ∷ next ∷ parts) = part <> (sep <> join sep (next ∷ parts))

-- `text.left(text.indexOf(c))`, or the whole text if there is no `c`.
unfoldable pub section_before : ℕ → String → String
section_before c String.[] = ""
section_before c (String.◌∷◌ x s) =
    let rest = section_before c s in if code x == c then "" else String.◌∷◌ x rest

-- What stands behind the last `c`, if there is one.
unfoldable pub after_last : ℕ → String → Option String
after_last c String.[] = none
after_last c (String.◌∷◌ x s) =
    let later = after_last c s in
    if is_some later then later else if code x == c then some s else none

-- `text.replace(c, d)` and `text.remove(c)`
unfoldable pub replace : ℕ → String → String → String
replace c d String.[] = ""
replace c d (String.◌∷◌ x s) =
    let rest = replace c d s in if code x == c then d <> rest else String.◌∷◌ x rest

-- A text without its last character.
unfoldable pub chopped : String → String
chopped String.[] = ""
chopped (String.◌∷◌ c String.[]) = ""
chopped (String.◌∷◌ c (String.◌∷◌ d s)) = String.◌∷◌ c (chopped (String.◌∷◌ d s))

unfoldable pub ends_with : String → String → Bool
ends_with end_text String.[] = end_text == ""
ends_with end_text (String.◌∷◌ c s) =
    let later = ends_with end_text s in String.◌∷◌ c s == end_text || later
