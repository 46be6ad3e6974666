-- ===== src/Fallback/Prompt/Text.antt =====
-- src/fallback/prompt/TextNormalize.cpp.
pub mod Unique
pub mod Bounds
use bb_auth.Prelude.{
  ℕ, ◌-◌, Bool, true, false, Option, none, some, String, List, [], ◌∷◌, ◌++◌, ◌||◌, leb, map,
  if◌then◌else◌, ◌==◌, string_eq,
}
use text.Mathlib.Text.{starts_with}
use bb_auth.Qt.{Texts, ◌<>◌, split, join, replace, section_before}
use bb_auth.Fallback.Prompt.{Patterns}

module _ (t : Texts) where
  -- The loop over the lines.
  unfoldable pub clean_lines : List String → List String
  clean_lines [] = []
  clean_lines (line ∷ lines) =
      let rest = clean_lines lines in
      if t.simplified line == "" then rest else t.simplified line ∷ rest

  unfoldable pub normalize_detail_text : String → String
  unfolding clean_lines
  normalize_detail_text text = join "\n" (clean_lines (split b'\n' (replace b'\r' "\n" text)))

  unfoldable pub normalize_compare_text : String → String
  unfolding normalize_detail_text
  normalize_compare_text text = t.simplified (
      replace b'.' " " (
        replace b',' " "
          (replace b'"' " " (replace b'`' " " (t.to_lower (normalize_detail_text text))))))

  unfoldable pub text_equivalent : String → String → Bool
  unfolding normalize_compare_text
  text_equivalent left right =
      let a = normalize_compare_text left in
      let b = normalize_compare_text right in
      if a == "" || b == "" then false else a == b || (starts_with a b || starts_with b a)

  unfoldable pub first_meaningful_line : String → String
  unfolding normalize_detail_text
  first_meaningful_line text = section_before b'\n' (normalize_detail_text text)

  -- The inner loop, and the outer one with what is kept so far.
  unfoldable pub has_equivalent : List String → String → Bool
  unfolding text_equivalent
  has_equivalent [] text = false
  has_equivalent (existing ∷ rest) text = text_equivalent existing text || has_equivalent rest text

  unfoldable pub filtered : List String → List String → List String
  unfolding has_equivalent
  filtered kept [] = kept
  filtered kept (value ∷ values) =
      let text = t.trimmed value in
      filtered
        (if text == ""
          then kept
          else if has_equivalent kept text
          then kept
          else kept ++ (text ∷ []))
        values

  unfoldable pub unique_joined : List String → String
  unfolding filtered
  unique_joined values = join "\n" (filtered [] values)

unfoldable pub trim_to_length : Texts → Patterns → String → ℕ → String
trim_to_length t r text max_chars =
    if leb (r.size text) max_chars then text else t.trimmed (r.left (max_chars - 3) text) <> "..."
