-- ===== src/Tests/Prompt.antt =====
-- The models of two events.
use Prim.Native.String.{len}
use text.Mathlib.TextPositions.{len-append}
use bb_auth.Prelude.{◌≤◌, arith, ◌≡◌, refl, none, some, String, List, [], ◌∷◌, All, string_eq}
use bb_auth.Json.{Object, str, obj, end, field}
use bb_auth.Qt.{join}
use bb_auth.Tests.Context.{texts}
use bb_auth.Fallback.Prompt.{Patterns}
use bb_auth.Fallback.Prompt.Text.{unique_joined, trim_to_length}
use bb_auth.Fallback.Prompt.Text.Bounds.{HasSizes, trim_to_length-bound}
use bb_auth.Fallback.Prompt.Text.Unique.{IsApart, IsCovered, unique_joined-IsUnique}

abbrev pub patterns : Patterns
patterns = record {
  size = λ s. 1;
  left = λ n s. s;
  without_ci = λ part s. s;
  quoted_run = λ s. none;
  path = λ s. none;
  unlock = λ s. none;
  quoted = λ s. some "Ann <ann@example.org>";
  key_id = λ s. none;
  key_type = λ s. none;
  created = λ s. some "2024-01-01";
}

abbrev touch_event : Object
touch_event =
    field "source" (str "polkit")
      (field "info" (str "touch the device") (field "context" (obj end) end))

unique_joined-IsUnique_example :
    (kept : List String) × (unique_joined texts ("Unlock login" ∷ "unlock" ∷ "" ∷ [])
      ≡ join "\n" kept)
    × IsApart texts kept
    × All (IsCovered texts kept) ("Unlock login" ∷ "unlock" ∷ "" ∷ [])
unique_joined-IsUnique_example = unique_joined-IsUnique texts ("Unlock login" ∷ "unlock" ∷ "" ∷ [])

abbrev sized : Patterns
sized = record patterns { size = len; left = λ n s. "" }

sized-HasSizes : HasSizes texts sized
sized-HasSizes = record {
  left_at_most = λ n s. omega arith;
  trimmed_at_most = λ s. omega arith;
  joined = len-append;
  dots = refl;
}

trim_to_length-bound_example : len (trim_to_length texts sized "a long identity" 5) ≤ 5
trim_to_length-bound_example =
    trim_to_length-bound texts sized "a long identity" 5 sized-HasSizes (omega arith)
