-- ===== src/Fallback/Prompt/Text/Bounds.antt =====
-- The size of a text that is cut.
use bb_auth.Prelude.{ℕ, ◌+◌, ◌-◌, ◌≤◌, ◌≡◌, String, arith, leb, either}
use bb_auth.Qt.{Texts, ◌<>◌}
use bb_auth.Fallback.Prompt.{Patterns}
use bb_auth.Fallback.Prompt.Text.{trim_to_length}

-- QString's sizes: of what `left` and `trimmed` give, and of a concatenation.
pub record HasSizes (t : Texts) (r : Patterns) : Type 0 where
  pub left_at_most : (n : ℕ) (s : String) → r.size (r.left n s) ≤ n
  pub trimmed_at_most : (s : String) → r.size (t.trimmed s) ≤ r.size s
  pub joined : (a b : String) → r.size (a <> b) ≡ r.size a + r.size b
  pub dots : r.size "..." ≡ 3

-- A text that is cut to a size of at least 3, the dots included, is no longer than that. (The sizes
-- are as QString has them.)
pub trim_to_length-bound :
    (t : Texts) (r : Patterns) (text : String) (max_chars : ℕ)
    → HasSizes t r
    → 3 ≤ max_chars
    → r.size (trim_to_length t r text max_chars) ≤ max_chars
unfolding trim_to_length
trim_to_length-bound t r text max_chars laws h =
    let cut = r.left (max_chars - 3) text in
    either (λ (s : String). r.size s ≤ max_chars) (leb (r.size text) max_chars) _ _
      (λ e. ground (arith, e))
      (λ e. omega (
        arith,
        h,
        laws.left_at_most (max_chars - 3) text,
        laws.trimmed_at_most cut,
        laws.joined (t.trimmed cut) "...",
        laws.dots,
      ))
