-- ===== src/Fallback/Prompt.antt =====
-- src/fallback/prompt: what the window shows of a session's event.
pub mod Text
pub mod Extract
pub mod Build
use bb_auth.Prelude.{ℕ, Bool, Option, String}

-- What the source asks of QString beyond Texts: the size, `left`, the replacement up to case; and the
-- first group that each of its regular expressions captures, if it matches.
pub record Patterns : Type 0 where
  pub size : String → ℕ
  pub left : ℕ → String → String
  pub without_ci : String → String → String
  pub quoted_run : String → Option String
  pub path : String → Option String
  pub unlock : String → Option String
  pub quoted : String → Option String
  pub key_id : String → Option String
  pub key_type : String → Option String
  pub created : String → Option String
