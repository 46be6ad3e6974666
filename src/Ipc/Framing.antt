-- ===== src/Ipc/Framing.antt =====
-- src/core/ipc/IpcServer.cpp, onReadyRead: messages are lines, however the bytes come in. A buffer is
-- the list of the bytes of one socket that are not handled yet; the lines are those that onReadyRead
-- then trims and passes to handleLine if they are not empty.
pub mod Chunks
use bb_auth.Prelude.{
  ℕ, zero, suc, Bool, true, false, Option, none, some, String, List, [], ◌∷◌, ◌++◌, length, ltb,
  if◌then◌else◌, ◌==◌, nat_eq, string_eq,
}
use bb_auth.Json.{Object, value, to_string, field, str, end}

abbrev pub max_message_size : ℕ
max_message_size = 65536

abbrev pub with_byte : ℕ → Option (List ℕ × List ℕ) → Option (List ℕ × List ℕ)
with_byte c none = none
with_byte c (some (line, rest)) = some (c ∷ line, rest)

-- What is before and after the first '\n'.
unfoldable pub split_line : List ℕ → Option (List ℕ × List ℕ)
split_line [] = none
split_line (c ∷ cs) =
    let later = split_line cs in if c == 10 then some ([], cs) else with_byte c later

-- The loop over the complete lines: the lines and the buffer that is left.
unfoldable pub complete_lines : ℕ → List ℕ → List (List ℕ) × List ℕ
complete_lines zero buffer = ([], buffer)
complete_lines (suc fuel) buffer = elim (split_line buffer) [
  | none ↦ ([], buffer)
  | some (line, rest) ↦ let (lines, left) = complete_lines fuel rest in (line ∷ lines, left)
]

-- What a read does: whether the client is disconnected, the lines to handle, and the buffer.
unfoldable pub on_ready_read : List ℕ → List ℕ → Bool × List (List ℕ) × List ℕ
on_ready_read buffer chunk =
    let b = buffer ++ chunk in
    let (lines, left) = complete_lines (length b) b in
    if ltb max_message_size (length b) then (true, [], b) else (false, lines, left)
