-- ===== src/Tests/Modes.antt =====
-- The Assuan escapes, and the lines of the daemon's socket.
use bb_auth.Prelude.{
  ℕ, ◌+◌, ◌-◌, ◌*◌, ◌<◌, ◌≡◌, refl, ◌++◌, false, Option, some, [], ◌∷◌, All, arith, ltb,
  if◌then◌else◌,
}
use bb_auth.Ipc.Framing.{complete_lines, on_ready_read}
use bb_auth.Ipc.Framing.Chunks.{lines_of, complete_lines-lines_of, on_ready_read-append}
use bb_auth.Modes.Assuan.{assuan_encode, assuan_decode, hex_digit}
use bb_auth.Modes.Assuan.Escapes.{ReadsHex, IsInLine, decode-encode, encode-IsInLine}

abbrev pub digit : ℕ → ℕ
digit d = if ltb d 58 then d - 48 else d - 55

abbrev pub to_int : ℕ → ℕ → Option ℕ
to_int d e = some (digit d * 16 + digit e)

digit-hex_digit : (n : ℕ) → n < 16 → digit (hex_digit n) ≡ n
digit-hex_digit n h = ground arith

pub to_int-ReadsHex : ReadsHex to_int
to_int-ReadsHex hi lo h k = rw (digit-hex_digit hi h, digit-hex_digit lo k) refl

decode-encode_example : assuan_decode to_int (assuan_encode (97 ∷ 37 ∷ 10 ∷ [])) ≡ 97 ∷ 37 ∷ 10 ∷ []
decode-encode_example = decode-encode to_int (97 ∷ 37 ∷ 10 ∷ []) to_int-ReadsHex

encode-IsInLine_example : All IsInLine (assuan_encode (97 ∷ 10 ∷ []))
encode-IsInLine_example = encode-IsInLine (97 ∷ 10 ∷ [])

on_ready_read-append_example :
    let first = on_ready_read (97 ∷ []) (98 ∷ []) in
    let second = on_ready_read first.2 (10 ∷ 99 ∷ []) in
    (on_ready_read (97 ∷ []) (98 ∷ 10 ∷ 99 ∷ []) ≡ (false, first.1 ++ second.1, second.2))
    × (first.1 ++ second.1 ≡ (lines_of (97 ∷ 98 ∷ 10 ∷ 99 ∷ [])).0)
on_ready_read-append_example = on_ready_read-append (97 ∷ []) (98 ∷ []) (10 ∷ 99 ∷ []) (omega arith)

complete_lines-lines_of_example :
    complete_lines 4 (97 ∷ 10 ∷ 98 ∷ []) ≡ lines_of (97 ∷ 10 ∷ 98 ∷ [])
complete_lines-lines_of_example = complete_lines-lines_of 4 (97 ∷ 10 ∷ 98 ∷ []) (omega arith)
