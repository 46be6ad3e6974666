-- ===== src/Modes/Assuan.antt =====
-- src/modes/pinentry.cpp: the percent escapes of the Assuan protocol. A text is the list of its UTF-16
-- code units.
pub mod Escapes
use bb_auth.Prelude.{
  ℕ, ◌+◌, ◌/◌, ◌%◌, Bool, Option, none, some, List, [], ◌∷◌, ◌||◌, if◌then◌else◌, ◌==◌, nat_eq, ltb,
}

-- QChar::toLatin1
abbrev pub latin1 : ℕ → ℕ
latin1 c = if ltb c 256 then c else 0

-- The entries of `hexChars`.
abbrev pub hex_digit : ℕ → ℕ
hex_digit n = if ltb n 10 then 48 + n else 55 + n

abbrev pub is_escaped : ℕ → Bool
is_escaped c = latin1 c == 37 || (latin1 c == 10 || latin1 c == 13)

unfoldable pub assuan_encode : List ℕ → List ℕ
assuan_encode [] = []
assuan_encode (c ∷ cs) =
    let rest = assuan_encode cs in
    if is_escaped c
    then 37 ∷ hex_digit (latin1 c / 16 % 16) ∷ hex_digit (latin1 c % 16) ∷ rest
    else c ∷ rest

-- `to_int` is QStringView::toInt(&ok, 16) of the text of two code units, as a QChar if it is ok.
module _ (to_int : ℕ → ℕ → Option ℕ) where
  abbrev pub unescaped : ℕ → Option ℕ → List ℕ → List ℕ → List ℕ
  unescaped c none next after = c ∷ next
  unescaped c (some code) next after = if c == 37 then code ∷ after else c ∷ next

  unfoldable pub assuan_decode : List ℕ → List ℕ
  assuan_decode [] = []
  assuan_decode (c ∷ []) = c ∷ []
  assuan_decode (c ∷ d ∷ []) = c ∷ d ∷ []
  assuan_decode (c ∷ d ∷ e ∷ rest) =
      let next = assuan_decode (d ∷ e ∷ rest) in
      let after = assuan_decode rest in unescaped c (to_int d e) next after
