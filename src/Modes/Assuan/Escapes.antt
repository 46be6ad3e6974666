-- ===== src/Modes/Assuan/Escapes.antt =====
-- What escaping keeps, and what it keeps out of a line.
use bb_auth.Prelude.{
  ℕ, ◌+◌, ◌*◌, ◌/◌, ◌%◌, ◌<◌, ◌≡◌, ◌≢◌, refl, ap, ◌∙◌, true, false, Option, none, some, List, [],
  ◌∷◌, All, arith, Bool-cases, inl, inr,
}
use bb_auth.Modes.Assuan.{latin1, hex_digit, is_escaped, assuan_encode, assuan_decode, unescaped}

-- Two hexadecimal digits are read as the number that they write.
abbrev pub ReadsHex : (ℕ → ℕ → Option ℕ) → Type 0
ReadsHex to_int =
    (hi lo : ℕ) → hi < 16 → lo < 16 → to_int (hex_digit hi) (hex_digit lo) ≡ some (hi * 16 + lo)

low_digit : (n : ℕ) → n % 16 < 16
low_digit n = omega arith

high_digit : (n : ℕ) → n / 16 % 16 < 16
high_digit n = omega arith

escaped-digits : (c : ℕ) → is_escaped c ≡ true → latin1 c / 16 % 16 * 16 + latin1 c % 16 ≡ c
escaped-digits c h = ground (arith, h)

module _ (to_int : ℕ → ℕ → Option ℕ) where
  unescaped-plain :
      (c : ℕ) (o : Option ℕ) (next after : List ℕ)
      → is_escaped c ≡ false
      → unescaped to_int c o next after ≡ c ∷ next
  unescaped-plain c none next after h = refl
  unescaped-plain c (some code) next after h = ground (arith, h)

  decode-plain :
      (c : ℕ) (cs : List ℕ)
      → is_escaped c ≡ false
      → assuan_decode to_int (c ∷ cs) ≡ c ∷ assuan_decode to_int cs
  unfolding assuan_decode
  decode-plain c [] h = refl
  decode-plain c (d ∷ []) h = refl
  decode-plain c (d ∷ e ∷ rest) h =
      unescaped-plain c (to_int d e) (assuan_decode to_int (d ∷ e ∷ rest))
        (assuan_decode to_int rest) h

  decode-escape :
      (c : ℕ) (cs : List ℕ)
      → ReadsHex to_int
      → is_escaped c ≡ true
      → assuan_decode to_int (37 ∷ hex_digit (latin1 c / 16 % 16) ∷ hex_digit (latin1 c % 16) ∷ cs)
        ≡ c ∷ assuan_decode to_int cs
  unfolding assuan_decode
  decode-escape c cs law h =
      rw
        (
          law (latin1 c / 16 % 16) (latin1 c % 16) (high_digit (latin1 c)) (low_digit (latin1 c)),
          escaped-digits c h,
        )
        refl

  -- Decoding an encoded text gives the text back, line breaks and percent signs included, provided
  -- that two hexadecimal digits are read as the number that they write.
  pub decode-encode : (s : List ℕ) → ReadsHex to_int → assuan_decode to_int (assuan_encode s) ≡ s
  unfolding assuan_encode assuan_decode
  decode-encode [] law = refl
  decode-encode (c ∷ cs) law = elim (Bool-cases (is_escaped c)) [
    | inl e ↦ rw e (decode-escape c (assuan_encode cs) law e ∙ ap (◌∷◌ c) (decode-encode cs law))
    | inr e ↦ rw e (decode-plain c (assuan_encode cs) e ∙ ap (◌∷◌ c) (decode-encode cs law))
  ]

abbrev pub IsInLine : ℕ → Type 0
IsInLine c = (c ≢ 10) × (c ≢ 13)

hex_digit-IsInLine : (n : ℕ) → n < 16 → IsInLine (hex_digit n)
hex_digit-IsInLine n h = ground arith

percent-IsInLine : IsInLine 37
percent-IsInLine = ground arith

-- An encoded text has no line break, so that what is sent as data stays within its line.
pub encode-IsInLine : (s : List ℕ) → All IsInLine (assuan_encode s)
unfolding assuan_encode
encode-IsInLine [] = tt
encode-IsInLine (c ∷ cs) = elim (Bool-cases (is_escaped c)) [
  | inl e ↦ rw e (
    percent-IsInLine,
    (
      hex_digit-IsInLine (latin1 c / 16 % 16) (high_digit (latin1 c)),
      (hex_digit-IsInLine (latin1 c % 16) (low_digit (latin1 c)), encode-IsInLine cs),
    ),
  )
  | inr e ↦ rw e (ground (arith, e), encode-IsInLine cs)
]
