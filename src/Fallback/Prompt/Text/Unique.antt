-- ===== src/Fallback/Prompt/Text/Unique.antt =====
-- The texts that are joined without repetition.
use mathlib.Core.List.{Memᴰ, append-nil, append_assoc}
use bb_auth.Prelude.{
  ◌≡◌, refl, sym, ap, ◌∙◌, ◌⊎◌, inl, inr, true, false, Bool-cases, String, List, [], ◌∷◌, ◌++◌, All,
  All-append, arith, if◌then◌else◌, ◌==◌, string_eq, either,
}
use bb_auth.Qt.{Texts, join}
use bb_auth.Fallback.Prompt.Text.{text_equivalent, has_equivalent, filtered, unique_joined}

module _ (t : Texts) where
  -- No text is equivalent to an earlier one.
  abbrev pub IsApart : List String → Type 0
  IsApart [] = Unit
  IsApart (x ∷ xs) = All (λ y. text_equivalent t x y ≡ false) xs × IsApart xs

  -- A value that is empty, kept, or equivalent to one that is kept.
  abbrev pub IsCovered : List String → String → Type 0
  IsCovered kept value =
      ((t.trimmed value == "") ≡ true)
      ⊎ ((has_equivalent t kept (t.trimmed value) ≡ true) ⊎ Memᴰ (t.trimmed value) kept)

  IsApart-end :
      (kept : List String) (text : String)
      → IsApart kept
      → has_equivalent t kept text ≡ false
      → IsApart (kept ++ (text ∷ []))
  unfolding has_equivalent
  IsApart-end [] text h n = (tt, tt)
  IsApart-end (x ∷ xs) text (h, hs) n = (
    All-append (λ y. text_equivalent t x y ≡ false) xs (text ∷ []) h (ground (arith, n), tt),
    IsApart-end xs text hs (ground (arith, n)),
  )

  -- The texts that are kept after one more value.
  abbrev pub extended : List String → String → List String
  extended kept text =
      if text == "" then kept else if has_equivalent t kept text then kept else kept ++ (text ∷ [])

  extended-IsApart :
      (kept : List String) (text : String) → IsApart kept → IsApart (extended kept text)
  extended-IsApart kept text h =
      either IsApart (text == "") kept _ (λ e. h)
        (λ e.
          either IsApart (has_equivalent t kept text) kept (kept ++ (text ∷ [])) (λ k. h)
            (λ k. IsApart-end kept text h k))

  filtered-IsApart : (kept values : List String) → IsApart kept → IsApart (filtered t kept values)
  unfolding filtered
  filtered-IsApart kept [] h = h
  filtered-IsApart kept (value ∷ values) h =
      filtered-IsApart (extended kept (t.trimmed value)) values
        (extended-IsApart kept (t.trimmed value) h)

  -- What is kept stays.
  has_equivalent-append :
      (kept more : List String) (text : String)
      → has_equivalent t kept text ≡ true
      → has_equivalent t (kept ++ more) text ≡ true
  unfolding has_equivalent
  has_equivalent-append [] more text h = ground (arith, h)
  has_equivalent-append (x ∷ xs) more text h = elim (Bool-cases (text_equivalent t x text)) [
    | inl e ↦ ground (arith, e)
    | inr e ↦ ground (arith, h, e, has_equivalent-append xs more text (ground (arith, h, e)))
  ]

  mem-append : (x : String) (kept more : List String) → Memᴰ x kept → Memᴰ x (kept ++ more)
  mem-append x [] more h = elim h [ ]
  mem-append x (y ∷ ys) more (Memᴰ.head e) = Memᴰ.head e
  mem-append x (y ∷ ys) more (Memᴰ.tail h) = Memᴰ.tail (mem-append x ys more h)

  IsCovered-append :
      (kept more : List String) (value : String)
      → IsCovered kept value
      → IsCovered (kept ++ more) value
  IsCovered-append kept more value (inl e) = inl e
  IsCovered-append kept more value (inr (inl h)) =
      inr (inl (has_equivalent-append kept more (t.trimmed value) h))
  IsCovered-append kept more value (inr (inr m)) =
      inr (inr (mem-append (t.trimmed value) kept more m))

  mem-end : (x : String) (kept : List String) → Memᴰ x (kept ++ (x ∷ []))
  mem-end x [] = Memᴰ.head refl
  mem-end x (y ∷ ys) = Memᴰ.tail (mem-end x ys)

  extended-covers :
      (kept : List String) (value : String) → IsCovered (extended kept (t.trimmed value)) value
  extended-covers kept value =
      let P = λ (ks : List String). IsCovered ks value in
      let text = t.trimmed value in
      either P (text == "") kept _ (λ e. inl e)
        (λ e.
          either P (has_equivalent t kept text) kept (kept ++ (text ∷ [])) (λ h. inr (inl h))
            (λ h. inr (inr (mem-end text kept))))

  extended-more :
      (kept : List String) (text : String)
      → (more : List String) × (extended kept text ≡ kept ++ more)
  extended-more kept text =
      let P = λ (ks : List String). (more : List String) × (ks ≡ kept ++ more) in
      either P (text == "") kept _ (λ e. ([], sym (append-nil kept)))
        (λ e.
          either P (has_equivalent t kept text) kept (kept ++ (text ∷ []))
            (λ h. ([], sym (append-nil kept))) (λ h. (text ∷ [], refl)))

  filtered-more :
      (kept values : List String) → (more : List String) × (filtered t kept values ≡ kept ++ more)
  unfolding filtered
  filtered-more kept [] = ([], sym (append-nil kept))
  filtered-more kept (value ∷ values) =
      let (first, e) = extended-more kept (t.trimmed value) in
      let (rest, f) = filtered-more (extended kept (t.trimmed value)) values in
      (first ++ rest, f ∙ ap (λ ks. ks ++ rest) e ∙ append_assoc kept first rest)

  filtered-covers : (kept values : List String) → All (IsCovered (filtered t kept values)) values
  unfolding filtered
  filtered-covers kept [] = tt
  filtered-covers kept (value ∷ values) =
      let next = extended kept (t.trimmed value) in
      let (more, e) = filtered-more next values in
      (
        rw e (IsCovered-append next more value (extended-covers kept value)),
        filtered-covers next values,
      )

  -- Texts are joined, one a line, so that none is equivalent to an earlier one, and every value is
  -- empty, or one of the texts, or equivalent to one of them (each up to the space around it).
  pub unique_joined-IsUnique :
      (values : List String)
      → (kept : List String) × (unique_joined t values ≡ join "\n" kept)
        × IsApart kept
        × All (IsCovered kept) values
  unfolding unique_joined
  unique_joined-IsUnique values =
      (filtered t [] values, refl, filtered-IsApart [] values tt, filtered-covers [] values)
