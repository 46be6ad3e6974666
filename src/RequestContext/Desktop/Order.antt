-- ===== src/RequestContext/Desktop/Order.antt =====
-- Which desktop entry a program gets.
use bb_auth.Prelude.{
  ◌≡◌, refl, ◌↔◌, ◌⊎◌, inl, inr, Bool, true, false, arith, either, Option, none, some, String, List,
  [], ◌∷◌, All, string_eq, ◌==◌, if◌then◌else◌, eq_iff, not, ◌&&◌,
}
use bb_auth.Qt.{Texts, ◌<>◌}
use bb_auth.RequestContext.Desktop.{
  DesktopInfo, DesktopFile, no_desktop, desktop_index, entry_of, first_match, tests, or_next,
  first_of, find_desktop_for_exe,
}

-- A desktop file that is shown and has a name.
abbrev pub IsShown : DesktopFile → Type 0
IsShown f = (f.no_display ≡ false) × ((f.name == "") ≡ false)

-- A text that is not empty and whose file name is `base`.
abbrev pub IsProgram : Texts → String → String → Type 0
IsProgram t base command = ((command == "") ≡ false) × (t.file_name command ≡ base)

-- What an entry may have in common with a program, the strongest first: the name of the file, that
-- name up to case, the command, the command to try, and the entry's name up to case.
abbrev pub ways : Texts → String → List (DesktopInfo → Type 0)
ways t base =
    (λ d. d.desktop_id ≡ (base <> ".desktop"))
    ∷ (λ d. t.equal_ci d.desktop_id (base <> ".desktop") ≡ true)
    ∷ (λ d. IsProgram t base d.exec)
    ∷ (λ d. IsProgram t base d.try_exec)
    ∷ (λ d. t.equal_ci d.name base ≡ true)
    ∷ []

module _ (t : Texts) where
  abbrev pub Fits : (DesktopInfo → Type 0) → DesktopFile → Type 0
  Fits P f = IsShown f × P (entry_of t f)

  -- The entry of the first file that fits.
  abbrev pub IsFirst : (DesktopInfo → Type 0) → List DesktopFile → DesktopInfo → Type 0
  IsFirst P [] d = ⊥
  IsFirst P (f ∷ fs) d = (Fits P f × (d ≡ entry_of t f)) ⊎ ((¬ Fits P f) × IsFirst P fs d)

  -- The entry of the first file that fits by the first way by which any file does.
  abbrev pub IsBest : List (DesktopInfo → Type 0) → List DesktopFile → DesktopInfo → Type 0
  IsBest [] fs d = d ≡ no_desktop
  IsBest (P ∷ Ps) fs d = IsFirst P fs d ⊎ (All (λ f. ¬ Fits P f) fs × IsBest Ps fs d)

  abbrev IsFound : (DesktopInfo → Type 0) → List DesktopFile → Option DesktopInfo → Type 0
  IsFound P fs none = All (λ f. ¬ Fits P f) fs
  IsFound P fs (some d) = IsFirst P fs d

  abbrev Decides : (DesktopInfo → Bool) → (DesktopInfo → Type 0) → Type 0
  Decides test P = (d : DesktopInfo) → (test d ≡ true) ↔ P d

  IsFound-skip :
      (P : DesktopInfo → Type 0) (f : DesktopFile) (fs : List DesktopFile) (o : Option DesktopInfo)
      → (¬ Fits P f)
      → IsFound P fs o
      → IsFound P (f ∷ fs) o
  IsFound-skip P f fs none n h = (n, h)
  IsFound-skip P f fs (some d) n h = inr (n, h)

  not-true : (b : Bool) → b ≡ false → b ≡ true → ⊥
  not-true b h k = cc

  first_match-IsFound :
      (test : DesktopInfo → Bool) (P : DesktopInfo → Type 0) (fs : List DesktopFile)
      → Decides test P
      → IsFound P fs (first_match test (desktop_index t fs))
  unfolding first_match desktop_index
  first_match-IsFound test P [] decides = tt
  first_match-IsFound test P (f ∷ fs) decides =
      let rest = first_match-IsFound test P fs decides in
      let ds = desktop_index t fs in
      let d = entry_of t f in
      let skip = λ (n : ¬ Fits P f). IsFound-skip P f fs (first_match test ds) n rest in
      let Found = λ (es : List DesktopInfo). IsFound P (f ∷ fs) (first_match test es) in
      either Found f.no_display ds (if f.name == "" then ds else d ∷ ds)
        (λ hidden. skip (λ h. not-true f.no_display h.0.0 hidden))
        (λ visible.
          either Found (f.name == "") ds (d ∷ ds)
            (λ unnamed. skip (λ h. not-true (f.name == "") h.0.1 unnamed))
            (λ named.
              either (IsFound P (f ∷ fs)) (test d) (some d) (first_match test ds)
                (λ e. inl (((visible, named), (decides d).0 e), refl))
                (λ e. skip (λ h. not-true (test d) e ((decides d).1 h.1)))))

  or_next-IsBest :
      (P : DesktopInfo → Type 0) (Ps : List (DesktopInfo → Type 0)) (fs : List DesktopFile)
      (o : Option DesktopInfo) (next : DesktopInfo)
      → IsFound P fs o
      → IsBest Ps fs next
      → IsBest (P ∷ Ps) fs (or_next o next)
  or_next-IsBest P Ps fs none next h k = inr (h, k)
  or_next-IsBest P Ps fs (some d) next h k = inl h

  abbrev AllDecide : List (DesktopInfo → Bool) → List (DesktopInfo → Type 0) → Type 0
  AllDecide [] [] = Unit
  AllDecide (test ∷ rest) (P ∷ Ps) = Decides test P × AllDecide rest Ps
  AllDecide _ _ = ⊥

  first_of-IsBest :
      (ts : List (DesktopInfo → Bool)) (Ps : List (DesktopInfo → Type 0)) (fs : List DesktopFile)
      → AllDecide ts Ps
      → IsBest Ps fs (first_of ts (desktop_index t fs))
  unfolding first_of
  first_of-IsBest [] [] fs h = refl
  first_of-IsBest [] (P ∷ Ps) fs h = elim h [ ]
  first_of-IsBest (test ∷ rest) [] fs h = elim h [ ]
  first_of-IsBest (test ∷ rest) (P ∷ Ps) fs h =
      or_next-IsBest P Ps fs (first_match test (desktop_index t fs))
        (first_of rest (desktop_index t fs)) (first_match-IsFound test P fs h.0)
        (first_of-IsBest rest Ps fs h.1)

  guarded_name :
      (base command : String)
      → ((not (command == "") && t.file_name command == base) ≡ true) ↔ IsProgram t base command
  guarded_name base command = ground (arith, eq_iff (t.file_name command) base)

  tests-AllDecide : (base : String) → AllDecide (tests t base) (ways t base)
  tests-AllDecide base = (
    (λ d. eq_iff d.desktop_id (base <> ".desktop")),
    (
      (λ d. ((λ h. h), (λ h. h))),
      (
        (λ d. guarded_name base d.exec),
        ((λ d. guarded_name base d.try_exec), ((λ d. ((λ h. h), (λ h. h))), tt)),
      ),
    ),
  )

  -- The entry of a program is that of the first desktop file, among those that are shown and have a
  -- name, that fits the program by the strongest way by which any of them does: by its file name,
  -- by its file name up to case, by a command that is not empty, by such a command to try, or by its
  -- name up to case. A program has no entry only if none of the files fits by any of the ways.
  pub find_desktop_for_exe-IsBest :
      (files : List DesktopFile) (exe : String)
      → (exe == "") ≡ false
      → IsBest (ways t (t.file_name exe)) files (find_desktop_for_exe t (desktop_index t files) exe)
  unfolding find_desktop_for_exe
  find_desktop_for_exe-IsBest files exe h = rw h (
      first_of-IsBest (tests t (t.file_name exe)) (ways t (t.file_name exe)) files
        (tests-AllDecide (t.file_name exe)))
