-- ===== src/Ipc/Framing/Chunks.antt =====
-- How the bytes are cut into reads does not matter.
use bb_auth.Prelude.{
  ℕ, zero, suc, ◌≤◌, ◌<◌, ◌≡◌, refl, sym, ap, ◌∙◌, true, false, Option, none, some, List, [], ◌∷◌,
  ◌++◌, length, length-append, All, ltb, arith, if◌then◌else◌, ◌==◌, nat_eq, inl, inr, Bool-cases,
}
use mathlib.Core.List.{append_assoc}
use bb_auth.Ipc.Framing.{split_line, with_byte, complete_lines, on_ready_read, max_message_size}

abbrev glue : ℕ → List (List ℕ) × List ℕ → List (List ℕ) × List ℕ
glue c ([], left) = ([], c ∷ left)
glue c (line ∷ lines, left) = ((c ∷ line) ∷ lines, left)

-- The lines of a text, byte by byte, and what stands after the last line break.
unfoldable pub lines_of : List ℕ → List (List ℕ) × List ℕ
lines_of [] = ([], [])
lines_of (c ∷ cs) =
    let (lines, left) = lines_of cs in if c == 10 then ([] ∷ lines, left) else glue c (lines, left)

abbrev after : List (List ℕ) → List (List ℕ) × List ℕ → List (List ℕ) × List ℕ
after lines (more, left) = (lines ++ more, left)

glue-after :
    (c : ℕ) (p q : List (List ℕ) × List ℕ) (ys : List ℕ)
    → lines_of (p.1 ++ ys) ≡ q
    → (c == 10) ≡ false
    → glue c (after p.0 q) ≡ after (glue c p).0 (lines_of ((glue c p).1 ++ ys))
unfolding lines_of
glue-after c ([], left) q ys h e = rw (e, h) refl
glue-after c (line ∷ lines, left) q ys h e = rw h refl

lines_of-append :
    (xs ys : List ℕ)
    → lines_of (xs ++ ys) ≡ after (lines_of xs).0 (lines_of ((lines_of xs).1 ++ ys))
unfolding lines_of
lines_of-append [] ys = refl
lines_of-append (c ∷ cs) ys = elim (Bool-cases (c == 10)) [
  | inl e ↦ rw e (ap (λ p. ([] ∷ p.0, p.1)) (lines_of-append cs ys))
  | inr e ↦ rw e (ap (glue c) (lines_of-append cs ys) ∙ glue-after c (lines_of cs) _ ys refl e)
]

-- What the first line break of a text does to its lines.
abbrev SplitsAs : List ℕ → Option (List ℕ × List ℕ) → Type 0
SplitsAs cs none = lines_of cs ≡ ([], cs)
SplitsAs cs (some (line, rest)) =
    (lines_of cs ≡ (line ∷ (lines_of rest).0, (lines_of rest).1)) × (length rest < length cs)

with_byte-SplitsAs :
    (c : ℕ) (cs : List ℕ) (o : Option (List ℕ × List ℕ))
    → (c == 10) ≡ false
    → SplitsAs cs o
    → SplitsAs (c ∷ cs) (with_byte c o)
unfolding lines_of
with_byte-SplitsAs c cs none e h = rw (e, h) refl
with_byte-SplitsAs c cs (some (line, rest)) e h = (rw (e, h.0) refl, omega (arith, h.1))

split_line-SplitsAs : (cs : List ℕ) → SplitsAs cs (split_line cs)
unfolding split_line lines_of
split_line-SplitsAs [] = refl
split_line-SplitsAs (c ∷ cs) = elim (Bool-cases (c == 10)) [
  | inl e ↦ rw e (rw e refl, omega arith)
  | inr e ↦ rw (e, split_line) (with_byte-SplitsAs c cs (split_line cs) e (split_line-SplitsAs cs))
]

complete_lines-suc :
    (fuel : ℕ) (b : List ℕ) (o : Option (List ℕ × List ℕ))
    → ((rest : List ℕ) → length rest ≤ fuel → complete_lines fuel rest ≡ lines_of rest)
    → length b ≤ suc fuel
    → split_line b ≡ o
    → SplitsAs b o
    → complete_lines (suc fuel) b ≡ lines_of b
unfolding complete_lines
complete_lines-suc fuel b none ih h s k = rw (s, complete_lines) (sym k)
complete_lines-suc fuel b (some (line, rest)) ih h s k =
    rw (s, complete_lines, ih rest (omega (arith, h, k.1))) (sym k.0)

-- The loop over the complete lines ends within as many rounds as there are bytes: with that many, or
-- more, it gives the lines between the line breaks and what stands after the last one.
pub complete_lines-lines_of :
    (fuel : ℕ) (b : List ℕ) → length b ≤ fuel → complete_lines fuel b ≡ lines_of b
unfolding complete_lines lines_of
complete_lines-lines_of zero [] h = refl
complete_lines-lines_of zero (c ∷ cs) h = absurd (omega arith)
complete_lines-lines_of (suc fuel) b h =
    complete_lines-suc fuel b (split_line b) (complete_lines-lines_of fuel) h refl
      (split_line-SplitsAs b)

length-glue : (c : ℕ) (p : List (List ℕ) × List ℕ) → length (glue c p).1 ≤ suc (length p.1)
length-glue c ([], left) = omega arith
length-glue c (line ∷ lines, left) = omega arith

length-lines_of : (cs : List ℕ) → length (lines_of cs).1 ≤ length cs
unfolding lines_of
length-lines_of [] = omega arith
length-lines_of (c ∷ cs) = elim (Bool-cases (c == 10)) [
  | inl e ↦ rw e (omega (arith, length-lines_of cs))
  | inr e ↦ rw e (omega (arith, length-lines_of cs, length-glue c (lines_of cs)))
]

glue-left :
    (c : ℕ) (p : List (List ℕ) × List ℕ)
    → (c == 10) ≡ false
    → All (λ d. (d == 10) ≡ false) p.1
    → All (λ d. (d == 10) ≡ false) (glue c p).1
glue-left c ([], left) e h = (e, h)
glue-left c (line ∷ lines, left) e h = h

-- What is left has no line break.
pub lines_of-left : (cs : List ℕ) → All (λ c. (c == 10) ≡ false) (lines_of cs).1
unfolding lines_of
lines_of-left [] = tt
lines_of-left (c ∷ cs) = elim (Bool-cases (c == 10)) [
  | inl e ↦ rw e (lines_of-left cs)
  | inr e ↦ rw e (glue-left c (lines_of cs) e (lines_of-left cs))
]

pub on_ready_read-long :
    (buffer chunk : List ℕ)
    → ltb max_message_size (length (buffer ++ chunk)) ≡ true
    → on_ready_read buffer chunk ≡ (true, [], buffer ++ chunk)
unfolding on_ready_read
on_ready_read-long buffer chunk h = rw h refl

pub on_ready_read-lines_of :
    (buffer chunk : List ℕ)
    → length (buffer ++ chunk) ≤ max_message_size
    → on_ready_read buffer chunk
      ≡ (false, (lines_of (buffer ++ chunk)).0, (lines_of (buffer ++ chunk)).1)
unfolding on_ready_read
on_ready_read-lines_of buffer chunk h =
    let b = buffer ++ chunk in
    let small : ltb max_message_size (length b) ≡ false = ground (arith, h) in
    rw (small, complete_lines-lines_of (length b) b (omega arith)) refl

-- What a client sends, in one read or in two: the same lines are handled in the same order and the
-- same buffer is left, wherever the bytes are cut, as long as the limit of 64 KiB is not passed with
-- all of them in one read. The lines are those between the line breaks, whole and without them.
pub on_ready_read-append :
    (buffer xs ys : List ℕ)
    → length (buffer ++ (xs ++ ys)) ≤ max_message_size
    → let first = on_ready_read buffer xs in
      let second = on_ready_read first.2 ys in
      (on_ready_read buffer (xs ++ ys) ≡ (false, first.1 ++ second.1, second.2))
      × (first.1 ++ second.1 ≡ (lines_of (buffer ++ (xs ++ ys))).0)
on_ready_read-append buffer xs ys h =
    let (lines, left) = lines_of (buffer ++ xs) in
    let all = length-append buffer (xs ++ ys) in
    let both = length-append xs ys in
    let one = length-append buffer xs in
    let rest = length-append left ys in
    let kept = length-lines_of (buffer ++ xs) in
    let joined : lines_of (buffer ++ (xs ++ ys)) ≡ after lines (lines_of (left ++ ys)) =
      rw (append_assoc buffer xs ys) at (lines_of-append (buffer ++ xs) ys) in
    rw
      (
        on_ready_read-lines_of buffer xs (omega (arith, h, all, both, one)),
        on_ready_read-lines_of left ys (omega (arith, h, all, both, one, rest, kept)),
        on_ready_read-lines_of buffer (xs ++ ys) h,
        joined,
      )
      (refl, refl)
