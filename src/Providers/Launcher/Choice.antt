-- ===== src/Providers/Launcher/Choice.antt =====
-- Which manifest is launched.
use mathlib.Core.List.{Memᴰ}
use bb_auth.Prelude.{
  ◌≡◌, refl, ap, ◌∙◌, ◌⊎◌, Bool, true, false, Option, none, some, arith, if◌then◌else◌, inl, inr,
  List, [], ◌∷◌, All, Bool-cases,
}
use bb_auth.Prelude.Int.{◌≤ℤ◌}
use bb_auth.Providers.Host.{Host}
use bb_auth.Providers.Manifest.{ProviderManifest}
use bb_auth.Providers.Launcher.{
  precedes, sorted_in, sort, autostarting, first_launchable, is_launchable,
}

abbrev IsSorted : List ProviderManifest → Type 0
IsSorted [] = Unit {0}
IsSorted (m ∷ ms) = All (λ n. n.priority ≤ℤ m.priority) ms × IsSorted ms

precedes-le : (a b : ProviderManifest) → precedes a b ≡ true → b.priority ≤ℤ a.priority
precedes-le a b h = ground arith

not-precedes-le : (a b : ProviderManifest) → precedes a b ≡ false → a.priority ≤ℤ b.priority
not-precedes-le a b h = ground arith

module _ (P : ProviderManifest → Type 0) where
  All-sorted_in :
      (m : ProviderManifest) (ms : List ProviderManifest) → P m → All P ms → All P (sorted_in m ms)
  unfolding sorted_in
  All-sorted_in m [] p h = (p, tt)
  All-sorted_in m (n ∷ ns) p h = elim (Bool-cases (precedes n m)) [
    | inl e ↦ rw e (h.0, All-sorted_in m ns p h.1)
    | inr e ↦ rw e (p, h)
  ]

  All-of-sorted_in :
      (m : ProviderManifest) (ms : List ProviderManifest) → All P (sorted_in m ms) → P m × All P ms
  unfolding sorted_in
  All-of-sorted_in m [] h = (h.0, tt)
  All-of-sorted_in m (n ∷ ns) h = elim (Bool-cases (precedes n m)) [
    | inl e ↦
        let k : P n × All P (sorted_in m ns) = rw e at h in
        let (p, rest) = All-of-sorted_in m ns k.1 in (p, (k.0, rest))
    | inr e ↦ let k : P m × (P n × All P ns) = rw e at h in k
  ]

All-trans :
    (a b : ProviderManifest) (ms : List ProviderManifest)
    → a.priority ≤ℤ b.priority
    → All (λ n. n.priority ≤ℤ a.priority) ms
    → All (λ n. n.priority ≤ℤ b.priority) ms
All-trans a b [] h k = tt
All-trans a b (m ∷ ms) h k = (omega arith, All-trans a b ms h k.1)

sorted_in-IsSorted :
    (m : ProviderManifest) (ms : List ProviderManifest) → IsSorted ms → IsSorted (sorted_in m ms)
unfolding sorted_in
sorted_in-IsSorted m [] h = (tt, tt)
sorted_in-IsSorted m (n ∷ ns) h = elim (Bool-cases (precedes n m)) [
  | inl e ↦ rw e (
    All-sorted_in (λ k. k.priority ≤ℤ n.priority) m ns (precedes-le n m e) h.0,
    sorted_in-IsSorted m ns h.1,
  )
  | inr e ↦ rw e (let le = not-precedes-le n m e in ((le, All-trans n m ns le h.0), h))
]

sort-IsSorted : (ms : List ProviderManifest) → IsSorted (sort ms)
unfolding sort
sort-IsSorted [] = tt
sort-IsSorted (m ∷ ms) = sorted_in-IsSorted m (sort ms) (sort-IsSorted ms)

All-of-sort :
    (P : ProviderManifest → Type 0) (ms : List ProviderManifest) → All P (sort ms) → All P ms
unfolding sort
All-of-sort P [] h = tt
All-of-sort P (m ∷ ms) h =
    let (p, rest) = All-of-sorted_in P m (sort ms) h in (p, All-of-sort P ms rest)

mem-sorted_in :
    (x m : ProviderManifest) (ms : List ProviderManifest)
    → Memᴰ x (sorted_in m ms)
    → Memᴰ x (m ∷ ms)
unfolding sorted_in
mem-sorted_in x m [] h = h
mem-sorted_in x m (n ∷ ns) h = elim (Bool-cases (precedes n m)) [
  | inr e ↦ rw e at h
  | inl e ↦ mem-swap (mem-sorted_in x m ns) (rw e at h)
]
  where
    push : Memᴰ x (m ∷ ns) → Memᴰ x (m ∷ n ∷ ns)
    push (Memᴰ.head q) = Memᴰ.head q
    push (Memᴰ.tail q) = Memᴰ.tail (Memᴰ.tail q)

    mem-swap :
        (Memᴰ x (sorted_in m ns) → Memᴰ x (m ∷ ns))
        → Memᴰ x (n ∷ sorted_in m ns)
        → Memᴰ x (m ∷ n ∷ ns)
    mem-swap ih (Memᴰ.head q) = Memᴰ.tail (Memᴰ.head q)
    mem-swap ih (Memᴰ.tail q) = push (ih q)

mem-sort : (x : ProviderManifest) (ms : List ProviderManifest) → Memᴰ x (sort ms) → Memᴰ x ms
unfolding sort
mem-sort x [] h = h
mem-sort x (m ∷ ms) h = deeper (mem-sort x ms) (mem-sorted_in x m (sort ms) h)
  where
    deeper : (Memᴰ x (sort ms) → Memᴰ x ms) → Memᴰ x (m ∷ sort ms) → Memᴰ x (m ∷ ms)
    deeper ih (Memᴰ.head q) = Memᴰ.head q
    deeper ih (Memᴰ.tail q) = Memᴰ.tail (ih q)

mem-kept :
    (b : Bool) (x m : ProviderManifest) (ms : List ProviderManifest)
    → Memᴰ x (if b then m ∷ ms else ms)
    → Memᴰ x ms ⊎ ((x ≡ m) × (b ≡ true))
mem-kept true x m ms (Memᴰ.head q) = inr (q, refl)
mem-kept true x m ms (Memᴰ.tail q) = inl q
mem-kept false x m ms h = inl h

All-kept :
    (P : ProviderManifest → Type 0) (b : Bool) (m : ProviderManifest) (ms : List ProviderManifest)
    → All P (if b then m ∷ ms else ms)
    → ((b ≡ false) ⊎ P m) × All P ms
All-kept P true m ms h = (inr h.0, h.1)
All-kept P false m ms h = (inl refl, h)

mem-autostarting :
    (x : ProviderManifest) (ms : List ProviderManifest)
    → Memᴰ x (autostarting ms)
    → Memᴰ x ms × (x.autostart ≡ true)
unfolding autostarting
mem-autostarting x [] h = elim h [ ]
mem-autostarting x (m ∷ ms) h =
    deeper (mem-autostarting x ms) (mem-kept m.autostart x m (autostarting ms) h)
  where
    deeper :
        (Memᴰ x (autostarting ms) → Memᴰ x ms × (x.autostart ≡ true))
        → Memᴰ x (autostarting ms) ⊎ ((x ≡ m) × (m.autostart ≡ true))
        → Memᴰ x (m ∷ ms) × (x.autostart ≡ true)
    deeper ih (inr (q, e)) = (Memᴰ.head q, ap (λ (p : ProviderManifest). p.autostart) q ∙ e)
    deeper ih (inl q) = let (k, a) = ih q in (Memᴰ.tail k, a)

module _ (h : Host) where
  -- A manifest that could be started and is not below the chosen one does not exist.
  abbrev IsPassed : ProviderManifest → ProviderManifest → Type 0
  IsPassed m n = (is_launchable h n ≡ false) ⊎ (n.priority ≤ℤ m.priority)

  abbrev IsFirst : List ProviderManifest → Option ProviderManifest → Type 0
  IsFirst ms none = All (λ n. is_launchable h n ≡ false) ms
  IsFirst ms (some m) = Memᴰ m ms × (is_launchable h m ≡ true) × All (IsPassed m) ms

  IsPassed-of_le :
      (m : ProviderManifest) (ms : List ProviderManifest)
      → All (λ n. n.priority ≤ℤ m.priority) ms
      → All (IsPassed m) ms
  IsPassed-of_le m [] k = tt
  IsPassed-of_le m (n ∷ ns) k = (inr k.0, IsPassed-of_le m ns k.1)

  first_launchable-IsFirst :
      (ms : List ProviderManifest) → IsSorted ms → IsFirst ms (first_launchable h ms)
  unfolding first_launchable
  first_launchable-IsFirst [] s = tt
  first_launchable-IsFirst (m ∷ ms) s = elim (Bool-cases (is_launchable h m)) [
    | inl e ↦ rw e (Memᴰ.head refl, e, (inr (omega arith), IsPassed-of_le m ms s.0))
    | inr e ↦ rw e (later m ms e (first_launchable h ms) (first_launchable-IsFirst ms s.1))
  ]
    where
      later :
          (m : ProviderManifest) (ms : List ProviderManifest)
          → is_launchable h m ≡ false
          → (o : Option ProviderManifest) → IsFirst ms o
          → IsFirst (m ∷ ms) o
      later m ms e none k = (e, k)
      later m ms e (some n) k = (Memᴰ.tail k.0, k.1, (inl e, k.2))

  -- What the choice among the manifests must be: none if no autostarting manifest can be launched,
  -- else an autostarting one of the list that can, and none of a higher priority can.
  abbrev pub IsChoice : List ProviderManifest → Option ProviderManifest → Type 0
  IsChoice ms none = All (λ n. (n.autostart ≡ false) ⊎ (is_launchable h n ≡ false)) ms
  IsChoice ms (some m) =
      Memᴰ m ms
      × (m.autostart ≡ true)
      × (is_launchable h m ≡ true)
      × All (λ n. (n.autostart ≡ false) ⊎ IsPassed m n) ms

  All-autostarting :
      (P : ProviderManifest → Type 0) (ms : List ProviderManifest)
      → All P (autostarting ms)
      → All (λ n. (n.autostart ≡ false) ⊎ P n) ms
  unfolding autostarting
  All-autostarting P [] k = tt
  All-autostarting P (m ∷ ms) k =
      let (here, rest) = All-kept P m.autostart m (autostarting ms) k in
      (here, All-autostarting P ms rest)

  IsChoice-of_first :
      (ms : List ProviderManifest) (o : Option ProviderManifest)
      → IsFirst (sort (autostarting ms)) o
      → IsChoice ms o
  IsChoice-of_first ms none k = All-autostarting _ ms (All-of-sort _ (autostarting ms) k)
  IsChoice-of_first ms (some m) k =
      let (mem, auto) = mem-autostarting m ms (mem-sort m (autostarting ms) k.0) in
      (mem, auto, k.1, All-autostarting _ ms (All-of-sort _ (autostarting ms) k.2))

  -- The loop over the sorted manifests stops at a launchable autostarting manifest of the highest
  -- priority among all of those, and finds none only if there is none.
  pub first_launchable-IsChoice :
      (ms : List ProviderManifest) → IsChoice ms (first_launchable h (sort (autostarting ms)))
  first_launchable-IsChoice ms =
      IsChoice-of_first ms _
        (first_launchable-IsFirst (sort (autostarting ms)) (sort-IsSorted (autostarting ms)))
