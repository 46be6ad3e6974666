-- ===== src/Registry/Recompute.antt =====
-- What a recomputation of the active provider leaves: the live providers, and the best of them.
use mathlib.Core.List.{Memᴰ}
use bb_auth.Prelude.{
  ℕ, ◌≤◌, ◌≡◌, ◌↔◌, refl, ◌⊎◌, inl, inr, Bool, true, not, Bool-cases, Option, none, some, [], ◌∷◌,
  All, arith, if◌then◌else◌, is_some,
}
use bb_auth.Prelude.Int.{◌<ℤ◌, eq_of_parts}
use bb_auth.Prelude.Hash.{Hash}
use bb_auth.Registry.{
  UiProvider, Registry, Best, no_best, is_live, is_better, chosen, scan, same_socket,
  recompute_active_provider,
}

unfoldable pub live_only : ℕ → (ℕ → Bool) → Hash ℕ UiProvider → Hash ℕ UiProvider
live_only now connected [] = []
live_only now connected ((s, p) ∷ m) =
    let rest = live_only now connected m in
    if is_live now connected s p then (s, p) ∷ rest else rest

-- The first has a lower priority than the second, or the same and no later heartbeat.
abbrev pub IsNotAbove : UiProvider → UiProvider → Type 0
IsNotAbove p q =
    (p.priority <ℤ q.priority)
    ⊎ ((p.priority ≡ q.priority) × (p.last_heartbeat_ms ≤ q.last_heartbeat_ms))

abbrev IsAtMost : Best → Best → Type 0
IsAtMost b c =
    (b.socket ≡ none)
    ⊎ ((is_some c.socket ≡ true)
        × ((b.priority <ℤ c.priority) ⊎ ((b.priority ≡ c.priority) × (b.heartbeat ≤ c.heartbeat))))

abbrev after : ℕ → UiProvider → Best → Best
after s p b = if is_better p b then chosen s p else b

IsAtMost-refl : (b : Best) → IsAtMost b b
IsAtMost-refl b = ground arith

IsAtMost-trans : (a b c : Best) → IsAtMost a b → IsAtMost b c → IsAtMost a c
IsAtMost-trans a b c h k = ground arith

after-above : (s : ℕ) (p : UiProvider) (b : Best) → IsAtMost b (after s p b)
after-above s p b = ground arith

after-above_new : (s : ℕ) (p : UiProvider) (b : Best) → IsAtMost (chosen s p) (after s p b)
after-above_new s p b = ground (arith, eq_of_parts p.priority b.priority)

module _ (now : ℕ) (connected : ℕ → Bool) where
  scan-live :
      (b : Best) (m : Hash ℕ UiProvider) → (scan now connected b m).0 ≡ live_only now connected m
  unfolding scan live_only
  scan-live b [] = refl
  scan-live b ((s, p) ∷ m) = ground (arith, scan-live b m, scan-live (after s p b) m)

  scan-above :
      (b : Best) (m : Hash ℕ UiProvider)
      → IsAtMost b (scan now connected b m).1
        × All
            (λ e. IsAtMost (chosen e.0 e.1) (scan now connected b m).1)
            (live_only now connected m)
  unfolding scan live_only
  scan-above b [] = (IsAtMost-refl b, tt)
  scan-above b ((s, p) ∷ m) = elim (Bool-cases (is_live now connected s p)) [
    | inl live ↦
        rw (live, scan, live_only)
          (let (above, rest) = scan-above (after s p b) m in
            let c = (scan now connected (after s p b) m).1 in
            (
              IsAtMost-trans b (after s p b) c (after-above s p b) above,
              (IsAtMost-trans (chosen s p) (after s p b) c (after-above_new s p b) above, rest),
            ))
    | inr dead ↦ rw (dead, scan, live_only) (scan-above b m)
  ]

  abbrev Elected : Best → Hash ℕ UiProvider → Best → Type 0
  Elected b m c = (c ≡ b) ⊎ ((s : ℕ) × (p : UiProvider) × (c ≡ chosen s p) × Memᴰ (s, p) m)

  Elected-cons :
      (b : Best) (s : ℕ) (p : UiProvider) (m : Hash ℕ UiProvider) (c : Best)
      → Elected b (live_only now connected m) c
      → Elected b ((s, p) ∷ live_only now connected m) c
  Elected-cons b s p m c (inl e) = inl e
  Elected-cons b s p m c (inr (t, q, e, h)) = inr (t, q, e, Memᴰ.tail h)

  scan-Elected :
      (b : Best) (m : Hash ℕ UiProvider)
      → Elected b (live_only now connected m) (scan now connected b m).1
  unfolding scan live_only
  scan-Elected b [] = inl refl
  scan-Elected b ((s, p) ∷ m) = elim (Bool-cases (is_live now connected s p)) [
    | inr dead ↦ rw (dead, scan, live_only) (scan-Elected b m)
    | inl live ↦
        rw (live, scan, live_only)
          (elim (Bool-cases (is_better p b)) [
            | inr worse ↦
                rw worse (Elected-cons b s p m (scan now connected b m).1 (scan-Elected b m))
            | inl better ↦ rw better (elim (scan-Elected (chosen s p) m) [
              | inl e ↦ inr (s, p, e, Memᴰ.head refl)
              | inr (t, q, e, h) ↦ inr (t, q, e, Memᴰ.tail h)
            ])
          ])
  ]

pub same_socket_iff : (a b : Option ℕ) → (same_socket a b ≡ true) ↔ (a ≡ b)
same_socket_iff a b = ground arith

-- An elected socket belongs to a provider of the hash that no other is above; none is elected from
-- an empty hash only.
abbrev pub IsElected : Hash ℕ UiProvider → Option ℕ → Type 0
IsElected m none = m ≡ []
IsElected m (some s) = (p : UiProvider) × Memᴰ (s, p) m × All (λ e. IsNotAbove e.1 p) m

not-above : (p q : UiProvider) (s t : ℕ) → IsAtMost (chosen s p) (chosen t q) → IsNotAbove p q
not-above p q s t h = ground arith

All-not-above :
    (m : Hash ℕ UiProvider) (t : ℕ) (q : UiProvider)
    → All (λ e. IsAtMost (chosen e.0 e.1) (chosen t q)) m
    → All (λ e. IsNotAbove e.1 q) m
All-not-above [] t q h = tt
All-not-above ((s, p) ∷ m) t q h = (not-above p q s t h.0, All-not-above m t q h.1)

none-above : (m : Hash ℕ UiProvider) → All (λ e. IsAtMost (chosen e.0 e.1) no_best) m → m ≡ []
none-above [] h = refl
none-above ((s, p) ∷ m) h = absurd (ground (arith, h.0))

module _ (now : ℕ) (connected : ℕ → Bool) where
  scan-IsElected :
      (m : Hash ℕ UiProvider)
      → IsElected (live_only now connected m) (scan now connected no_best m).1.socket
  scan-IsElected m =
      let above = (scan-above now connected no_best m).1 in
      elim (scan-Elected now connected no_best m) [
        | inl e ↦ rw e (none-above _ (rw e at above))
        | inr (s, p, e, h) ↦ rw e (p, h, All-not-above _ s p (rw e at above))
      ]

  abbrev elect : Registry → Option ℕ
  elect r = (scan now connected no_best r.ui_providers).1.socket

  pub recompute-kept :
      (r : Registry)
      → (recompute_active_provider r now connected).1.ui_providers
        ≡ live_only now connected r.ui_providers
  unfolding recompute_active_provider
  recompute-kept r = ground (arith, scan-live now connected no_best r.ui_providers)

  recompute-active :
      (r : Registry) → (recompute_active_provider r now connected).1.active_provider ≡ elect r
  unfolding recompute_active_provider
  recompute-active r = ground (arith, same_socket_iff r.active_provider (elect r))

  recompute-changed :
      (r : Registry)
      → (recompute_active_provider r now connected).0
        ≡ not (same_socket r.active_provider (elect r))
  unfolding recompute_active_provider
  recompute-changed r = ground arith

  -- A recomputation keeps exactly the providers whose socket is connected and whose last heartbeat
  -- is at most 15 s old, whatever the order in which the hash is visited. The active provider is
  -- then one of them with the highest priority, and among those the latest heartbeat, or none if
  -- none is left; the result tells whether the active provider changed.
  pub recompute-IsElected :
      (r : Registry)
      → let (changed, r') = recompute_active_provider r now connected in
        (r'.ui_providers ≡ live_only now connected r.ui_providers)
        × IsElected r'.ui_providers r'.active_provider
        × (changed ≡ not (same_socket r.active_provider r'.active_provider))
  recompute-IsElected r =
      rw (recompute-kept r, recompute-active r)
        (refl, scan-IsElected r.ui_providers, recompute-changed r)
