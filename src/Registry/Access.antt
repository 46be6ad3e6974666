-- ===== src/Registry/Access.antt =====
-- Who may answer prompts.
use mathlib.Core.List.{Memᴰ}
use bb_auth.Prelude.{
  ℕ, ◌≡◌, ◌↔◌, ◌⊎◌, true, Option, none, some, [], ◌∷◌, arith, nat_eq, nat_beq_iff,
}
use bb_auth.Prelude.Hash.{Hash, find, contains}
use bb_auth.Registry.{UiProvider, Registry, is_authorized}
use bb_auth.Registry.Recompute.{IsElected}

contains-mem :
    (s : ℕ) (p : UiProvider) (m : Hash ℕ UiProvider) → Memᴰ (s, p) m → contains s m ≡ true
unfolding find
contains-mem s p [] h = elim h [ ]
contains-mem s p ((t, q) ∷ m) (Memᴰ.head e) = ground (arith, nat_beq_iff t s, e)
contains-mem s p ((t, q) ∷ m) (Memᴰ.tail h) = ground (arith, contains-mem s p m h)

-- The registry is consistent: no provider is active that is not registered, and one is active
-- while any is registered.
abbrev pub IsSettled : Registry → Type 0
IsSettled r = IsElected r.ui_providers r.active_provider

elected-contains : (m : Hash ℕ UiProvider) (s : ℕ) → IsElected m (some s) → contains s m ≡ true
elected-contains m s (p, h, above) = contains-mem s p m h

pub settled-authorized :
    (m : Hash ℕ UiProvider) (a : Option ℕ) (s : ℕ)
    → IsElected m a
    → (is_authorized (record { ui_providers = m; active_provider = a }) s ≡ true)
      ↔ ((m ≡ []) ⊎ (a ≡ some s))
unfolding is_authorized
settled-authorized [] a s h = ground arith
settled-authorized (e ∷ m) none s h = ground arith
settled-authorized (e ∷ m) (some t) s h =
    ground (arith, elected-contains (e ∷ m) t h, nat_beq_iff s t)
