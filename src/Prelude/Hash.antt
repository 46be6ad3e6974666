-- ===== src/Prelude/Hash.antt =====
-- `QHash`, `QSet` and `std::unordered_map` as association lists in the order in which an iteration
-- visits them, which is arbitrary: a theorem about a hash holds for every such list.
use mathlib.Core.Path.{◌≡◌, refl}
use mathlib.Core.Bool.{Bool}
use mathlib.Core.List.{List, [], ◌∷◌, map}
use mathlib.Core.Option.{Option, none, some}
use native.Mathlib.Omega.{arith}
use bb_auth.Prelude.Tests.{if◌then◌else◌}
use bb_auth.Prelude.Lists.{is_some}
use bb_auth.Prelude.Equality.{Key, ◌==◌}

abbrev pub Hash {ℓ κ} : Type ℓ → Type κ → Type (ℓ ⊔ κ)
Hash K V = List (K × V)

module _ {ℓ κ} {K : Type ℓ} {V : Type κ} ⦃key : Key K⦄ where
  unfoldable pub find : K → Hash K V → Option V
  find k [] = none
  find k ((j, v) ∷ m) = if j == k then some v else find k m

  -- `hash[k] = v`
  unfoldable pub insert : K → V → Hash K V → Hash K V
  insert k v [] = (k, v) ∷ []
  insert k v ((j, w) ∷ m) = if j == k then (j, v) ∷ m else (j, w) ∷ insert k v m

  unfoldable pub remove : K → Hash K V → Hash K V
  remove k [] = []
  remove k ((j, w) ∷ m) = let rest = remove k m in if j == k then rest else (j, w) ∷ rest

  abbrev pub contains : K → Hash K V → Bool
  contains k m = is_some (find k m)

  pub find-insert :
      (k j : K) (v : V) (m : Hash K V)
      → find j (insert k v m) ≡ (if k == j then some v else find j m)
  unfolding find insert
  find-insert k j v [] = refl
  find-insert k j v ((i, w) ∷ m) =
      ground (arith, key.same_iff k j, key.same_iff i k, key.same_iff i j, find-insert k j v m)

  pub find-remove :
      (k j : K) (m : Hash K V) → find j (remove k m) ≡ (if k == j then none else find j m)
  unfolding find remove
  find-remove k j [] = ground arith
  find-remove k j ((i, w) ∷ m) =
      ground (arith, key.same_iff k j, key.same_iff i k, key.same_iff i j, find-remove k j m)

  pub find-insert_self : (k : K) (v : V) (m : Hash K V) → find k (insert k v m) ≡ some v
  find-insert_self k v m = ground (arith, find-insert k k v m, key.same_iff k k)

  pub find-remove_self : (k : K) (m : Hash K V) → find k (remove k m) ≡ none
  find-remove_self k m = ground (arith, find-remove k k m, key.same_iff k k)

abbrev pub keys {ℓ κ} : {K : Type ℓ} {V : Type κ} → Hash K V → List K
keys = map (λ b. b.0)
