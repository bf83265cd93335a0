-- ===== src/Map.antt =====
-- `BTreeMap` and `BTreeSet` of the standard library, as the components use them: entries in
-- ascending order of their keys, one entry for each key. The components' states are built from
-- these operations; Map/Laws.antt and Map/Order.antt hold what the proofs use of them.
pub mod Laws
pub mod Order
use herdr_dog_relay.Prelude.{
  ℕ, List, [], ◌∷◌, Bool, true, false, Option, none, some, Ord, ◌==◌, length, retain, any,
  if◌then◌else◌, map,
}

abbrev pub Map {ℓ κ} : Type ℓ → Type κ → Type (ℓ ⊔ κ)
Map K V = List (K × V)

module _ {ℓ κ} {K : Type ℓ} {V : Type κ} ⦃o : Ord K⦄ where
  -- `get`
  unfoldable pub get : K → Map K V → Option V
  get k [] = none
  get k ((j, v) ∷ m) = if k == j then some v else get k m

  -- `contains_key`
  abbrev pub contains_key : K → Map K V → Bool
  contains_key k m = elim (get k m) [ none ↦ false | some v ↦ true ]

  -- `insert`, which replaces the value of a key that is there.
  unfoldable pub insert : K → V → Map K V → Map K V
  insert k v [] = (k, v) ∷ []
  insert k v ((j, w) ∷ m) =
      if k == j then (k, v) ∷ m else if o.lt k j then (k, v) ∷ (j, w) ∷ m else (j, w) ∷ insert k v m

  -- `remove`
  unfoldable pub remove : K → Map K V → Map K V
  remove k [] = []
  remove k ((j, v) ∷ m) = let rest = remove k m in if k == j then rest else (j, v) ∷ rest

  -- A write through `get_mut`.
  unfoldable pub modify : K → (V → V) → Map K V → Map K V
  modify k f [] = []
  modify k f ((j, v) ∷ m) = if k == j then (j, f v) ∷ m else (j, v) ∷ modify k f m

-- `values()`
abbrev pub values {ℓ κ} : {K : Type ℓ} {V : Type κ} → Map K V → List V
values m = map (λ e. e.1) m

-- `keys()`
abbrev pub keys {ℓ κ} : {K : Type ℓ} {V : Type κ} → Map K V → List K
keys m = map (λ e. e.0) m

-- `retain` on the values.
abbrev pub retain_values {ℓ κ} : {K : Type ℓ} {V : Type κ} → (V → Bool) → Map K V → Map K V
retain_values p m = retain (λ e. p e.1) m
