-- ===== src/Map/Laws.antt =====
-- What `get`, the sizes and predicates on all entries are after each operation.
use herdr_dog_relay.Prelude.{
  ◌+◌, ◌≤◌, ◌<◌, ◌≡◌, refl, inl, inr, [], ◌∷◌, false, none, some, Ord, ◌==◌, length, All,
  if◌then◌else◌, arith, Bool-cases, beq_refl,
}
use mathlib.Core.Option
use herdr_dog_relay.Map.{Map, get, insert, remove, modify}

module _ {ℓ κ} {K : Type ℓ} {V : Type κ} ⦃o : Ord K⦄ where
  pub get-insert :
      (k j : K) (v : V) (m : Map K V) → get j (insert k v m) ≡ (if j == k then some v else get j m)
  unfolding get insert
  get-insert k j v [] = refl
  get-insert k j v ((i, w) ∷ m) =
      ground (arith, o.beq_iff j k, o.beq_iff k i, o.beq_iff j i, get-insert k j v m)

  pub get-remove : (k j : K) (m : Map K V) → get j (remove k m) ≡ (if j == k then none else get j m)
  unfolding get remove
  get-remove k j [] = ground arith
  get-remove k j ((i, w) ∷ m) =
      ground (arith, o.beq_iff j k, o.beq_iff k i, o.beq_iff j i, get-remove k j m)

  pub get-insert_self : (k : K) (v : V) (m : Map K V) → get k (insert k v m) ≡ some v
  get-insert_self k v m = rw (get-insert, beq_refl k)

  pub get-remove_self : (k : K) (m : Map K V) → get k (remove k m) ≡ none
  get-remove_self k m = rw (get-remove, beq_refl k)

  pub length-insert-le : (k : K) (v : V) (m : Map K V) → length (insert k v m) ≤ length m + 1
  unfolding insert
  length-insert-le k v [] = omega arith
  length-insert-le k v ((i, w) ∷ m) = ground (arith, length-insert-le k v m)

  pub length-remove-le : (k : K) (m : Map K V) → length (remove k m) ≤ length m
  unfolding remove
  length-remove-le k [] = omega arith
  length-remove-le k ((i, w) ∷ m) = ground (arith, length-remove-le k m)

  -- An entry that was there makes room.
  pub length-remove-lt :
      (k : K) (v : V) (m : Map K V) → get k m ≡ some v → length (remove k m) < length m
  unfolding get remove
  length-remove-lt k v [] h = cc
  length-remove-lt k v ((i, w) ∷ m) h = ground (arith, length-remove-le k m, length-remove-lt k v m)

  pub insert-All {μ} :
      (P : K × V → Type μ) (k : K) (v : V) (m : Map K V) → P (k, v) → All P m → All P (insert k v m)
  unfolding insert
  insert-All P k v [] p h = (p, tt)
  insert-All P k v ((i, w) ∷ m) p h = ground (arith, insert-All P k v m p h.1)

  pub remove-All {μ} : (P : K × V → Type μ) (k : K) (m : Map K V) → All P m → All P (remove k m)
  unfolding remove
  remove-All P k [] h = tt
  remove-All P k ((i, w) ∷ m) h = ground (arith, remove-All P k m h.1)

  pub get-All {μ} :
      (P : K × V → Type μ) (k : K) (v : V) (m : Map K V) → All P m → get k m ≡ some v → P (k, v)
  unfolding get
  get-All P k v [] h e = cc
  get-All P k v ((i, w) ∷ m) h e = elim (Bool-cases (k == i)) [
    | inl t ↦ let q : w ≡ v = ground arith in rw ((o.beq_iff k i).0 t, ← q) h.0
    | inr f ↦ get-All P k v m h.1 (ground arith)
  ]

  -- A key that is there stands in the list of keys, so an absent one differs from each.
  pub get-none-All :
      (k : K) (m : Map K V) → get k m ≡ none → All (λ (e : K × V). (k == e.0) ≡ false) m
  unfolding get
  get-none-All k [] h = tt
  get-none-All k ((i, w) ∷ m) h = ground (arith, get-none-All k m)

  pub get-modify :
      (k j : K) (f : V → V) (m : Map K V)
      → get j (modify k f m) ≡ (if j == k then Option.map f (get j m) else get j m)
  unfolding get modify
  get-modify k j f [] = ground arith
  get-modify k j f ((i, w) ∷ m) =
      ground (arith, o.beq_iff j k, o.beq_iff k i, o.beq_iff j i, get-modify k j f m)

  pub length-modify : (k : K) (f : V → V) (m : Map K V) → length (modify k f m) ≡ length m
  unfolding modify
  length-modify k f [] = refl
  length-modify k f ((i, w) ∷ m) = ground (arith, length-modify k f m)

  pub modify-All {μ} :
      (P : K × V → Type μ) (k : K) (f : V → V) (m : Map K V)
      → ((j : K) (v : V) → P (j, v) → P (j, f v))
      → All P m
      → All P (modify k f m)
  unfolding modify
  modify-All P k f [] keep h = tt
  modify-All P k f ((i, w) ∷ m) keep h = ground (arith, keep i w h.0, modify-All P k f m keep h.1)
