-- ===== src/Map/Order.antt =====
-- Maps in ascending order of their keys, and `retain` on them.
use herdr_dog_relay.Prelude.{
  ◌≡◌, refl, inl, inr, [], ◌∷◌, Bool, true, Option, none, some, Ord, ◌==◌, if◌then◌else◌, arith,
  Bool-cases,
}
use herdr_dog_relay.Map.{Map, get, insert, remove, modify, retain_values}

-- `retain` keeps an entry by its own value.
abbrev pub keep_if {κ} : {V : Type κ} → (V → Bool) → Option V → Option V
keep_if p none = none
keep_if p (some v) = if p v then some v else none

module _ {ℓ κ} {K : Type ℓ} {V : Type κ} ⦃o : Ord K⦄ where
  abbrev pub IsAbove : K → Map K V → Type 0
  IsAbove k [] = Unit {0}
  IsAbove k ((j, v) ∷ m) = (o.lt k j ≡ true) × IsAbove k m

  abbrev pub IsSorted : Map K V → Type 0
  IsSorted [] = Unit {0}
  IsSorted ((k, v) ∷ m) = IsAbove k m × IsSorted m

  IsAbove-trans : (k j : K) (m : Map K V) → o.lt k j ≡ true → IsAbove j m → IsAbove k m
  IsAbove-trans k j [] h a = tt
  IsAbove-trans k j ((i, w) ∷ m) h a = (o.lt_trans k j i h a.0, IsAbove-trans k j m h a.1)

  insert-IsAbove :
      (k j : K) (v : V) (m : Map K V) → o.lt k j ≡ true → IsAbove k m → IsAbove k (insert j v m)
  unfolding insert
  insert-IsAbove k j v [] h a = (h, tt)
  insert-IsAbove k j v ((i, w) ∷ m) h a = ground (arith, insert-IsAbove k j v m h a.1)

  pub insert-IsSorted : (k : K) (v : V) (m : Map K V) → IsSorted m → IsSorted (insert k v m)
  unfolding insert
  insert-IsSorted k v [] s = (tt, tt)
  insert-IsSorted k v ((i, w) ∷ m) s = elim (Bool-cases (k == i)) [
    | inl t ↦ let p : k ≡ i = (o.beq_iff k i).0 t in rw (t, p) s
    | inr f ↦ elim (Bool-cases (o.lt k i)) [
      | inl l ↦ rw (f, l) ((l, IsAbove-trans k i m l s.0), s)
      | inr g ↦
          rw (f, g) (insert-IsAbove i k v m (o.lt_total k i f g) s.0, insert-IsSorted k v m s.1)
    ]
  ]

  remove-IsAbove : (k j : K) (m : Map K V) → IsAbove k m → IsAbove k (remove j m)
  unfolding remove
  remove-IsAbove k j [] a = tt
  remove-IsAbove k j ((i, w) ∷ m) a = ground (arith, remove-IsAbove k j m a.1)

  pub remove-IsSorted : (k : K) (m : Map K V) → IsSorted m → IsSorted (remove k m)
  unfolding remove
  remove-IsSorted k [] s = tt
  remove-IsSorted k ((i, w) ∷ m) s =
      ground (arith, remove-IsSorted k m s.1, remove-IsAbove i k m s.0)

  modify-IsAbove : (k j : K) (f : V → V) (m : Map K V) → IsAbove k m → IsAbove k (modify j f m)
  unfolding modify
  modify-IsAbove k j f [] a = tt
  modify-IsAbove k j f ((i, w) ∷ m) a = ground (arith, modify-IsAbove k j f m a.1)

  pub modify-IsSorted : (k : K) (f : V → V) (m : Map K V) → IsSorted m → IsSorted (modify k f m)
  unfolding modify
  modify-IsSorted k f [] s = tt
  modify-IsSorted k f ((i, w) ∷ m) s =
      ground (arith, modify-IsSorted k f m s.1, modify-IsAbove i k f m s.0)

  retain-IsAbove :
      (k : K) (p : V → Bool) (m : Map K V) → IsAbove k m → IsAbove k (retain_values p m)
  retain-IsAbove k p [] a = tt
  retain-IsAbove k p ((i, w) ∷ m) a = ground (arith, retain-IsAbove k p m a.1)

  pub retain-IsSorted : (p : V → Bool) (m : Map K V) → IsSorted m → IsSorted (retain_values p m)
  retain-IsSorted p [] s = tt
  retain-IsSorted p ((i, w) ∷ m) s =
      ground (arith, retain-IsSorted p m s.1, retain-IsAbove i p m s.0)

  pub get-IsAbove : (k : K) (m : Map K V) → IsAbove k m → get k m ≡ none
  unfolding get
  get-IsAbove k [] a = refl
  get-IsAbove k ((i, w) ∷ m) a = ground (arith, o.beq_iff k i, o.lt_irrefl i, get-IsAbove k m a.1)

  pub get-retain :
      (k : K) (p : V → Bool) (m : Map K V)
      → IsSorted m
      → get k (retain_values p m) ≡ keep_if p (get k m)
  unfolding get
  get-retain k p [] s = refl
  get-retain k p ((i, w) ∷ m) s =
      ground (arith, o.beq_iff k i, get-retain k p m s.1, get-IsAbove i m s.0)
