-- ===== src/Registry/Handles.antt =====
-- src/session_registry.rs, lines 549 to 559: `allocate_handle` and its counter.
use herdr_dog_relay.Prelude.{
  ℕ, zero, suc, ◌+◌, ◌-◌, ◌%◌, ◌≤◌, ◌<◌, ◌≡◌, ◌≢◌, inl, inr, true, none, some, length, nat_ord,
  arith, Option-cases,
}
use herdr_dog_relay.Map.{Map, get, remove, contains_key}
use herdr_dog_relay.Map.Laws.{get-remove, length-remove-lt}
use herdr_dog_relay.Registry.{ActiveSession, bump_handle, allocate, handle_rounds}

abbrev pub IsHandle : ℕ → Type 0
IsHandle h = (1 ≤ h) × (h ≤ 65535)

pub bump_handle-IsHandle : (h : ℕ) → IsHandle (bump_handle h)
unfolding bump_handle
bump_handle-IsHandle h = omega arith

-- The handle that the counter reaches after `i` rounds.
nth_handle : ℕ → ℕ → ℕ
nth_handle h i = (h - 1 + i) % 65535 + 1

nth_handle-ne : (h i j : ℕ) → IsHandle h → i < j → j < 65535 → nth_handle h i ≢ nth_handle h j
unfolding nth_handle
nth_handle-ne h i j v l k e = omega arith

-- What the loop returns is a handle that is not in use.
pub allocate_free :
    (rounds next : ℕ) (m : Map ℕ ActiveSession) (h : ℕ)
    → IsHandle next
    → (allocate rounds next m).1 ≡ some h
    → IsHandle h × (get h m ≡ none)
unfolding allocate
allocate_free zero next m h v e = cc
allocate_free (suc rounds) next m h v e =
    ground (arith, bump_handle-IsHandle next, allocate_free rounds (bump_handle next) m h)

pub allocate-IsHandle :
    (rounds next : ℕ) (m : Map ℕ ActiveSession)
    → IsHandle next
    → IsHandle (allocate rounds next m).0
unfolding allocate
allocate-IsHandle zero next m v = v
allocate-IsHandle (suc rounds) next m v =
    ground (arith, bump_handle-IsHandle next, allocate-IsHandle rounds (bump_handle next) m)

allocate-none_step :
    (rounds next : ℕ) (m : Map ℕ ActiveSession)
    → IsHandle next
    → (allocate (suc rounds) next m).1 ≡ none
    → (contains_key next m ≡ true) × ((allocate rounds (bump_handle next) m).1 ≡ none)
unfolding allocate
allocate-none_step rounds next m v e = ground arith

nth_handle-zero : (h : ℕ) → IsHandle h → nth_handle h 0 ≡ h
unfolding nth_handle
nth_handle-zero h v = omega arith

nth_handle-suc : (h i : ℕ) → IsHandle h → nth_handle h (suc i) ≡ nth_handle (bump_handle h) i
unfolding nth_handle bump_handle
nth_handle-suc h i v = omega arith

-- If the loop finds nothing, each handle that it tried is in use.
allocate-none :
    (rounds next : ℕ) (m : Map ℕ ActiveSession)
    → IsHandle next
    → (allocate rounds next m).1 ≡ none
    → (i : ℕ) → i < rounds
    → contains_key (nth_handle next i) m ≡ true
allocate-none zero next m v e i l = elim l [ ]
allocate-none (suc rounds) next m v e zero l =
    rw (nth_handle-zero next v) (allocate-none_step rounds next m v e).0
allocate-none (suc rounds) next m v e (suc i) l = rw (nth_handle-suc next i v) (
    allocate-none rounds (bump_handle next) m (bump_handle-IsHandle next)
      (allocate-none_step rounds next m v e).1 i (omega arith))

some_of_contains :
    (h : ℕ) (m : Map ℕ ActiveSession)
    → contains_key h m ≡ true
    → (a : ActiveSession) × (get h m ≡ some a)
some_of_contains h m e = ground arith

contains-remove :
    (h k : ℕ) (m : Map ℕ ActiveSession)
    → h ≢ k
    → contains_key h m ≡ true
    → contains_key h (remove k m) ≡ true
contains-remove h k m ne e = ground (arith, get-remove k h m)

-- Different keys of a map are no more than its entries.
keys_le_length :
    (n : ℕ) (f : ℕ → ℕ) (m : Map ℕ ActiveSession)
    → ((i j : ℕ) → i < j → j < n → f i ≢ f j)
    → ((i : ℕ) → i < n → contains_key (f i) m ≡ true)
    → n ≤ length m
keys_le_length zero f m ne used = omega arith
keys_le_length (suc n) f m ne used =
    omega
      (arith, length-remove-lt (f n) held.0 m held.1, keys_le_length n f (remove (f n) m) ne' used')
  where
    held : (a : ActiveSession) × (get (f n) m ≡ some a)
    held = some_of_contains (f n) m (used n (omega arith))

    ne' : (i j : ℕ) → i < j → j < n → f i ≢ f j
    ne' i j l k = ne i j l (omega arith)

    used' : (i : ℕ) → i < n → contains_key (f i) (remove (f n) m) ≡ true
    used' i l = contains-remove (f i) (f n) m (ne i n l (omega arith)) (used i (omega arith))

-- From a counter in 1 to 65535 and with fewer than 65535 sessions active, the 65536 rounds of the
-- allocation loop find a handle.
pub allocate_total :
    (next : ℕ) (m : Map ℕ ActiveSession)
    → IsHandle next
    → length m < 65535
    → (h : ℕ) × ((allocate handle_rounds next m).1 ≡ some h)
allocate_total next m v l = elim (Option-cases (allocate handle_rounds next m).1) [
  | inr found ↦ found
  | inl e ↦ absurd (
      omega (
        arith,
        keys_le_length 65535 (nth_handle next) m (λ i j p q. nth_handle-ne next i j v p q)
            (λ i q. allocate-none handle_rounds next m v e i (omega arith)),
      ))
]
