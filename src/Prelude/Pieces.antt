-- ===== src/Prelude/Pieces.antt =====
-- A byte string put together again from its slices, which is what a decoder has read.
use mathlib.Core.List.{flatten, append-nil}
use Prim.Native.Nat.{ℕ, zero, suc, ◌+◌, ◌-◌, ◌≤◌, ◌<◌, ◌^◌}
use mathlib.Core.Path.{◌≡◌, refl, sym, ap, ◌∙◌}
use mathlib.Core.List.{List, [], ◌∷◌, ◌++◌}
use native.Mathlib.Omega.{arith}
use herdr_dog_relay.Prelude.Lists.{
  length, take, drop, All, length-take, length-drop, take-append-drop,
}
use herdr_dog_relay.Prelude.ByteStrings.{
  to_be, from_be, to_be-from_be, from_be-lt, IsArray, Bytes, IsByte, slice, byte_at,
}

pub length-slice :
    (lo hi : ℕ) (bs : Bytes) → lo ≤ hi → hi ≤ length bs → length (slice lo hi bs) ≡ hi - lo
length-slice lo hi bs h k = omega (arith, length-take (hi - lo) (drop lo bs), length-drop lo bs)

take-IsByte : (n : ℕ) (bs : Bytes) → All IsByte bs → All IsByte (take n bs)
take-IsByte zero bs h = tt
take-IsByte (suc n) [] h = tt
take-IsByte (suc n) (b ∷ bs) h = (h.0, take-IsByte n bs h.1)

pub drop-IsByte : (n : ℕ) (bs : Bytes) → All IsByte bs → All IsByte (drop n bs)
drop-IsByte zero bs h = h
drop-IsByte (suc n) [] h = tt
drop-IsByte (suc n) (b ∷ bs) h = drop-IsByte n bs h.1

pub slice-IsByte : (lo hi : ℕ) (bs : Bytes) → All IsByte bs → All IsByte (slice lo hi bs)
slice-IsByte lo hi bs h = take-IsByte (hi - lo) (drop lo bs) (drop-IsByte lo bs h)

pub byte_at-IsByte : (bs : Bytes) (i : ℕ) → All IsByte bs → byte_at bs i < 256
byte_at-IsByte [] zero h = omega arith
byte_at-IsByte [] (suc i) h = omega arith
byte_at-IsByte (b ∷ bs) zero h = h.0
byte_at-IsByte (b ∷ bs) (suc i) h = byte_at-IsByte bs i h.1

drop-drop : (m n : ℕ) (bs : Bytes) → drop m (drop n bs) ≡ drop (n + m) bs
drop-drop m zero bs = let e : 0 + m ≡ m = omega arith in rw e
drop-drop m (suc n) [] = let e : suc n + m ≡ suc (n + m) = omega arith in rw e (drop-nil m)
  where
    drop-nil : (k : ℕ) → drop {A = ℕ} k [] ≡ []
    drop-nil zero = refl
    drop-nil (suc k) = refl
drop-drop m (suc n) (b ∷ bs) =
    let e : suc n + m ≡ suc (n + m) = omega arith in rw e (drop-drop m n bs)

-- A field and what follows it make up the bytes from where the field begins.
pub slice-drop : (lo hi : ℕ) (bs : Bytes) → lo ≤ hi → slice lo hi bs ++ drop hi bs ≡ drop lo bs
slice-drop lo hi bs h =
    let e : lo + (hi - lo) ≡ hi = omega arith in
    let p : drop hi bs ≡ drop (hi - lo) (drop lo bs) =
      sym (drop-drop (hi - lo) lo bs ∙ ap (λ t. drop t bs) e) in
    ap (λ t. slice lo hi bs ++ t) p ∙ take-append-drop (hi - lo) (drop lo bs)

pub byte_at-slice :
    (bs : Bytes) (i : ℕ) → i < length bs → byte_at bs i ∷ drop (i + 1) bs ≡ drop i bs
byte_at-slice [] i h = elim h [ ]
byte_at-slice (b ∷ bs) zero h = refl
byte_at-slice (b ∷ bs) (suc i) h =
    let e : suc i + 1 ≡ suc (i + 1) = omega arith in rw e (byte_at-slice bs i (omega arith))

-- The bytes cut at the given places, from `lo` on.
abbrev pub pieces : ℕ → List ℕ → Bytes → List Bytes
pieces lo [] bs = drop lo bs ∷ []
pieces lo (hi ∷ cuts) bs = slice lo hi bs ∷ pieces hi cuts bs

abbrev pub IsAscending : ℕ → List ℕ → Type 0
IsAscending lo [] = Unit {0}
IsAscending lo (hi ∷ cuts) = (lo ≤ hi) × IsAscending hi cuts

pub flatten-pieces :
    (lo : ℕ) (cuts : List ℕ) (bs : Bytes)
    → IsAscending lo cuts
    → flatten (pieces lo cuts bs) ≡ drop lo bs
unfolding flatten
flatten-pieces lo [] bs a = append-nil (drop lo bs)
flatten-pieces lo (hi ∷ cuts) bs a =
    ap (λ t. slice lo hi bs ++ t) (flatten-pieces hi cuts bs a.1) ∙ slice-drop lo hi bs a.0

pub slice-byte_at : (bs : Bytes) (i : ℕ) → i < length bs → slice i (i + 1) bs ≡ byte_at bs i ∷ []
slice-byte_at bs i h = let e : i + 1 - i ≡ 1 = omega arith in rw (e, ← byte_at-slice bs i h) refl

-- An integer that was read is written back.
pub to_be-slice :
    (w lo hi : ℕ) (bs : Bytes)
    → All IsByte bs
    → lo + w ≡ hi
    → hi ≤ length bs
    → to_be w (from_be (slice lo hi bs)) ≡ slice lo hi bs
to_be-slice w lo hi bs b e h =
    to_be-from_be w (slice lo hi bs) (slice-IsByte lo hi bs b)
      (omega (arith, length-slice lo hi bs))

pub from_be-slice-lt :
    (w lo hi : ℕ) (bs : Bytes)
    → All IsByte bs
    → lo + w ≡ hi
    → hi ≤ length bs
    → from_be (slice lo hi bs) < 256 ^ w
from_be-slice-lt w lo hi bs b e h =
    from_be-lt w (slice lo hi bs) (slice-IsByte lo hi bs b) (omega (arith, length-slice lo hi bs))

pub slice-IsArray :
    (n lo hi : ℕ) (bs : Bytes)
    → All IsByte bs
    → lo + n ≡ hi
    → hi ≤ length bs
    → IsArray n (slice lo hi bs)
slice-IsArray n lo hi bs b e h = (omega (arith, length-slice lo hi bs), slice-IsByte lo hi bs b)

drop-length : (bs : Bytes) → drop (length bs) bs ≡ []
drop-length [] = refl
drop-length (b ∷ bs) = drop-length bs

-- A last slice is the rest.
pub slice-rest : (lo hi : ℕ) (bs : Bytes) → lo ≤ hi → length bs ≡ hi → slice lo hi bs ≡ drop lo bs
slice-rest lo hi bs h e =
    sym (append-nil (slice lo hi bs))
    ∙ ap (λ t. slice lo hi bs ++ t) (sym (rw (← e) (drop-length bs)))
    ∙ slice-drop lo hi bs h
