-- ===== src/Prelude/Layout.antt =====
-- Records laid out field after field: reading a field back from its place, and putting the bytes
-- together again from their slices.
use mathlib.Core.List.{flatten, append-nil}
use Prim.Native.Nat.{ℕ, zero, suc, ◌+◌, ◌-◌, ◌<◌, ◌^◌}
use mathlib.Core.Path.{◌≡◌, refl, ap, ◌∙◌}
use mathlib.Core.List.{List, [], ◌∷◌, ◌++◌}
use mathlib.Core.Option.{some}
use native.Mathlib.Omega.{arith}
use herdr_dog_relay.Prelude.Lists.{length-append, length, take, drop, get_elem?}
use herdr_dog_relay.Prelude.ByteStrings.{
  to_be, from_be, length-to_be, from_be-to_be, Bytes, slice, byte_at,
}

-- Where the `i`-th field of a layout begins.
abbrev pub offset : List Bytes → ℕ → ℕ
offset [] i = 0
offset (f ∷ fs) zero = 0
offset (f ∷ fs) (suc i) = length f + offset fs i

pub drop-append : (xs ys : Bytes) (n : ℕ) → drop (length xs + n) (xs ++ ys) ≡ drop n ys
drop-append [] ys n = let e : 0 + n ≡ n = omega arith in rw e
drop-append (x ∷ xs) ys n =
    let e : suc (length xs) + n ≡ suc (length xs + n) = omega arith in rw e (drop-append xs ys n)

pub take-append : (xs ys : Bytes) → take (length xs) (xs ++ ys) ≡ xs
take-append [] ys = refl
take-append (x ∷ xs) ys = rw (take-append xs ys)

drop-offset : (fs : List Bytes) (i : ℕ) → drop (offset fs i) (flatten fs) ≡ flatten (drop i fs)
unfolding flatten
drop-offset [] zero = refl
drop-offset [] (suc i) = refl
drop-offset (f ∷ fs) zero = refl
drop-offset (f ∷ fs) (suc i) = drop-append f (flatten fs) (offset fs i) ∙ drop-offset fs i

flatten-drop :
    (fs : List Bytes) (i : ℕ) (f : Bytes)
    → get_elem? fs i ≡ some f
    → flatten (drop i fs) ≡ f ++ flatten (drop (suc i) fs)
unfolding flatten
flatten-drop [] i f h = cc
flatten-drop (g ∷ fs) zero f h = ground arith
flatten-drop (g ∷ fs) (suc i) f h = flatten-drop fs i f h

-- The bytes from where a field begins to where it ends are the field.
pub slice-flatten :
    (fs : List Bytes) (i : ℕ) (f : Bytes) (lo hi : ℕ)
    → get_elem? fs i ≡ some f
    → offset fs i ≡ lo
    → lo + length f ≡ hi
    → slice lo hi (flatten fs) ≡ f
slice-flatten fs i f lo hi g e k =
    let n : hi - lo ≡ length f = omega arith in
    rw (n, ← e, drop-offset fs i, flatten-drop fs i f g) (take-append f _)

-- The rest from where a field begins.
pub drop-flatten :
    (fs : List Bytes) (i lo : ℕ) → offset fs i ≡ lo → drop lo (flatten fs) ≡ flatten (drop i fs)
drop-flatten fs i lo e = rw (← e) (drop-offset fs i)

byte_at-drop : (bs : Bytes) (i : ℕ) → byte_at bs i ≡ byte_at (drop i bs) 0
byte_at-drop [] zero = refl
byte_at-drop [] (suc i) = refl
byte_at-drop (b ∷ bs) zero = refl
byte_at-drop (b ∷ bs) (suc i) = byte_at-drop bs i

-- A field of one byte is read by its index.
pub byte_at-flatten :
    (fs : List Bytes) (i b lo : ℕ)
    → get_elem? fs i ≡ some (b ∷ [])
    → offset fs i ≡ lo
    → byte_at (flatten fs) lo ≡ b
byte_at-flatten fs i b lo g e =
    rw (byte_at-drop (flatten fs) lo, ← e, drop-offset fs i, flatten-drop fs i (b ∷ []) g) refl

-- The bytes that all fields take.
abbrev pub total_size : List Bytes → ℕ
total_size [] = 0
total_size (f ∷ fs) = length f + total_size fs

pub length-flatten : (fs : List Bytes) → length (flatten fs) ≡ total_size fs
unfolding flatten
length-flatten [] = refl
length-flatten (f ∷ fs) = omega (arith, length-append f (flatten fs), length-flatten fs)

-- An unsigned integer of `w` bytes is read back from its place.
pub uint-flatten :
    (fs : List Bytes) (i w n lo hi : ℕ)
    → get_elem? fs i ≡ some (to_be w n)
    → n < 256 ^ w
    → offset fs i ≡ lo
    → lo + w ≡ hi
    → from_be (slice lo hi (flatten fs)) ≡ n
uint-flatten fs i w n lo hi g h e k =
    ap from_be (slice-flatten fs i (to_be w n) lo hi g e (omega (arith, length-to_be w n)))
    ∙ from_be-to_be w n h

-- The last field is the rest.
pub last-flatten :
    (fs : List Bytes) (i : ℕ) (f : Bytes) (lo : ℕ)
    → drop i fs ≡ f ∷ []
    → offset fs i ≡ lo
    → drop lo (flatten fs) ≡ f
unfolding flatten
last-flatten fs i f lo g e = rw (← e, drop-offset fs i, g) (append-nil f)
