-- ===== src/Prelude/ByteStrings.antt =====
-- Byte strings: big-endian integers, slices and indices.
use mathlib.Core.List.{reverse, reverse-reverse, reverse-cons}
use Prim.Native.Nat.{ℕ, zero, suc, ◌+◌, ◌-◌, ◌*◌, ◌/◌, ◌%◌, ◌^◌, ◌<◌}
use native.Mathlib.Nat.{pow-suc}
use mathlib.Core.Path.{◌≡◌, refl, ap, ◌∙◌}
use mathlib.Core.List.{List, [], ◌∷◌, ◌++◌}
use native.Mathlib.Omega.{arith}
use herdr_dog_relay.Prelude.Lists.{length, take, drop, get_or, All, length-append}

abbrev pub Bytes : Type 0
Bytes = List ℕ

abbrev pub IsByte : ℕ → Type 0
IsByte b = b < 256

to_le : ℕ → ℕ → Bytes
to_le zero n = []
to_le (suc w) n = (n % 256) ∷ to_le w (n / 256)

from_le : Bytes → ℕ
from_le [] = 0
from_le (b ∷ bs) = b + 256 * from_le bs

-- `to_be_bytes` of a `w`-byte unsigned integer.
unfoldable pub to_be : ℕ → ℕ → Bytes
unfolding to_le
to_be w n = reverse (to_le w n)

-- `from_be_bytes`
unfoldable pub from_be : Bytes → ℕ
unfolding from_le
from_be bs = from_le (reverse bs)

-- `bytes[lo..hi]`, with both ends in range.
abbrev pub slice : ℕ → ℕ → Bytes → Bytes
slice lo hi bs = take (hi - lo) (drop lo bs)

-- `bytes[i]`, with `i` in range.
abbrev pub byte_at : Bytes → ℕ → ℕ
byte_at bs i = get_or bs i 0

length-reverse : (xs : Bytes) → length (reverse xs) ≡ length xs
length-reverse [] = refl
length-reverse (x ∷ xs) =
    rw (reverse-cons x xs) (omega (arith, length-append (reverse xs) (x ∷ []), length-reverse xs))

All-append : (xs ys : Bytes) → All IsByte xs → All IsByte ys → All IsByte (xs ++ ys)
All-append [] ys hx hy = hy
All-append (x ∷ xs) ys hx hy = (hx.0, All-append xs ys hx.1 hy)

reverse-IsByte : (xs : Bytes) → All IsByte xs → All IsByte (reverse xs)
reverse-IsByte [] h = tt
reverse-IsByte (x ∷ xs) h =
    rw (reverse-cons x xs) (All-append (reverse xs) (x ∷ []) (reverse-IsByte xs h.1) (h.0, tt))

length-to_le : (w n : ℕ) → length (to_le w n) ≡ w
unfolding to_le
length-to_le zero n = refl
length-to_le (suc w) n = ap suc (length-to_le w (n / 256))

to_le-IsByte : (w n : ℕ) → All IsByte (to_le w n)
unfolding to_le
to_le-IsByte zero n = tt
to_le-IsByte (suc w) n = (omega arith, to_le-IsByte w (n / 256))

from_le-to_le : (w n : ℕ) → n < 256 ^ w → from_le (to_le w n) ≡ n
unfolding to_le from_le
from_le-to_le zero n h = omega arith
from_le-to_le (suc w) n h = omega (arith, from_le-to_le w (n / 256) (omega (arith, pow-suc 256 w)))

to_le-from_le : (xs : Bytes) → All IsByte xs → to_le (length xs) (from_le xs) ≡ xs
unfolding to_le from_le
to_le-from_le [] h = refl
to_le-from_le (x ∷ xs) h = ground (arith, to_le-from_le xs h.1)

from_le-lt : (xs : Bytes) → All IsByte xs → from_le xs < 256 ^ length xs
unfolding from_le
from_le-lt [] h = omega arith
from_le-lt (x ∷ xs) h = omega (arith, from_le-lt xs h.1, pow-suc 256 (length xs))

pub length-to_be : (w n : ℕ) → length (to_be w n) ≡ w
unfolding to_be
length-to_be w n = length-reverse (to_le w n) ∙ length-to_le w n

pub to_be-IsByte : (w n : ℕ) → All IsByte (to_be w n)
unfolding to_be
to_be-IsByte w n = reverse-IsByte (to_le w n) (to_le-IsByte w n)

-- An unsigned integer of `w` bytes is read back from its bytes.
pub from_be-to_be : (w n : ℕ) → n < 256 ^ w → from_be (to_be w n) ≡ n
unfolding to_be from_be
from_be-to_be w n h = rw (reverse-reverse (to_le w n)) (from_le-to_le w n h)

-- Bytes are written back as they were.
pub to_be-from_be : (w : ℕ) (xs : Bytes) → All IsByte xs → length xs ≡ w → to_be w (from_be xs) ≡ xs
unfolding to_be from_be
to_be-from_be w xs h e =
    rw (← e, ← length-reverse xs, to_le-from_le (reverse xs) (reverse-IsByte xs h))
      (reverse-reverse xs)

pub from_be-lt : (w : ℕ) (xs : Bytes) → All IsByte xs → length xs ≡ w → from_be xs < 256 ^ w
unfolding from_be
from_be-lt w xs h e = rw (← e, ← length-reverse xs) (from_le-lt (reverse xs) (reverse-IsByte xs h))

-- The ranges of the unsigned integers, and of an array of `n` bytes.
abbrev pub IsU16 : ℕ → Type 0
IsU16 n = n < 256 ^ 2

abbrev pub IsU32 : ℕ → Type 0
IsU32 n = n < 256 ^ 4

abbrev pub IsU64 : ℕ → Type 0
IsU64 n = n < 256 ^ 8

abbrev pub IsArray : ℕ → Bytes → Type 0
IsArray n bs = (length bs ≡ n) × All IsByte bs
