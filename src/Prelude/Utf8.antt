-- ===== src/Prelude/Utf8.antt =====
-- `str::from_utf8` of the standard library: which byte strings are UTF-8 (Unicode, table 3-7).
use herdr_dog_relay.Prelude.Tests.{ltb, leb, if◌then◌else◌}
use herdr_dog_relay.Prelude.Lists.{All}
use Prim.Native.Nat.{ℕ, zero, suc, ◌<◌}
use mathlib.Core.Path.{◌≡◌, refl}
use mathlib.Core.Bool.{Bool, true, false, ◌&&◌, ◌||◌}
use mathlib.Core.Option.{Option, none, some}
use mathlib.Core.List.{List, [], ◌∷◌}
use native.Mathlib.Omega.{arith}

in_range : ℕ → ℕ → ℕ → Bool
in_range lo hi b = leb lo b && leb b hi

-- The continuation bytes that a first byte calls for, with the range of the next one.
lead : ℕ → Option (ℕ × ℕ × ℕ)
unfolding in_range
lead b =
    if ltb b 0x80
    then some (0, 0x80, 0xbf)
    else if in_range 0xc2 0xdf b
    then some (1, 0x80, 0xbf)
    else if in_range 0xe0 0xe0 b
    then some (2, 0xa0, 0xbf)
    else if in_range 0xe1 0xec b || in_range 0xee 0xef b
    then some (2, 0x80, 0xbf)
    else if in_range 0xed 0xed b
    then some (2, 0x80, 0x9f)
    else if in_range 0xf0 0xf0 b
    then some (3, 0x90, 0xbf)
    else if in_range 0xf1 0xf3 b
    then some (3, 0x80, 0xbf)
    else if in_range 0xf4 0xf4 b
    then some (3, 0x80, 0x8f)
    else none

utf8_from : ℕ → ℕ → ℕ → List ℕ → Bool
unfolding lead
utf8_from zero lo hi [] = true
utf8_from (suc n) lo hi [] = false
utf8_from zero lo hi (b ∷ bs) = elim (lead b) [
  | none ↦ false
  | some (n, lo', hi') ↦ utf8_from n lo' hi' bs
]
utf8_from (suc n) lo hi (b ∷ bs) = in_range lo hi b && utf8_from n 0x80 0xbf bs

unfoldable pub is_utf8 : List ℕ → Bool
unfolding utf8_from
is_utf8 bs = utf8_from 0 0x80 0xbf bs

utf8_from-ascii : (lo hi : ℕ) (bs : List ℕ) → All (λ b. b < 128) bs → utf8_from 0 lo hi bs ≡ true
unfolding utf8_from
utf8_from-ascii lo hi [] h = refl
utf8_from-ascii lo hi (b ∷ bs) h = ground (arith, utf8_from-ascii 0x80 0xbf bs h.1)

pub is_utf8-ascii : (bs : List ℕ) → All (λ b. b < 128) bs → is_utf8 bs ≡ true
unfolding is_utf8
is_utf8-ascii bs h = utf8_from-ascii 0x80 0xbf bs h
