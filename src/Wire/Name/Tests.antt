-- ===== src/Wire/Name/Tests.antt =====
-- A session name and an identity for the tests of the messages.
use herdr_dog_relay.Prelude.{
  ◌≡◌, bytes_beq, refl, [], ◌∷◌, true, Bytes, All, IsByte, IsArray, all, ltb, replicate, arith,
}
use herdr_dog_relay.Wire.Name.{SessionName, IsName, new, bad_name, is_empty}

abbrev pub alpha : SessionName
alpha = record { as_str = b'a' ∷ b'-' ∷ b'1' ∷ [] }

pub alpha-IsName : IsName alpha
unfolding new bad_name is_empty bytes_beq
alpha-IsName = refl

pub IsByte-of_test : (bs : Bytes) → all (λ b. ltb b 256) bs ≡ true → All IsByte bs
IsByte-of_test [] h = tt
IsByte-of_test (b ∷ bs) h = ground (arith, IsByte-of_test bs)

abbrev pub print : Bytes
print = replicate 32 1

pub print-IsArray : IsArray 32 print
print-IsArray = (refl, IsByte-of_test print refl)

abbrev pub secret : Bytes
secret = replicate 32 2

pub secret-IsArray : IsArray 32 secret
secret-IsArray = (refl, IsByte-of_test secret refl)
