-- ===== src/Wire/Binding/Tests.antt =====
-- The stream preface at a concrete message.
use herdr_dog_relay.Prelude.{◌≡◌, refl, ok, ◌>>=◌, Bytes, All, IsByte, to_be, flatten, arith}
use herdr_dog_relay.Wire.Name.Tests.{
  alpha, alpha-IsName, IsByte-of_test, print, print-IsArray, secret, secret-IsArray,
}
use herdr_dog_relay.Wire.Binding.{HdqsBinding, IsBinding, encode, decode, binding_fields}
use herdr_dog_relay.Wire.Binding.RoundTrip.{decode-encode_binding}

abbrev claim : HdqsBinding
claim = record {
  session_handle = 1;
  configuration_generation = 5;
  relay_generation = 7;
  connection_epoch = 9;
  session = alpha;
  fingerprint = print;
  token = secret;
}

claim-IsBinding : IsBinding claim
claim-IsBinding = record {
  handle = omega arith;
  opened = omega arith;
  configuration = omega arith;
  relay = omega arith;
  epoch = omega arith;
  name = alpha-IsName;
  print = print-IsArray;
  secret = secret-IsArray;
}

decode-encode_binding_example : (encode claim >>= decode) ≡ ok claim
decode-encode_binding_example = decode-encode_binding claim claim-IsBinding

claim_bytes : Bytes
claim_bytes = flatten (binding_fields claim)

claim_read : decode claim_bytes ≡ ok claim
unfolding encode claim_bytes
claim_read = decode-encode_binding claim claim-IsBinding

claim_bytes-IsByte : All IsByte claim_bytes
unfolding claim_bytes binding_fields to_be flatten
claim_bytes-IsByte = IsByte-of_test (flatten (binding_fields claim)) refl
