-- ===== src/Wire/Hello/Tests.antt =====
-- The acknowledgement of a hello at a concrete message.
use herdr_dog_relay.Prelude.{◌≡◌, refl, ok, All, IsByte, Bytes, to_be, flatten, arith}
use herdr_dog_relay.Wire.Name.Tests.{IsByte-of_test, print, print-IsArray}
use herdr_dog_relay.Wire.Hello.{DeviceHelloAck, IsHello, encode, decode, hello_fields}
use herdr_dog_relay.Wire.Hello.RoundTrip.{decode-encode_hello}

abbrev hello : DeviceHelloAck
hello = record {
  relay_identity = print;
  ca_generation = 3;
  relay_generation = 7;
  connection_epoch = 9;
}

hello-IsHello : IsHello hello
hello-IsHello = record {
  identity = print-IsArray;
  known = λ e. cc e;
  ca = omega arith;
  ca_set = omega arith;
  relay = omega arith;
  relay_set = omega arith;
  epoch = omega arith;
  epoch_set = omega arith;
}

hello_bytes : Bytes
hello_bytes = flatten (hello_fields hello)

hello_bytes-IsByte : All IsByte hello_bytes
unfolding hello_bytes hello_fields to_be flatten
hello_bytes-IsByte = IsByte-of_test (flatten (hello_fields hello)) refl

hello_read : decode hello_bytes ≡ ok hello
unfolding encode hello_bytes
hello_read = decode-encode_hello hello hello-IsHello
