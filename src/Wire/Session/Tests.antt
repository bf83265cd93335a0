-- ===== src/Wire/Session/Tests.antt =====
-- The payloads of the session control frames at concrete messages.
use herdr_dog_relay.Prelude.{◌≡◌, refl, ok, Bytes, All, IsByte, to_be, flatten, arith}
use herdr_dog_relay.Wire.Name.Tests.{
  alpha, alpha-IsName, IsByte-of_test, print, print-IsArray, secret, secret-IsArray,
}
use herdr_dog_relay.Wire.Session.{
  SessionPrepareRequest, encode_prepare, decode_prepare, SessionPrepareAck, encode_prepare_ack,
  decode_prepare_ack, SessionOpenRequest, encode_open, decode_open,
}
use herdr_dog_relay.Wire.Session.Prepare.{
  IsPrepare, decode_prepare-encode_prepare, encode_prepare-decode_prepare,
}
use herdr_dog_relay.Wire.Session.Prepared.{
  IsPrepareAck, decode_prepare_ack-encode_prepare_ack, encode_prepare_ack-decode_prepare_ack,
}
use herdr_dog_relay.Wire.Session.Open.{IsOpen, decode_open-encode_open, encode_open-decode_open}

abbrev prepare : SessionPrepareRequest
prepare = record { session = alpha; expected_fingerprint = print; configuration_generation = 5 }

prepare-IsPrepare : IsPrepare prepare
prepare-IsPrepare = record { name = alpha-IsName; print = print-IsArray; generation = omega arith }

prepare_bytes : Bytes
prepare_bytes = flatten (herdr_dog_relay.Wire.Session.Prepare.fields prepare)

prepare_read : decode_prepare prepare_bytes ≡ ok prepare
unfolding prepare_bytes
prepare_read = herdr_dog_relay.Wire.Session.Prepare.decode_of_fields prepare prepare-IsPrepare

prepare_bytes-IsByte : All IsByte prepare_bytes
unfolding prepare_bytes to_be flatten
prepare_bytes-IsByte =
    IsByte-of_test (flatten (herdr_dog_relay.Wire.Session.Prepare.fields prepare)) refl

abbrev prepared : SessionPrepareAck
prepared = record {
  session = alpha;
  fingerprint = print;
  configuration_generation = 5;
  relay_generation = 7;
  connection_epoch = 9;
  token = secret;
  token_ttl_secs = 90;
}

prepared-IsPrepareAck : IsPrepareAck prepared
prepared-IsPrepareAck = record {
  name = alpha-IsName;
  print = print-IsArray;
  configuration = omega arith;
  relay = omega arith;
  epoch = omega arith;
  secret = secret-IsArray;
  ttl = omega arith;
}

prepared_bytes : Bytes
prepared_bytes = flatten (herdr_dog_relay.Wire.Session.Prepared.fields prepared)

prepared_read : decode_prepare_ack prepared_bytes ≡ ok prepared
unfolding prepared_bytes
prepared_read =
    herdr_dog_relay.Wire.Session.Prepared.decode_of_fields prepared prepared-IsPrepareAck

prepared_bytes-IsByte : All IsByte prepared_bytes
unfolding prepared_bytes to_be flatten
prepared_bytes-IsByte =
    IsByte-of_test (flatten (herdr_dog_relay.Wire.Session.Prepared.fields prepared)) refl

abbrev request : SessionOpenRequest
request = record {
  session = alpha;
  fingerprint = print;
  configuration_generation = 5;
  relay_generation = 7;
  connection_epoch = 9;
  token = secret;
}

request-IsOpen : IsOpen request
request-IsOpen = record {
  name = alpha-IsName;
  print = print-IsArray;
  configuration = omega arith;
  relay = omega arith;
  epoch = omega arith;
  secret = secret-IsArray;
}

request_bytes : Bytes
request_bytes = flatten (herdr_dog_relay.Wire.Session.Open.fields request)

request_read : decode_open request_bytes ≡ ok request
unfolding request_bytes
request_read = herdr_dog_relay.Wire.Session.Open.decode_of_fields request request-IsOpen

request_bytes-IsByte : All IsByte request_bytes
unfolding request_bytes to_be flatten
request_bytes-IsByte =
    IsByte-of_test (flatten (herdr_dog_relay.Wire.Session.Open.fields request)) refl
