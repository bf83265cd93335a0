-- ===== src/Wire/Response/Tests.antt =====
-- The answer on a session stream at a concrete message.
use herdr_dog_relay.Prelude.{◌≡◌, refl, ok, Bytes, All, IsByte, to_be, flatten, arith}
use herdr_dog_relay.Wire.Name.Tests.{IsByte-of_test}
use herdr_dog_relay.Wire.Response.{
  HdqsKind, HdqsReason, HdqsResponse, IsResponse, encode, decode, response_fields, kind_code,
  reason_code, is_inconsistent,
}
use herdr_dog_relay.Wire.Response.RoundTrip.{decode-encode_response}

abbrev answer : HdqsResponse
answer = record {
  kind = HdqsKind.rejected;
  status = HdqsKind.rejected;
  session_handle = 0;
  reason = HdqsReason.capacity_exhausted;
  connection_epoch = 9;
}

answer-IsResponse : IsResponse answer
unfolding is_inconsistent kind_code reason_code
answer-IsResponse = record { handle = omega arith; epoch = omega arith; consistent = refl }

answer_bytes : Bytes
answer_bytes = flatten (response_fields answer)

answer_read : decode answer_bytes ≡ ok answer
unfolding encode answer_bytes decode is_inconsistent
answer_read = decode-encode_response answer answer-IsResponse

answer_bytes-IsByte : All IsByte answer_bytes
unfolding answer_bytes response_fields kind_code reason_code to_be flatten
answer_bytes-IsByte = IsByte-of_test (flatten (response_fields answer)) refl
