-- ===== src/Wire/Control/Tests.antt =====
-- The control frame at a concrete message.
use herdr_dog_relay.Prelude.{
  ◌≡◌, refl, [], ◌∷◌, ok, ◌>>=◌, Bytes, All, IsByte, replicate, to_be, flatten, arith,
}
use herdr_dog_relay.Wire.Name.Tests.{IsByte-of_test}
use herdr_dog_relay.Wire.Control.{
  HdqmKind, HdqmFrame, IsFrame, encode, decode, frame_fields, kind_code,
}
use herdr_dog_relay.Wire.Control.RoundTrip.{decode-encode_frame, encode-decode-IsFrame}

abbrev beat : HdqmFrame
beat = record { kind = HdqmKind.heartbeat; request_id = replicate 16 3; payload = 9 ∷ 255 ∷ [] }

beat-IsFrame : IsFrame beat
beat-IsFrame = record {
  id = (refl, IsByte-of_test (replicate 16 3) refl);
  bytes = IsByte-of_test (9 ∷ 255 ∷ []) refl;
  small = omega arith;
}

decode-encode_frame_example : (encode beat >>= decode) ≡ ok beat
decode-encode_frame_example = decode-encode_frame beat beat-IsFrame

beat_bytes : Bytes
beat_bytes = flatten (frame_fields beat)

beat_read : decode beat_bytes ≡ ok beat
unfolding encode beat_bytes
beat_read = decode-encode_frame beat beat-IsFrame

beat_bytes-IsByte : All IsByte beat_bytes
unfolding beat_bytes frame_fields kind_code to_be flatten
beat_bytes-IsByte = IsByte-of_test (flatten (frame_fields beat)) refl

encode-decode-IsFrame_example : IsFrame beat × (encode beat ≡ ok beat_bytes)
encode-decode-IsFrame_example = encode-decode-IsFrame beat beat_bytes beat_bytes-IsByte beat_read
