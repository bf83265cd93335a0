-- ===== src/Wire/Response.antt =====
-- src/quic_wire.rs, lines 733 to 899: the fixed answer on a session stream.
pub mod Tests
pub mod RoundTrip
use herdr_dog_relay.Prelude.{
  ℕ, ◌<◌, ◌≡◌, ◌⊎◌, List, [], ◌∷◌, Bool, true, false, ◌||◌, ◌&&◌, Result, ok, err, ◌>>=◌, ◌>>◌,
  fail_if, Bytes, IsU16, IsU64, to_be, from_be, slice, byte_at, length, flatten, get_or, ◌==◌, ◌!=◌,
  nat_ord, bytes_ord,
}
use herdr_dog_relay.Wire.{
  QuicProtocolError, invalid_magic, unsupported_version, length_mismatch, invalid_status,
  hdqs_magic, qrm_protocol_version, hdqs_response_bytes,
}

pub data HdqsKind : Type 0 where
  accepted rejected : HdqsKind

pub kind_code : HdqsKind → ℕ
kind_code accepted = 2
kind_code rejected = 3

-- `HdqsKind::try_from`
pub kind_of_code : ℕ → Result QuicProtocolError HdqsKind
kind_of_code value =
    get_or (err invalid_status ∷ err invalid_status ∷ ok accepted ∷ ok rejected ∷ []) value
      (err invalid_status)

pub data HdqsReason : Type 0 where
  no_reason invalid_frame session_not_found fingerprint_mismatch token_mismatch : HdqsReason
  generation_mismatch socket_unavailable capacity_exhausted connection_closing : HdqsReason
  session_already_open : HdqsReason

pub reason_code : HdqsReason → ℕ
reason_code no_reason = 0
reason_code invalid_frame = 1
reason_code session_not_found = 2
reason_code fingerprint_mismatch = 3
reason_code token_mismatch = 4
reason_code generation_mismatch = 5
reason_code socket_unavailable = 6
reason_code capacity_exhausted = 7
reason_code connection_closing = 8
reason_code session_already_open = 9

-- `HdqsReason::try_from`
pub reason_of_code : ℕ → Result QuicProtocolError HdqsReason
reason_of_code value = get_or table value (err invalid_status)
  where
    table : List (Result QuicProtocolError HdqsReason)
    table =
        ok no_reason
        ∷ ok invalid_frame
        ∷ ok session_not_found
        ∷ ok fingerprint_mismatch
        ∷ ok token_mismatch
        ∷ ok generation_mismatch
        ∷ ok socket_unavailable
        ∷ ok capacity_exhausted
        ∷ ok connection_closing
        ∷ ok session_already_open
        ∷ []

pub record HdqsResponse : Type 0 where
  pub kind : HdqsKind
  pub status : HdqsKind
  pub session_handle : ℕ
  pub reason : HdqsReason
  pub connection_epoch : ℕ

-- `HdqsResponse::accepted` and `HdqsResponse::rejected`
abbrev pub accept : ℕ → ℕ → HdqsResponse
accept handle epoch = record {
  kind = accepted;
  status = accepted;
  session_handle = handle;
  reason = no_reason;
  connection_epoch = epoch;
}

abbrev pub reject : HdqsReason → ℕ → HdqsResponse
reject reason epoch = record {
  kind = rejected;
  status = rejected;
  session_handle = 0;
  reason = reason;
  connection_epoch = epoch;
}

-- The first check of `encode`: `==` of the enums is that of their codes.
pub is_inconsistent : HdqsResponse → Bool
unfolding kind_code reason_code
is_inconsistent r =
    (kind_code r.kind != kind_code r.status)
    || ((kind_code r.kind == 2) && ((r.session_handle == 0) || (reason_code r.reason != 0)))
    || ((kind_code r.kind == 3) && (r.session_handle != 0))

-- The ranges that `encode` fills; byte 11 stays 0.
pub response_fields : HdqsResponse → List Bytes
response_fields r =
    hdqs_magic
    ∷ to_be 2 qrm_protocol_version
    ∷ (kind_code r.kind ∷ [])
    ∷ (kind_code r.status ∷ [])
    ∷ to_be 2 r.session_handle
    ∷ (reason_code r.reason ∷ [])
    ∷ (0 ∷ [])
    ∷ to_be 8 r.connection_epoch
    ∷ []

pub encode : HdqsResponse → Result QuicProtocolError Bytes
encode r = do fail_if (is_inconsistent r) invalid_status; ok (flatten (response_fields r))

pub decode : Bytes → Result QuicProtocolError HdqsResponse
decode bytes = do
  fail_if (length bytes != hdqs_response_bytes) length_mismatch
  fail_if (slice 0 4 bytes != hdqs_magic) invalid_magic
  fail_if (from_be (slice 4 6 bytes) != qrm_protocol_version) unsupported_version
  fail_if (byte_at bytes 11 != 0) invalid_status
  kind ← kind_of_code (byte_at bytes 6)
  status ← kind_of_code (byte_at bytes 7)
  reason ← reason_of_code (byte_at bytes 10)
  let response : HdqsResponse = record {
    kind = kind;
    status = status;
    session_handle = from_be (slice 8 10 bytes);
    reason = reason;
    connection_epoch = from_be (slice 12 20 bytes);
  }
  _ ← encode response
  ok response

-- What `encode` accepts: the two shapes that `accept` and `reject` make, with fields in range.
pub record IsResponse (r : HdqsResponse) : Type 0 where
  pub handle : IsU16 r.session_handle
  pub epoch : IsU64 r.connection_epoch
  pub consistent : is_inconsistent r ≡ false
