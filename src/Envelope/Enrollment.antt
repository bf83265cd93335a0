-- ===== src/Envelope/Enrollment.antt =====
-- src/enrollment_wire.rs, lines 12 to 210: the frames of HDE1, with which an App is enrolled.
pub mod RoundTrip
use herdr_dog_relay.Prelude.{
  ℕ, ◌+◌, ◌-◌, ◌≡◌, ◌*◌, List, [], ◌∷◌, Bool, true, false, not, ◌||◌, Option, none, some, Result,
  ok, err, ◌>>=◌, ◌>>◌, fail_if, ok_or, Bytes, from_be, slice, byte_at, drop, length, ltb, ◌==◌,
  ◌!=◌, nat_ord, bytes_ord, bytes_beq, get_or, ◌^◌, if◌then◌else◌,
}
use herdr_dog_relay.Envelope.{header_bytes, envelope, read_frame_with}

abbrev pub enrollment_magic : Bytes
enrollment_magic = b'H' ∷ b'D' ∷ b'E' ∷ b'1' ∷ []

abbrev pub enrollment_version : ℕ
enrollment_version = 1

pub data EnrollmentWireError : Type 0 where
  invalid_frame frame_too_large invalid_order authorization_rejected : EnrollmentWireError
  persistence_failed resource_limit : EnrollmentWireError

pub data EnrollmentFrameKind : Type 0 where
  challenge submit issued rejected : EnrollmentFrameKind

-- `kind as u8`
unfoldable pub kind_code : EnrollmentFrameKind → ℕ
kind_code challenge = 1
kind_code submit = 2
kind_code issued = 3
kind_code rejected = 4

-- `EnrollmentFrameKind::try_from`
unfoldable pub kind_of_code : ℕ → Result EnrollmentWireError EnrollmentFrameKind
kind_of_code value = get_or table value (err invalid_frame)
  where
    table : List (Result EnrollmentWireError EnrollmentFrameKind)
    table = err invalid_frame ∷ ok challenge ∷ ok submit ∷ ok issued ∷ ok rejected ∷ []

pub record EnrollmentFrame : Type 0 where
  pub kind : EnrollmentFrameKind
  pub payload : Bytes

unfoldable pub encode : (max_bytes : ℕ) → EnrollmentFrame → Result EnrollmentWireError Bytes
encode max_bytes f = do
  fail_if (ltb max_bytes (length f.payload) || ltb (2 ^ 32 - 1) (length f.payload)) frame_too_large
  ok (envelope enrollment_magic enrollment_version (kind_code f.kind) f.payload)

unfoldable pub decode : (max_bytes : ℕ) → Bytes → Result EnrollmentWireError EnrollmentFrame
decode max_bytes bytes = do
  fail_if (ltb (length bytes) header_bytes) invalid_frame
  fail_if
      ((slice 0 4 bytes != enrollment_magic) || (from_be (slice 4 6 bytes) != enrollment_version))
      invalid_frame
  kind ← kind_of_code (byte_at bytes 6)
  let payload_len = from_be (slice 7 11 bytes)
  fail_if (ltb max_bytes payload_len) frame_too_large
  fail_if (length bytes != header_bytes + payload_len) invalid_frame
  ok (record { kind = kind; payload = drop header_bytes bytes })

-- `read_frame`
unfoldable pub read_frame :
    (max_bytes : ℕ) → Bytes → Result EnrollmentWireError (EnrollmentFrame × Bytes)
read_frame max_bytes stream =
    read_frame_with max_bytes invalid_frame frame_too_large (decode max_bytes) stream

-- The JSON of a type, which another package writes and reads.
module _ {T : Type 0} (to_vec : T → Option Bytes) (from_slice : Bytes → Option T) where
  unfoldable pub json : EnrollmentFrameKind → T → ℕ → Result EnrollmentWireError EnrollmentFrame
  json kind value max_bytes = do
    payload ← ok_or (to_vec value) invalid_frame
    fail_if (ltb max_bytes (length payload)) frame_too_large
    ok (record { kind = kind; payload = payload })

  unfoldable pub parse_json : EnrollmentFrame → EnrollmentFrameKind → Result EnrollmentWireError T
  parse_json f expected = do
    fail_if (kind_code f.kind != kind_code expected) invalid_order
    ok_or (from_slice f.payload) invalid_frame
