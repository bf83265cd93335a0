-- ===== src/Envelope/Hde3.antt =====
-- src/enrollment_v3_wire.rs, lines 13 to 256: the frames of HDE3, with which a Core enrolls Apps.
pub mod RoundTrip
pub mod Payloads
pub mod Results
pub mod Issued
use herdr_dog_relay.Prelude.{
  ℕ, ◌+◌, ◌-◌, ◌≡◌, ◌*◌, List, [], ◌∷◌, Bool, true, false, not, ◌||◌, Option, none, some, Result,
  ok, err, ◌>>=◌, ◌>>◌, fail_if, ok_or, Bytes, from_be, slice, byte_at, drop, length, ltb, ◌==◌,
  ◌!=◌, nat_ord, bytes_ord, bytes_beq, get_or, ◌^◌, if◌then◌else◌,
}
use herdr_dog_relay.Envelope.{header_bytes, envelope, read_frame_with}

abbrev pub hde3_magic : Bytes
hde3_magic = b'H' ∷ b'D' ∷ b'E' ∷ b'3' ∷ []

abbrev pub hde3_version : ℕ
hde3_version = 3

abbrev pub hde3_max_frame_bytes : ℕ
hde3_max_frame_bytes = 64 * 1024

abbrev pub hde3_max_payload_bytes : ℕ
hde3_max_payload_bytes = hde3_max_frame_bytes - header_bytes

pub data Hde3Error : Type 0 where
  invalid_frame frame_too_large invalid_order invalid_field : Hde3Error

pub data Hde3Kind : Type 0 where
  first_app_submit approval_start approval_challenge approval_submit : Hde3Kind
  confirm_persisted reconcile renew result : Hde3Kind
  rejected : Hde3Kind

-- `kind as u8`
unfoldable pub kind_code : Hde3Kind → ℕ
kind_code first_app_submit = 1
kind_code approval_start = 2
kind_code approval_challenge = 3
kind_code approval_submit = 4
kind_code confirm_persisted = 5
kind_code reconcile = 6
kind_code renew = 7
kind_code result = 8
kind_code rejected = 9

-- `Hde3Kind::try_from`
unfoldable pub kind_of_code : ℕ → Result Hde3Error Hde3Kind
kind_of_code value = get_or table value (err invalid_frame)
  where
    table : List (Result Hde3Error Hde3Kind)
    table =
        err invalid_frame
        ∷ ok first_app_submit
        ∷ ok approval_start
        ∷ ok approval_challenge
        ∷ ok approval_submit
        ∷ ok confirm_persisted
        ∷ ok reconcile
        ∷ ok renew
        ∷ ok result
        ∷ ok rejected
        ∷ []

pub record Hde3Frame : Type 0 where
  pub kind : Hde3Kind
  pub payload : Bytes

unfoldable pub encode : Hde3Frame → Result Hde3Error Bytes
encode f = do
  fail_if (ltb hde3_max_payload_bytes (length f.payload)) frame_too_large
  ok (envelope hde3_magic hde3_version (kind_code f.kind) f.payload)

unfoldable pub decode : Bytes → Result Hde3Error Hde3Frame
decode bytes = do
  fail_if (ltb hde3_max_frame_bytes (length bytes)) frame_too_large
  fail_if (ltb (length bytes) header_bytes) invalid_frame
  fail_if ((slice 0 4 bytes != hde3_magic) || (from_be (slice 4 6 bytes) != hde3_version))
      invalid_frame
  kind ← kind_of_code (byte_at bytes 6)
  let payload_len = from_be (slice 7 11 bytes)
  fail_if (ltb hde3_max_payload_bytes payload_len) frame_too_large
  fail_if (length bytes != header_bytes + payload_len) invalid_frame
  ok (record { kind = kind; payload = drop header_bytes bytes })

-- `read_frame`
unfoldable pub read_frame : Bytes → Result Hde3Error (Hde3Frame × Bytes)
read_frame stream =
    read_frame_with hde3_max_payload_bytes invalid_frame frame_too_large (decode) stream

-- The JSON of a type, which another package writes and reads.
module _ {T : Type 0} (to_vec : T → Option Bytes) (from_slice : Bytes → Option T) where
  unfoldable pub json : Hde3Kind → T → Result Hde3Error Hde3Frame
  json kind value = do
    payload ← ok_or (to_vec value) invalid_frame
    fail_if (ltb hde3_max_payload_bytes (length payload)) frame_too_large
    ok (record { kind = kind; payload = payload })

  unfoldable pub parse_json : Hde3Frame → Hde3Kind → Result Hde3Error T
  parse_json f expected = do
    fail_if (kind_code f.kind != kind_code expected) invalid_order
    ok_or (from_slice f.payload) invalid_frame
